-- ===== src/Repositories/Statistics/Totals.antt =====
-- The numbers of the dashboards agree with each other.
use native.Mathlib.Nat.{zero-add}
use core_desappsii.Base.{
  ℕ, ◌+◌, ◌≡◌, refl, sym, ◌∙◌, true, Option, some, List, [], ◌∷◌, arith, map, length, count_rows,
  if◌then◌else◌,
}
use core_desappsii.Base.Counts.{
  get_count, sum_values, sum_values-group_count, get_count-group_count,
}
use core_desappsii.Text.{Text}
use core_desappsii.Model.Events.{EventStatus, routed, no_subscribers, rejected, duplicate, EventLog}
use core_desappsii.World.{World}
use core_desappsii.Repositories.Search.{event_status_is}
use core_desappsii.Repositories.Statistics.{
  Bucket, counted, count_logs_by_status, count_since, hourly_volume, count_hours, count_hour,
}

unfoldable pub sum_totals : List Bucket → ℕ
sum_totals [] = 0
sum_totals (b ∷ bs) = b.total + sum_totals bs

unfoldable pub sum_rejected : List Bucket → ℕ
sum_rejected [] = 0
sum_rejected (b ∷ bs) = b.rejected_total + sum_rejected bs

event_status_is-eq : (a b : EventStatus) → event_status_is a b ≡ true → a ≡ b
event_status_is-eq routed routed h = refl
event_status_is-eq routed no_subscribers h = absurd (cc h)
event_status_is-eq routed rejected h = absurd (cc h)
event_status_is-eq routed duplicate h = absurd (cc h)
event_status_is-eq no_subscribers routed h = absurd (cc h)
event_status_is-eq no_subscribers no_subscribers h = refl
event_status_is-eq no_subscribers rejected h = absurd (cc h)
event_status_is-eq no_subscribers duplicate h = absurd (cc h)
event_status_is-eq rejected routed h = absurd (cc h)
event_status_is-eq rejected no_subscribers h = absurd (cc h)
event_status_is-eq rejected rejected h = refl
event_status_is-eq rejected duplicate h = absurd (cc h)
event_status_is-eq duplicate routed h = absurd (cc h)
event_status_is-eq duplicate no_subscribers h = absurd (cc h)
event_status_is-eq duplicate rejected h = absurd (cc h)
event_status_is-eq duplicate duplicate h = refl

event_status_is_refl : (a : EventStatus) → event_status_is a a ≡ true
event_status_is_refl routed = refl
event_status_is_refl no_subscribers = refl
event_status_is_refl rejected = refl
event_status_is_refl duplicate = refl

count_hour_sums :
    (l : EventLog) (bs : List Bucket)
    → (sum_totals (count_hour l bs) ≡ sum_totals bs + 1)
      × (sum_rejected (count_hour l bs)
          ≡ sum_rejected bs + (if event_status_is l.status rejected then 1 else 0))
unfolding count_hour sum_totals sum_rejected
count_hour_sums l [] = (refl, omega arith)
count_hour_sums l (b ∷ bs) = ground (arith, count_hour_sums l bs)

count_hours_sums :
    (ls : List EventLog) (bs : List Bucket)
    → (sum_totals (count_hours ls bs) ≡ sum_totals bs + length ls)
      × (sum_rejected (count_hours ls bs)
          ≡ sum_rejected bs + count_rows (λ s. event_status_is s rejected) (map (λ l. l.status) ls))
unfolding count_hours
count_hours_sums [] bs = (omega arith, omega arith)
count_hours_sums (l ∷ ls) bs =
    ground (arith, count_hours_sums ls (count_hour l bs), count_hour_sums l bs)

length-map {ℓ κ} :
    {A : Type ℓ} {B : Type κ} (f : A → B) (xs : List A) → length (map f xs) ≡ length xs
length-map f [] = refl
length-map f (x ∷ xs) = omega (arith, length-map f xs)

-- For any scope and window, the events by status and the volume by hour add up to the same total,
-- which for a window is that of `count_since`; and the events counted as rejected are those that the
-- volume counts as rejected.
pub hourly_volume-count_logs_by_status :
    (scope : Option Text) (since : ℕ) (w : World)
    → let by_status = count_logs_by_status scope (some since) w in
      let by_hour = hourly_volume scope (some since) w in
      (sum_values by_status ≡ count_since since scope w)
      × (sum_totals by_hour ≡ count_since since scope w)
      × (get_count event_status_is rejected by_status ≡ sum_rejected by_hour)
unfolding count_logs_by_status hourly_volume count_since sum_totals sum_rejected
hourly_volume-count_logs_by_status scope since w =
    let ls = counted scope (some since) w in
    let sums = count_hours_sums ls [] in
    (
      sum_values-group_count event_status_is (map (λ l. l.status) ls)
          ∙ length-map (λ l. l.status) ls,
      sums.0 ∙ zero-add (length ls),
      get_count-group_count event_status_is event_status_is-eq event_status_is_refl rejected
            (map (λ l. l.status) ls)
          ∙ sym (
              sums.1
              ∙ zero-add (count_rows (λ s. event_status_is s rejected) (map (λ l. l.status) ls))),
    )
