-- ===== src/Repositories/Statistics.antt =====
-- backend/app/repositories/event_repository.py: the counts of the dashboards. A group is a row of its
-- key and its count; the order of groups with the same count is open.
pub mod Totals
use core_desappsii.Base.{
  ℕ, ◌+◌, ◌*◌, ◌/◌, Bool, true, false, ◌&&◌, Option, none, some, List, [], ◌∷◌, leb, ltb, ◌==◌,
  if◌then◌else◌, filterb, map, take, length, count_rows,
}
use core_desappsii.Base.Counts.{group_count}
use core_desappsii.Text.{Text, text_eq}
use core_desappsii.Model.Events.{
  EventStatus, rejected, DeliveryStatus, EventLog, Delivery, DeadLetterStatus, opened,
}
use core_desappsii.World.{World}
use core_desappsii.Repositories.Search.{
  in_scope, if_text, if_given, event_status_is, letter_in_scope, letter_status_is, reason_text,
}

-- The rows that the counts of a scope and a window go over.
abbrev pub counted : Option Text → Option ℕ → World → List EventLog
counted scope since w =
    filterb (λ l. in_scope w scope l && if_given (λ t. leb t l.received_at) since) w.event_logs

-- `EventLogRepository.count_by_status`
unfoldable pub count_logs_by_status : Option Text → Option ℕ → World → List (EventStatus × ℕ)
unfolding in_scope group_count
count_logs_by_status scope since w =
    group_count event_status_is (map (λ l. l.status) (counted scope since w))

-- `EventLogRepository.count_published`
unfoldable pub count_published : Text → Option ℕ → World → ℕ
count_published name since w =
    count_rows (λ l. text_eq l.source_module name && if_given (λ t. leb t l.received_at) since)
      w.event_logs

-- `EventLogRepository.count_since`
unfoldable pub count_since : ℕ → Option Text → World → ℕ
unfolding in_scope
count_since since scope w = length (counted scope (some since) w)

-- `order_by(func.count().desc())`
unfoldable pub insert_group {ℓ} : {A : Type ℓ} → A × ℕ → List (A × ℕ) → List (A × ℕ)
insert_group g [] = g ∷ []
insert_group g (x ∷ xs) = if leb x.1 g.1 then g ∷ x ∷ xs else x ∷ insert_group g xs

unfoldable pub largest_first {ℓ} : {A : Type ℓ} → List (A × ℕ) → List (A × ℕ)
unfolding insert_group
largest_first [] = []
largest_first (g ∷ gs) = insert_group g (largest_first gs)

-- `EventLogRepository.top_types`
unfoldable pub top_types : Option Text → Option ℕ → (limit : ℕ) → World → List (Text × ℕ)
unfolding in_scope group_count largest_first
top_types scope since limit w =
    take limit
      (largest_first (group_count text_eq (map (λ l. l.event_type) (counted scope since w))))

-- `EventLogRepository.by_source_module`
unfoldable pub by_source_module : Option ℕ → World → List (Text × ℕ)
unfolding group_count largest_first in_scope
by_source_module since w =
    largest_first (group_count text_eq (map (λ l. l.source_module) (counted none since w)))

-- One hour of `hourly_volume`.
pub record Bucket : Type 0 where
  pub hour : ℕ
  pub total : ℕ
  pub rejected_total : ℕ

-- `received_at.replace(minute=0, second=0, microsecond=0)`, in microseconds.
abbrev pub hour_of : ℕ → ℕ
hour_of t = t / 3600000000 * 3600000000

-- One round of the loop of `hourly_volume`; the buckets stay in the order of their hours.
unfoldable pub count_hour : EventLog → List Bucket → List Bucket
count_hour l [] =
    record {
      hour = hour_of l.received_at;
      total = 1;
      rejected_total = if event_status_is l.status rejected then 1 else 0;
    }
    ∷ []
count_hour l (b ∷ bs) =
    let rest = count_hour l bs in
    if b.hour == hour_of l.received_at
    then record b {
      total = b.total + 1;
      rejected_total = b.rejected_total + (if event_status_is l.status rejected then 1 else 0);
    }
      ∷ bs
    else if ltb b.hour (hour_of l.received_at)
    then b ∷ rest
    else record {
      hour = hour_of l.received_at;
      total = 1;
      rejected_total = if event_status_is l.status rejected then 1 else 0;
    }
      ∷ b
      ∷ bs

unfoldable pub count_hours : List EventLog → List Bucket → List Bucket
unfolding count_hour
count_hours [] buckets = buckets
count_hours (l ∷ ls) buckets = count_hours ls (count_hour l buckets)

-- `EventLogRepository.hourly_volume`
unfoldable pub hourly_volume : Option Text → Option ℕ → World → List Bucket
unfolding count_hours in_scope
hourly_volume scope since w = count_hours (counted scope since w) []

abbrev pub delivery_status_is : DeliveryStatus → DeliveryStatus → Bool
delivery_status_is a b = number_of a == number_of b
  where
    number_of : DeliveryStatus → ℕ
    number_of DeliveryStatus.pending = 0
    number_of DeliveryStatus.delivered = 1
    number_of DeliveryStatus.retrying = 2
    number_of DeliveryStatus.dead = 3
    number_of DeliveryStatus.discarded = 4

-- `DeliveryRepository.count_by_status`
unfoldable pub count_deliveries_by_status : Option Text → World → List (DeliveryStatus × ℕ)
unfolding group_count
count_deliveries_by_status target_module w = group_count delivery_status_is (
    map (λ d. d.status)
      (filterb (λ d. if_text (text_eq d.target_module) target_module) w.deliveries))

-- `DeadLetterRepository.count_open`
unfoldable pub count_open : Option Text → World → ℕ
unfolding letter_in_scope
count_open scope w =
    count_rows (λ d. letter_status_is d.status opened && letter_in_scope scope d) w.dead_letters

-- `DeadLetterRepository.count_by_reason`
unfoldable pub count_by_reason : Option Text → World → List (Text × ℕ)
unfolding letter_in_scope group_count largest_first reason_text
count_by_reason scope w = largest_first (
    group_count text_eq
      (map (λ d. reason_text d.reason_code) (filterb (letter_in_scope scope) w.dead_letters)))

-- `DeadLetterRepository.count_by_status`
unfoldable pub count_letters_by_status : Option Text → World → List (DeadLetterStatus × ℕ)
unfolding letter_in_scope group_count
count_letters_by_status scope w =
    group_count letter_status_is
      (map (λ d. d.status) (filterb (letter_in_scope scope) w.dead_letters))
