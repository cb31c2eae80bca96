-- ===== src/Delivery/Due/Completed.antt =====
-- What one scan leaves of each delivery, with a broker that takes every message.
use core_desappsii.Base.{
  ℕ, ◌+◌, ◌≤◌, ◌≡◌, refl, subst, ◌∙◌, Bool, true, false, Option, none, some, List, [], ◌∷◌, arith,
  All, filterb, count_rows, is_some, find_one, ==_refl, ◌==◌, Bool-cases, inl, inr, All-In, In,
}
use core_desappsii.Base.Selections.{
  same_id-eq, All-filterb, find_one-In, All-tabulate, find_one-filterb, count_rows-filterb_out,
}
use core_desappsii.Base.Keys.{count_rows-filterb}
use core_desappsii.Model.Events.{Delivery}
use core_desappsii.Messaging.Broker.{OutboundMessage}
use core_desappsii.World.{Env, World}
use core_desappsii.Repositories.Events.{get_delivery, is_due, sort_by_due}
use core_desappsii.Delivery.Due.{process_one, log_of, process_each}
use core_desappsii.Delivery.Due.Sorted.{
  All-sort_by_due, count_rows-sort_by_due, find_one-sort_by_due,
}
use core_desappsii.Delivery.Due.Sent.{IsStored, IsStored-event_logs, process_one-event_logs}
use core_desappsii.Delivery.Due.Rows.{has_id, IsCompleted, process_one_other, process_one_own}

named_id : (o : Option ℕ) → is_some o ≡ true → (id : ℕ) × (o ≡ some id)
named_id none h = absurd (cc h)
named_id (some id) h = (id, refl)

module _ (env : Env) where
  -- The loop over deliveries among which none has the identifier.
  process_each_other :
      (id started : ℕ) (ds : List Delivery) (processed : ℕ) (w : World)
      → ((n : ℕ) (m : OutboundMessage) → env.publish n m ≡ none)
      → All (IsStored env w) ds
      → count_rows (has_id id) ds ≡ 0
      → get_delivery id (process_each env started ds processed w).1 ≡ get_delivery id w
  unfolding process_each
  process_each_other id started [] processed w up stored none_there = refl
  process_each_other id started (d ∷ ds) processed w up stored none_there =
      let w' = (process_one env started d (log_of env d.event_log_id w) w).1 in
      let logs = process_one-event_logs env started d w up stored.0 in
      let (other, named) = named_id d.id stored.0.0 in
      let differ : (other == id) ≡ false = not_it d other named none_there in
      process_each_other id started ds _ w' up (IsStored-event_logs env ds w' w logs stored.1)
        (ground (arith, none_there))
      ∙ process_one_other env id other started d w up stored.0 named differ
    where
      not_it :
          (d : Delivery) (other : ℕ)
          → d.id ≡ some other
          → count_rows (has_id id) (d ∷ ds) ≡ 0
          → (other == id) ≡ false
      not_it d other named h = elim (Bool-cases (other == id)) [
        | inl e ↦ absurd (omega (arith, rw (named, e) at h))
        | inr e ↦ e
      ]

  -- The loop over deliveries among which one has the identifier.
  process_each_own :
      (id started : ℕ) (ds : List Delivery) (processed : ℕ) (d r : Delivery) (w : World)
      → ((n : ℕ) (m : OutboundMessage) → env.publish n m ≡ none)
      → All (IsStored env w) ds
      → find_one (has_id id) ds ≡ some d
      → count_rows (has_id id) ds ≤ 1
      → get_delivery id w ≡ some r
      → IsCompleted id d (process_each env started ds processed w).1
  unfolding process_each
  process_each_own id started [] processed d r w up stored found one there = absurd (cc found)
  process_each_own id started (x ∷ ds) processed d r w up stored found one there =
      let w' = (process_one env started x (log_of env x.event_log_id w) w).1 in
      let logs = process_one-event_logs env started x w up stored.0 in
      let rest = IsStored-event_logs env ds w' w logs stored.1 in
      elim (Bool-cases (has_id id x)) [
        | inl e ↦
            let same : x ≡ d = first (rw e at found) in
            let named : x.id ≡ some id = same_id-eq x.id id e in
            let (new, at, st, n, wait, time, target) =
              process_one_own env id started x r w up stored.0 named there in
            let kept =
              process_each_other id started ds
                (processed + (process_one env started x (log_of env x.event_log_id w) w).0) w' up
                rest (omega (arith, rw e at one)) in
            subst (λ y. IsCompleted id y (process_each env started (x ∷ ds) processed w).1) same
              (new, kept ∙ at, st, n, wait, time, target)
        | inr e ↦
            let (other, named) = named_id x.id stored.0.0 in
            let differ : (other == id) ≡ false = rw named at e in
            process_each_own id started ds _ d r w' up rest (rw e at found) (rw e at one)
              (process_one_other env id other started x w up stored.0 named differ ∙ there)
      ]
    where
      first : some x ≡ some d → x ≡ d
      first k = cc k

-- What the scan made of a delivery: completed if it was due, left alone if not.
abbrev Scanned : Bool → ℕ → Delivery → World → Type 0
Scanned true id d after = IsCompleted id d after
Scanned false id d after = get_delivery id after ≡ some d

abbrev pub IsScanned : ℕ → World → Delivery → Type 0
IsScanned t after d = (id : ℕ) × (d.id ≡ some id) × Scanned (is_due t d) id d after

module _ (env : Env) (t : ℕ) (w v : World) where
  -- The loop over the sorted due deliveries, at one delivery of the table.
  process_each-IsScanned :
      (started processed : ℕ) (d : Delivery)
      → ((n : ℕ) (m : OutboundMessage) → env.publish n m ≡ none)
      → v.event_logs ≡ w.event_logs
      → v.deliveries ≡ w.deliveries
      → All (IsStored env w) w.deliveries
      → ((id : ℕ) → count_rows (has_id id) w.deliveries ≤ 1)
      → IsStored env w d
      → In d w.deliveries
      → IsScanned t
          (process_each env started (sort_by_due (filterb (is_due t) w.deliveries)) processed v).1
          d
  process_each-IsScanned started processed d up logs rows stored unique mine there =
      let (id, named) = named_id d.id mine.0 in
      let found : get_delivery id w ≡ some d =
        find_one-In (has_id id) w.deliveries d there (rw named (==_refl id)) (unique id) in
      let due = filterb (is_due t) w.deliveries in
      let one = count_rows-filterb (has_id id) (is_due t) w.deliveries in
      let total = count_rows-sort_by_due (has_id id) due in
      let all = IsStored-event_logs env (sort_by_due due) v w logs (
        All-sort_by_due (IsStored env w) due
          (All-filterb (IsStored env w) (is_due t) w.deliveries stored)) in
      let here : get_delivery id v ≡ some d = rw rows found in
      (id, named, go id (is_due t d) refl found (unique id) one total all here)
    where
      go :
          (id : ℕ) (b : Bool)
          → is_due t d ≡ b
          → get_delivery id w ≡ some d
          → count_rows (has_id id) w.deliveries ≤ 1
          → count_rows (has_id id) (filterb (is_due t) w.deliveries)
            ≤ count_rows (has_id id) w.deliveries
          → count_rows (has_id id) (sort_by_due (filterb (is_due t) w.deliveries))
            ≡ count_rows (has_id id) (filterb (is_due t) w.deliveries)
          → All (IsStored env v) (sort_by_due (filterb (is_due t) w.deliveries))
          → get_delivery id v ≡ some d
          → Scanned b id d
              (process_each env started
                (sort_by_due (filterb (is_due t) w.deliveries))
                processed
                v).1
      go id true e found unique one total all here =
          process_each_own env id started (sort_by_due (filterb (is_due t) w.deliveries)) processed
            d d v up all
            (find_one-sort_by_due (has_id id) (filterb (is_due t) w.deliveries)
                (omega (arith, one, unique))
              ∙ find_one-filterb (has_id id) (is_due t) w.deliveries d found e)
            (omega (arith, one, unique, total)) here
      go id false e found unique one total all here =
          process_each_other env id started (sort_by_due (filterb (is_due t) w.deliveries))
            processed v up all
            (total ∙ count_rows-filterb_out (has_id id) (is_due t) w.deliveries d found unique e)
          ∙ here

  pub process_each-AreScanned :
      (started processed : ℕ)
      → ((n : ℕ) (m : OutboundMessage) → env.publish n m ≡ none)
      → v.event_logs ≡ w.event_logs
      → v.deliveries ≡ w.deliveries
      → All (IsStored env w) w.deliveries
      → ((id : ℕ) → count_rows (has_id id) w.deliveries ≤ 1)
      → All
          (IsScanned t
            (process_each env started
              (sort_by_due (filterb (is_due t) w.deliveries))
              processed
              v).1)
          w.deliveries
  process_each-AreScanned started processed up logs rows stored unique =
      All-tabulate _ w.deliveries (λ d there.
        process_each-IsScanned started processed d up logs rows stored unique
          (All-In (IsStored env w) w.deliveries d stored there) there)
