-- ===== src/Delivery/Due/Drained.antt =====
-- With the broker back, one scan delivers all that was waiting.
use core_desappsii.Base.{
  ℕ, ◌+◌, ◌≤◌, ◌≡◌, refl, ap, ◌∙◌, Bool, true, false, Option, none, some, List, [], ◌∷◌, arith, All,
  any, length, filterb, count_rows, same_id, is_some, Bool-cases, Option-cases, inl, inr,
  if◌then◌else◌, update_rows, ==_refl,
}
use core_desappsii.Base.Keys.{All-each}
use core_desappsii.Base.Selections.{All-filterb, take_all}
use core_desappsii.Errors.{Result, ok}
use core_desappsii.Model.Events.{Delivery}
use core_desappsii.Messaging.Broker.{OutboundMessage}
use core_desappsii.World.{Env, World, now, tick, save_delivery}
use core_desappsii.Repositories.Events.{due_for_retry, sort_by_due, is_due}
use core_desappsii.Delivery.Due.{
  due_message, due_sent, process_one, log_of, process_each, process_due_retries,
}
use core_desappsii.Delivery.Due.Completed.{IsScanned, process_each-AreScanned}
use core_desappsii.Delivery.Due.Rows.{has_id}
use core_desappsii.Delivery.Due.Sent.{IsStored, IsStored-event_logs, send_up}
use core_desappsii.Delivery.Due.Sorted.{All-sort_by_due, length-sort_by_due, any-sort_by_due}

-- With room for all of them, the scan reads every delivery that is due.
due_for_retry_all :
    (t limit : ℕ) (w : World)
    → count_rows (is_due t) w.deliveries ≤ limit
    → due_for_retry t limit w ≡ sort_by_due (filterb (is_due t) w.deliveries)
unfolding due_for_retry
due_for_retry_all t limit w h =
    take_all limit (sort_by_due (filterb (is_due t) w.deliveries))
      (omega (arith, length-sort_by_due (filterb (is_due t) w.deliveries), h))

-- What is due is still to be read.
abbrev AreAwaited : ℕ → List Delivery → List Delivery → Type 0
AreAwaited t ds rows = All (λ r. is_due t r ≡ true → any (λ d. same_id r.id d.id) ds ≡ true) rows

same_id_refl : (o : Option ℕ) → is_some o ≡ true → same_id o o ≡ true
same_id_refl none h = cc
same_id_refl (some n) h = ==_refl n

AreAwaited-more :
    (t : ℕ) (d : Delivery) (ds rows : List Delivery)
    → AreAwaited t ds rows
    → AreAwaited t (d ∷ ds) rows
AreAwaited-more t d ds rows h = All-each rows (λ r f k. rw (f k) (ground arith)) h

filterb-AreAwaited :
    (t : ℕ) (rows : List Delivery)
    → All (λ d. is_some d.id ≡ true) rows
    → AreAwaited t (filterb (is_due t) rows) rows
filterb-AreAwaited t [] h = tt
filterb-AreAwaited t (x ∷ xs) h = go (is_due t x) refl (filterb-AreAwaited t xs h.1)
  where
    go :
        (b : Bool)
        → is_due t x ≡ b
        → AreAwaited t (filterb (is_due t) xs) xs
        → AreAwaited t (if b then x ∷ filterb (is_due t) xs else filterb (is_due t) xs) (x ∷ xs)
    go true e rest =
        (λ k. rw (same_id_refl x.id h.0) refl, AreAwaited-more t x (filterb (is_due t) xs) xs rest)
    go false e rest = (λ k. absurd (cc (e, k)), rest)

module _ (env : Env) (t : ℕ) where
  -- A delivery that is sent is due no longer, and the others wait as before.
  update_rows-AreAwaited :
      (d new : Delivery) (ds rows : List Delivery)
      → is_due t new ≡ false
      → AreAwaited t (d ∷ ds) rows
      → AreAwaited t ds (update_rows (λ r. same_id r.id d.id) (λ _. new) rows)
  update_rows-AreAwaited d new ds [] e h = tt
  update_rows-AreAwaited d new ds (r ∷ rows) e h = elim (Bool-cases (same_id r.id d.id)) [
    | inl same ↦ rw same (λ k. absurd (cc (e, k)), update_rows-AreAwaited d new ds rows e h.1)
    | inr other ↦ rw other (λ k. ground (arith, h.0 k), update_rows-AreAwaited d new ds rows e h.1)
  ]

  -- One round, with a broker that takes the message.
  process_one_sent :
      (started : ℕ) (d : Delivery) (ds : List Delivery) (w : World)
      → ((n : ℕ) (m : OutboundMessage) → env.publish n m ≡ none)
      → IsStored env w d
      → AreAwaited t (d ∷ ds) w.deliveries
      → let result = process_one env started d (log_of env d.event_log_id w) w in
        (result.0 ≡ 1) × AreAwaited t ds result.1.deliveries × (result.1.event_logs ≡ w.event_logs)
  unfolding process_one due_sent save_delivery
  process_one_sent started d ds w up stored h = elim (Option-cases (log_of env d.event_log_id w)) [
    | inr e ↦ absurd (cc (stored.1, e))
    | inl (log, e) ↦
        let d' = record d { attempts = d.attempts + 1 } in
        rw (e, send_up env (due_message env d' log) w (up w.publishes (due_message env d' log)))
          (refl, update_rows-AreAwaited d _ ds w.deliveries refl h, refl)
  ]

  process_each_sent :
      (started : ℕ) (ds : List Delivery) (processed : ℕ) (w : World)
      → ((n : ℕ) (m : OutboundMessage) → env.publish n m ≡ none)
      → All (IsStored env w) ds
      → AreAwaited t ds w.deliveries
      → let result = process_each env started ds processed w in
        (result.0 ≡ processed + length ds) × AreAwaited t [] result.1.deliveries
  unfolding process_each
  process_each_sent started [] processed w up stored h = (omega arith, h)
  process_each_sent started (d ∷ ds) processed w up stored h =
      let (one, h', logs) = process_one_sent started d ds w up stored.0 h in
      let w' = (process_one env started d (log_of env d.event_log_id w) w).1 in
      let (total, done) =
        process_each_sent started ds
          (processed + (process_one env started d (log_of env d.event_log_id w) w).0) w' up
          (IsStored-event_logs env ds w' w logs stored.1) h' in
      (omega (arith, total, one), done)

-- With a healthy broker that takes every message, one scan with room for all deliveries that are due
-- completes exactly those: it returns their number, each of them is delivered then, with one more
-- attempt, the time of delivery and no wait, every other delivery is as it was, and none is due any
-- more at the time of the scan. Each delivery has an identifier of its own and its event in the log.
pub process_due_retries-drained :
    (env : Env) (limit : ℕ) (w : World)
    → env.healthy ≡ true
    → ((n : ℕ) (m : OutboundMessage) → env.publish n m ≡ none)
    → All (IsStored env w) w.deliveries
    → ((id : ℕ) → count_rows (has_id id) w.deliveries ≤ 1)
    → count_rows (is_due (now env w)) w.deliveries ≤ limit
    → let result = process_due_retries env limit w in
      (◌≡◌ {A = Result ℕ} result.0 (ok (count_rows (is_due (now env w)) w.deliveries)))
      × (count_rows (is_due (now env w)) result.1.deliveries ≡ 0)
      × All (IsScanned (now env w) result.1) w.deliveries
unfolding process_due_retries
process_due_retries-drained env limit w healthy up stored unique room =
    let t = now env w in
    let due = filterb (is_due t) w.deliveries in
    let ds = sort_by_due due in
    let whole : 0 + length ds ≡ count_rows (is_due t) w.deliveries =
      omega (arith, length-sort_by_due due) in
    let awaited =
      All-each w.deliveries (λ r f k. any-sort_by_due (λ d. same_id r.id d.id) due ∙ f k)
        (filterb-AreAwaited t w.deliveries (All-each w.deliveries (λ d s. s.0) stored)) in
    let (total, done) =
      process_each_sent env t t ds 0 (tick env w) up
        (IsStored-event_logs env ds (tick env w) w refl (
          All-sort_by_due (IsStored env w) due
            (All-filterb (IsStored env w) (is_due t) w.deliveries stored)))
        awaited in
    simp (healthy, due_for_retry_all t limit (tick env w) room)
      (
        ap {B = Result ℕ} ok (total ∙ whole),
        none_due (process_each env t ds 0 (tick env w)).1.deliveries done,
        process_each-AreScanned env t w (tick env w) t 0 up refl refl stored unique,
      )
  where
    none_due :
        (rows : List Delivery)
        → AreAwaited (now env w) [] rows
        → count_rows (is_due (now env w)) rows ≡ 0
    none_due [] h = refl
    none_due (r ∷ rows) h = elim (Bool-cases (is_due (now env w) r)) [
      | inl e ↦ absurd (cc (h.0 e))
      | inr e ↦ rw e (none_due rows h.1)
    ]
