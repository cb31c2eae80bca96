-- ===== src/Delivery/Operator/Kept.antt =====
-- What routing an event again leaves alone: the dead letters and the audits on record.
use core_desappsii.Base.{
  ℕ, suc, ◌+◌, ◌≡◌, refl, ap, ◌∙◌, Bool, true, not, Option, none, some, List, [], ◌∷◌, arith,
  length, is_some, same_id, find_one,
}
use core_desappsii.Text.{Text}
use core_desappsii.Model.Events.{routed, EventLog, Delivery, DeadLetter, RetryAudit}
use core_desappsii.Envelope.{EventEnvelope}
use core_desappsii.World.{Env, World, number_rows, flush, save_log}
use core_desappsii.Repositories.Events.{get_dead_letter, list_for_event}
use core_desappsii.Repositories.Registry.{Loaded, target_queue, active_for_event_type}
use core_desappsii.Validation.{Violation}
use core_desappsii.Hub.Outcome.{Routing, no_routing, get_existing}
use core_desappsii.Hub.Routing.{
  new_delivery, publish_to_queue, route_found, route_each, route_to, route,
}
use core_desappsii.Hub.Reprocess.{reprocess_envelope, reprocess_checked}

-- The same dead letters and the same audits.
abbrev pub IsSame : World → World → Type 0
IsSame before after = (after.dead_letters ≡ before.dead_letters) × (after.audits ≡ before.audits)

-- As many dead letters and audits, and every dead letter that could be found is still there.
abbrev pub IsKept : World → World → Type 0
IsKept before after =
    (length after.dead_letters ≡ length before.dead_letters)
    × (length after.audits ≡ length before.audits)
    × ((id : ℕ)
        → is_some (get_dead_letter id before) ≡ true
        → is_some (get_dead_letter id after) ≡ true)

pub IsKept-refl : (w : World) → IsKept w w
IsKept-refl w = (refl, refl, λ id h. h)

module _ (env : Env) where
  pub length-number_rows {ℓ} :
      {A : Type ℓ} (pending : A → Bool) (assign : ℕ → A → A) (xs : List A) (n : ℕ)
      → length (number_rows env pending assign n xs) ≡ length xs
  unfolding number_rows
  length-number_rows pending assign [] n = refl
  length-number_rows pending assign (x ∷ xs) n = ap suc (length-number_rows pending assign xs _)

  find_one-number_rows :
      (id n : ℕ) (ds : List DeadLetter)
      → is_some (find_one (λ d. same_id d.id (some id)) ds) ≡ true
      → is_some (
          find_one
            (λ d. same_id d.id (some id))
            (number_rows env
              (λ (d : DeadLetter). not (is_some d.id))
              (λ i d. record d { id = some i })
              n
              ds))
        ≡ true
  unfolding number_rows
  find_one-number_rows id n [] h = h
  find_one-number_rows id n (d ∷ ds) h =
      ground (arith, find_one-number_rows id n ds, find_one-number_rows id (n + 1) ds)

  flush-IsKept : (w : World) → IsKept w (flush env w)
  unfolding flush
  flush-IsKept w = (
    length-number_rows (λ (d : DeadLetter). not (is_some d.id)) (λ i d. record d { id = some i })
        w.dead_letters _,
    length-number_rows (λ (a : RetryAudit). not (is_some a.id)) (λ i a. record a { id = some i })
        w.audits _,
    λ id h. find_one-number_rows id _ w.dead_letters h,
  )

  publish_to_queue-IsSame :
      (e : EventEnvelope) (d : Delivery) (q : Text) (w : World)
      → IsSame w (publish_to_queue env e d q w).2
  unfolding publish_to_queue
  publish_to_queue-IsSame e d q w = ground arith

  route_found-IsSame :
      (log : EventLog) (e : EventEnvelope) (s : Loaded) (o : Option Delivery) (r : Routing)
      (w : World)
      → IsSame w (route_found env log e s o r w).1
  unfolding route_found
  route_found-IsSame log e s none r w =
      publish_to_queue-IsSame e (new_delivery env log e s) (target_queue s) w
  route_found-IsSame log e s (some d) r w =
      ground (arith, publish_to_queue-IsSame e d (target_queue s) w)

  route_each-IsSame :
      (log : EventLog) (e : EventEnvelope) (existing : List Delivery) (ss : List Loaded)
      (r : Routing) (w : World)
      → IsSame w (route_each env log e existing ss r w).1
  unfolding route_each
  route_each-IsSame log e existing [] r w = (refl, refl)
  route_each-IsSame log e existing (s ∷ ss) r w =
      let (letters, audits) =
        route_found-IsSame log e s (get_existing s.module_row.name existing) r w in
      let (letters', audits') = route_each-IsSame log e existing ss _ _ in
      (letters' ∙ letters, audits' ∙ audits)

  pub IsSame-IsKept : (w w' : World) → IsSame w w' → IsKept w w'
  IsSame-IsKept w w' (letters, audits) = (
    ap (λ (ds : List DeadLetter). length ds) letters,
    ap (λ (xs : List RetryAudit). length xs) audits,
    λ id h. rw letters h,
  )

  IsKept-trans : (w w' w'' : World) → IsKept w w' → IsKept w' w'' → IsKept w w''
  IsKept-trans w w' w'' (l, a, f) (l', a', f') = (l' ∙ l, a' ∙ a, λ id h. f' id (f id h))

  route_to-IsKept :
      (log : EventLog) (e : EventEnvelope) (ss : List Loaded) (w : World)
      → IsKept w (route_to env log e ss w).1
  unfolding route_to save_log
  route_to-IsKept log e [] w = (refl, refl, λ id h. h)
  route_to-IsKept log e (s ∷ ss) w =
      let w1 = (route_each env log e (list_for_event log.id w) (s ∷ ss) no_routing w).1 in
      let w2 =
        save_log (record log { status = routed; rejection_code = none; rejection_reason = none })
          w1 in
      IsKept-trans w w2 (flush env w2)
        (IsSame-IsKept w w2
          (route_each-IsSame log e (list_for_event log.id w) (s ∷ ss) no_routing w))
        (flush-IsKept w2)

  route-IsKept : (log : EventLog) (e : EventEnvelope) (w : World) → IsKept w (route env log e w).1
  route-IsKept log e w =
      unfold route in route_to-IsKept log e (active_for_event_type e.event_type w) w

  reprocess_checked-IsKept :
      (log : EventLog) (e : EventEnvelope) (o : Option Violation) (w : World)
      → IsKept w (reprocess_checked env log e o w).1
  unfolding reprocess_checked save_log
  reprocess_checked-IsKept log e none w = route-IsKept log e w
  reprocess_checked-IsKept log e (some v) w = IsKept-refl w

  pub reprocess_envelope-IsKept :
      (log : EventLog) (e : EventEnvelope) (w : World) → IsKept w (reprocess_envelope env log e w).1
  unfolding reprocess_envelope
  reprocess_envelope-IsKept log e w = reprocess_checked-IsKept log e _ w
