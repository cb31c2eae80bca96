-- ===== src/Hub/Added.antt =====
-- The identifier of the row that an ingest adds: routing takes none back, so it is new.
use core_desappsii.Base.{
  ℕ, ◌≤◌, ◌<◌, ◌≡◌, refl, ◌∙◌, Bool, false, Option, none, some, List, [], ◌∷◌, ◌++◌, arith, All,
  All-append, ◌==◌, ==-eq, same_id, Bool-cases, inl, inr,
}
use core_desappsii.Model.Events.{EventLog, Delivery, IngestionChannel}
use core_desappsii.Text.{Text}
use core_desappsii.Envelope.{EventEnvelope}
use core_desappsii.Validation.{Violation, violation_of}
use core_desappsii.World.{Env, World, add_log, flush}
use core_desappsii.Repositories.Registry.{
  Loaded, target_queue, get_or_create, active_for_event_type,
}
use core_desappsii.Hub.Outcome.{Routing, no_routing, is_delivered}
use core_desappsii.Hub.Routing.{publish_to_queue, new_delivery, route_found, route_each, route_to}
use core_desappsii.Hub.Intake.{reject, accept, settle, build_log, ingest_new}
use core_desappsii.Hub.Evidence.{IsFresh, get_or_create-keeps}
use core_desappsii.Hub.LogRows.{route_to-writes}

-- No two identifiers generated are the same.
abbrev pub IsInjective : (ℕ → ℕ) → Type 0
IsInjective f = (m n : ℕ) → f m ≡ f n → m ≡ n

module _ (env : Env) where
  uuids-publish_to_queue :
      (e : EventEnvelope) (d : Delivery) (q : Text) (w : World)
      → (publish_to_queue env e d q w).2.uuids ≡ w.uuids
  unfolding publish_to_queue
  uuids-publish_to_queue e d q w = ground arith

  uuids-route_found :
      (log : EventLog) (e : EventEnvelope) (s : Loaded) (o : Option Delivery) (r : Routing)
      (w : World)
      → (route_found env log e s o r w).1.uuids ≡ w.uuids
  unfolding route_found
  uuids-route_found log e s none r w =
      uuids-publish_to_queue e (new_delivery env log e s) (target_queue s) w
  uuids-route_found log e s (some d) r w = elim (Bool-cases (is_delivered d.status)) [
    | inl done ↦ rw done
    | inr more ↦ rw more (uuids-publish_to_queue e d (target_queue s) w)
  ]

  uuids-route_each :
      (log : EventLog) (e : EventEnvelope) (existing : List Delivery) (ss : List Loaded)
      (r : Routing) (w : World)
      → (route_each env log e existing ss r w).1.uuids ≡ w.uuids
  unfolding route_each
  uuids-route_each log e existing [] r w = refl
  uuids-route_each log e existing (s ∷ ss) r w =
      uuids-route_each log e existing ss _ _ ∙ uuids-route_found log e s _ r w

  -- Routing takes no identifier back, and its result is no duplicate.
  route_to-counts :
      (log : EventLog) (e : EventEnvelope) (ss : List Loaded) (w : World)
      → (w.uuids ≤ (route_to env log e ss w).1.uuids)
        × ((route_to env log e ss w).0.is_duplicate ≡ false)
  unfolding route_to flush
  route_to-counts log e [] w = (omega arith, refl)
  route_to-counts log e (s ∷ ss) w =
      (omega (arith, uuids-route_each log e _ (s ∷ ss) no_routing w), refl)

  -- The row that an ingest adds, at the identifier `k`.
  abbrev IsAdded : World → World → EventLog → Bool → Type 0
  IsAdded before after log flag =
      (k : ℕ) × (log.id ≡ some (env.uuid4 k))
      × (before.uuids ≤ k)
      × (k < after.uuids)
      × (flag ≡ false)

  settle-IsAdded :
      (e : EventEnvelope) (log : EventLog) (started : ℕ) (discovered : Bool) (o : Option Violation)
      (w : World)
      → let result = settle env e log started discovered o w in
        IsAdded w result.1 result.0.event_log result.0.is_duplicate
  unfolding settle reject accept add_log flush
  settle-IsAdded e log started discovered (some v) w =
      (w.uuids, refl, omega arith, omega arith, refl)
  settle-IsAdded e log started discovered none w =
      let log1 = (add_log env log w).0 in
      let w1 = (add_log env log w).1 in
      let ss = active_for_event_type e.event_type w1 in
      let (_, same, _, _) = route_to-writes env log1 e ss w1 in
      let (grown, fresh) = route_to-counts log1 e ss w1 in
      (w.uuids, same, omega arith, omega (arith, grown), fresh)

  pub ingest_new-IsAdded :
      (e : EventEnvelope) (channel : IngestionChannel) (started : ℕ) (w : World)
      → let result = ingest_new env e channel started w in
        IsAdded w result.1 result.0.event_log result.0.is_duplicate
  unfolding ingest_new
  ingest_new-IsAdded e channel started w =
      let made = get_or_create env e.event_type e.source_module started w in
      let (_, grown) = get_or_create-keeps env e.event_type e.source_module started w in
      let (k, same, low, high, flag) =
        settle-IsAdded e (build_log env e channel started) started made.1
          (violation_of env.iter_errors made.0.json_schema e.payload) made.2 in
      (k, same, omega (arith, low, grown), high, flag)

  weaker_fresh :
      (ls : List EventLog) (low high : ℕ)
      → low ≤ high
      → All (λ l. (n : ℕ) → low ≤ n → same_id l.id (some (env.uuid4 n)) ≡ false) ls
      → All (λ l. (n : ℕ) → high ≤ n → same_id l.id (some (env.uuid4 n)) ≡ false) ls
  weaker_fresh [] low high le h = tt
  weaker_fresh (l ∷ ls) low high le h =
      (λ n k. h.0 n (omega (arith, le, k)), weaker_fresh ls low high le h.1)

  pub IsAdded-IsFresh :
      (w after : World) (log : EventLog) (flag : Bool)
      → IsInjective env.uuid4
      → IsAdded w after log flag
      → after.event_logs ≡ w.event_logs ++ log ∷ []
      → IsFresh env w
      → IsFresh env after
  IsAdded-IsFresh w after log flag injective (k, same, low, high, _) rows fresh = rw rows (
      All-append (λ l. (n : ℕ) → after.uuids ≤ n → same_id l.id (some (env.uuid4 n)) ≡ false)
        w.event_logs (log ∷ [])
        (weaker_fresh w.event_logs w.uuids after.uuids (omega (arith, low, high)) fresh)
        (
          λ n le. rw same (elim (Bool-cases (env.uuid4 k == env.uuid4 n)) [
            | inl e ↦ absurd (omega (arith, injective k n (==-eq _ _ e), high, le))
            | inr e ↦ e
          ]),
          tt,
        ))
