-- ===== src/Hub/Rejection.antt =====
-- Which way an event goes, and what a rejection leaves.
use core_desappsii.Base.{
  ℕ, suc, ◌+◌, ◌≡◌, refl, subst, sym, ap, ◌∙◌, Bool, not, Option, none, some, List, [], ◌∷◌, arith,
  length, is_some, is_empty, true, ◌++◌, if◌then◌else◌, In, head, In-append_right,
}
use core_desappsii.Model.Events.{
  EventStatus, routed, no_subscribers, rejected, opened, EventLog, Delivery, DeadLetter,
  IngestionChannel,
}
use core_desappsii.Envelope.{EventEnvelope}
use core_desappsii.Validation.{Violation, violation_of}
use core_desappsii.World.{Env, World, number_rows, add_log}
use core_desappsii.Repositories.Registry.{Loaded, get_or_create, active_for_event_type}
use core_desappsii.Hub.Outcome.{IngestResult}
use core_desappsii.Hub.Routing.{route_to}
use core_desappsii.Hub.Evidence.{IsFresh, ingest_new-appends}
use core_desappsii.Hub.Intake.{build_log, reject, settle, ingest_new}

-- What `validate_data` says of the event where jsonschema yields its errors, by the schema of its type as the registry has it.
abbrev pub verdict : Env → EventEnvelope → ℕ → World → Option Violation
verdict env e started w =
    violation_of env.iter_errors
      (get_or_create env e.event_type e.source_module started w).0.json_schema e.payload

-- The log has one more row, the rejected event, and an open dead letter of the world holds the whole
-- event, its errors and the identifier of that row; the broker has no more messages than in `before`,
-- and the table no more deliveries.
abbrev pub IsKept : Env → EventEnvelope → Violation → World → IngestResult × World → Type 0
IsKept env e v before r =
    (d : DeadLetter) × In d r.1.dead_letters
    × (d.event_id ≡ some e.event_id)
    × (d.raw_payload ≡ some (env.to_wire e))
    × (d.details ≡ v.details)
    × (r.1.event_logs ≡ before.event_logs ++ r.0.event_log ∷ [])
    × (r.0.event_log.event_id ≡ e.event_id)
    × (r.0.event_log.status ≡ rejected)
    × (is_some r.0.event_log.id ≡ true)
    × (d.event_log_id ≡ r.0.event_log.id)
    × (d.status ≡ opened)
    × (r.1.sent ≡ before.sent)
    × (length r.1.deliveries ≡ length before.deliveries)

-- The status of the result is that of its row.
abbrev pub HasStatus : EventStatus → IngestResult → Type 0
HasStatus status r = (r.status ≡ status) × (r.event_log.status ≡ status)

module _ (env : Env) where
  length-number_rows {ℓ} :
      {A : Type ℓ} (pending : A → Bool) (assign : ℕ → A → A) (n : ℕ) (xs : List A)
      → length (number_rows env pending assign n xs) ≡ length xs
  unfolding number_rows
  length-number_rows pending assign n [] = refl
  length-number_rows pending assign n (x ∷ xs) =
      ap suc (length-number_rows pending assign (if pending x then n + 1 else n) xs)

  route_to-HasStatus :
      (log : EventLog) (e : EventEnvelope) (ss : List Loaded) (w : World)
      → HasStatus (if is_empty ss then no_subscribers else routed) (route_to env log e ss w).0
  unfolding route_to
  route_to-HasStatus log e [] w = (refl, refl)
  route_to-HasStatus log e (s ∷ ss) w = (refl, refl)

  settle-HasStatus :
      (e : EventEnvelope) (log : EventLog) (started : ℕ) (discovered : Bool) (o : Option Violation)
      (w : World)
      → HasStatus
          (if is_some o
            then rejected
            else if is_empty (active_for_event_type e.event_type w)
            then no_subscribers
            else routed)
          (settle env e log started discovered o w).0
  unfolding settle
  settle-HasStatus e log started discovered (some v) w = (refl, refl)
  settle-HasStatus e log started discovered none w =
      route_to-HasStatus (add_log env log w).0 e (active_for_event_type e.event_type w)
        (add_log env log w).1

  -- What a new event becomes depends on the registry and the schema alone, never on the broker: it is
  -- rejected when its data does not fit the schema, whose errors jsonschema yields, has no subscribers when no active subscription of
  -- an active module asks for its type, and is routed otherwise. The result says so and so does the row
  -- that is added to the log, in a world whose log has no identifier still to be generated.
  pub ingest_new-status :
      (e : EventEnvelope) (channel : IngestionChannel) (started : ℕ) (w : World)
      → IsFresh env w
      → HasStatus
          (if is_some (verdict env e started w)
            then rejected
            else if is_empty (
                active_for_event_type e.event_type
                  (get_or_create env e.event_type e.source_module started w).2)
            then no_subscribers
            else routed)
          (ingest_new env e channel started w).0
        × ((ingest_new env e channel started w).1.event_logs
            ≡ w.event_logs ++ (ingest_new env e channel started w).0.event_log ∷ [])
  unfolding ingest_new
  ingest_new-status e channel started w fresh =
      let made = get_or_create env e.event_type e.source_module started w in
      (
        settle-HasStatus e (build_log env e channel started) started made.1
            (verdict env e started w) made.2,
        (ingest_new-appends env e channel started w fresh).0,
      )

  get_or_create-sent :
      (name source : List ℕ) (seen_at : ℕ) (w : World)
      → ((get_or_create env name source seen_at w).2.sent ≡ w.sent)
        × ((get_or_create env name source seen_at w).2.deliveries ≡ w.deliveries)
        × ((get_or_create env name source seen_at w).2.event_logs ≡ w.event_logs)
  unfolding get_or_create
  get_or_create-sent name source seen_at w = ground arith

  length-numbered :
      (n : ℕ) (ds : List Delivery)
      → length (
          number_rows env
            (λ (d : Delivery). not (is_some d.id))
            (λ i d. record d { id = some i })
            n
            ds)
        ≡ length ds
  length-numbered n ds = length-number_rows _ _ n ds

  reject-IsKept :
      (e : EventEnvelope) (channel : IngestionChannel) (v : Violation) (started : ℕ)
      (discovered : Bool) (before w : World)
      → w.sent ≡ before.sent
      → w.deliveries ≡ before.deliveries
      → w.event_logs ≡ before.event_logs
      → IsKept env e v before (reject env (build_log env e channel started) v started discovered w)
  unfolding reject build_log
  reject-IsKept e channel v started discovered before w sent deliveries logs = (
    _,
    In-append_right _ _ _ head,
    refl,
    refl,
    refl,
    rw logs refl,
    refl,
    refl,
    refl,
    refl,
    refl,
    sent,
    length-numbered (w.uuids + 1) w.deliveries ∙ ap (λ (ds : List Delivery). length ds) deliveries,
  )

  -- A new event whose data does not fit its schema is not lost: no message is sent and no delivery row
  -- is made, the log gets one more row, the event as rejected, and an open dead letter holds the whole
  -- envelope and the errors, and points at that row.
  pub ingest_new-rejected :
      (e : EventEnvelope) (channel : IngestionChannel) (started : ℕ) (w : World) (v : Violation)
      → verdict env e started w ≡ some v
      → IsKept env e v w (ingest_new env e channel started w)
  unfolding ingest_new settle
  ingest_new-rejected e channel started w v refused =
      let made = get_or_create env e.event_type e.source_module started w in
      let (sent, deliveries, logs) = get_or_create-sent e.event_type e.source_module started w in
      subst
        (λ o.
          IsKept env e v w (settle env e (build_log env e channel started) started made.1 o made.2))
        (sym refused) (reject-IsKept e channel v started made.1 w made.2 sent deliveries logs)
