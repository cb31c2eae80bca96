-- ===== src/Hub/Intake.antt =====
-- backend/app/services/event_hub_service.py: `ingest` with its helpers, and `record_malformed`.
use core_desappsii.Base.{ℕ, Bool, true, Option, none, some, [], ◌++◌, take, map}
use core_desappsii.Text.{Text, lit}
use core_desappsii.Model.Events.{
  routed, rejected, duplicate, IngestionChannel, opened, schema_violation, malformed_message,
  EventLog, DeadLetter,
}
use core_desappsii.Envelope.{EventEnvelope}
use core_desappsii.Errors.{Result, ok, err}
use core_desappsii.Validation.{validate_data, Violation, violation_of}
use core_desappsii.World.{Env, World, now, tick, add_log, save_log, add_dead_letter, elapsed_ms}
use core_desappsii.Repositories.Events.{get_by_event_id, list_for_event}
use core_desappsii.Repositories.Registry.{get_or_create}
use core_desappsii.Hub.Outcome.{IngestResult, ingest_result}
use core_desappsii.Hub.Routing.{route}

module _ (env : Env) where
  -- `_build_log`
  unfoldable pub build_log : EventEnvelope → IngestionChannel → ℕ → EventLog
  build_log envelope channel received_at = record {
    id = none;
    event_id = envelope.event_id;
    event_type = envelope.event_type;
    event_version = envelope.event_version;
    source_module = envelope.source_module;
    occurred_at = envelope.occurred_at;
    received_at = received_at;
    correlation_id = envelope.correlation_id;
    causation_id = envelope.causation_id;
    trace_id = some env.trace_id;
    envelope = env.to_wire envelope;
    status = routed;
    rejection_code = none;
    rejection_reason = none;
    ingestion_channel = channel;
    processing_ms = none;
  }

  -- The dead letter of `_reject`.
  unfoldable pub rejection_letter : EventLog → Violation → DeadLetter
  rejection_letter log v = record {
    id = none;
    event_log_id = log.id;
    delivery_id = none;
    event_id = some log.event_id;
    event_type = some log.event_type;
    source_module = some log.source_module;
    target_module = none;
    reason_code = schema_violation;
    reason = take 4000 v.message;
    details = v.details;
    raw_payload = some log.envelope;
    raw_body = none;
    attempts = 1;
    status = opened;
    resolved_at = none;
    resolved_by = none;
    resolution_notes = none;
  }

  -- `_reject`, whose only caller passes SCHEMA_VIOLATION.
  unfoldable pub reject : EventLog → Violation → ℕ → Bool → World → IngestResult × World
  unfolding add_log rejection_letter
  reject log v started discovered w =
      let log = record log {
        status = rejected;
        rejection_code = some schema_violation;
        rejection_reason = some v.message;
        processing_ms = some (elapsed_ms started (now env w));
      } in
      let (log, w) = add_log env log (tick env w) in
      (
        record (ingest_result log rejected) {
          rejection_code = some schema_violation;
          rejection_reason = some v.message;
          details = v.details;
          event_type_discovered = discovered;
        },
        add_dead_letter (rejection_letter log v) w,
      )

  -- The end of `ingest`: evidence, routing, and the time that it took.
  unfoldable pub accept : EventEnvelope → EventLog → ℕ → Bool → World → IngestResult × World
  unfolding add_log route save_log
  accept envelope log started discovered w =
      let (log, w) = add_log env log w in
      let (result, w) = route env log envelope w in
      let log = record result.event_log { processing_ms = some (elapsed_ms started (now env w)) } in
      (
        record result { event_log = log; event_type_discovered = discovered },
        save_log log (tick env w),
      )

  -- The two ways on from `validate_data`, where jsonschema yields its errors.
  unfoldable pub settle :
      EventEnvelope → EventLog → ℕ → Bool → Option Violation → World → IngestResult × World
  unfolding reject accept
  settle envelope log started discovered (some v) w = reject log v started discovered w
  settle envelope log started discovered none w = accept envelope log started discovered w

  -- `ingest` of an event that was not seen before, where jsonschema yields its errors.
  unfoldable pub ingest_new : EventEnvelope → IngestionChannel → ℕ → World → IngestResult × World
  unfolding get_or_create build_log settle
  ingest_new envelope channel started w =
      let (event_type, discovered, w') =
        get_or_create env envelope.event_type envelope.source_module started w in
      settle envelope (build_log envelope channel started) started discovered
        (violation_of env.iter_errors event_type.json_schema envelope.payload) w'

  -- `ingest`, at what the query by `eventId` found.
  unfoldable pub ingest_at :
      EventEnvelope → IngestionChannel → Option EventLog → World → IngestResult × World
  unfolding ingest_new
  ingest_at envelope channel (some existing) w = (
    record (ingest_result existing duplicate) {
      is_duplicate = true;
      routed_to = map (λ d. d.target_module) (list_for_event existing.id w);
    },
    tick env w,
  )
  ingest_at envelope channel none w = ingest_new envelope channel (now env w) (tick env w)

  -- `ingest`, where jsonschema yields all its errors.
  unfoldable pub ingest : EventEnvelope → IngestionChannel → World → IngestResult × World
  unfolding ingest_at
  ingest envelope channel w = ingest_at envelope channel (get_by_event_id envelope.event_id w) w

  -- `validate_data` in `ingest`, by the schema of the type that `get_or_create` gives, with what it may
  -- let through. A duplicate is not looked at.
  unfoldable pub ingest_verdict :
      EventEnvelope → Option EventLog → World → Result (Option Violation)
  unfolding validate_data get_or_create
  ingest_verdict envelope (some existing) w = ok none
  ingest_verdict envelope none w =
      validate_data env.evaluates env.iter_errors
        (get_or_create env envelope.event_type envelope.source_module (now env w)
          (tick env w)).0.json_schema
        envelope.payload

  abbrev pub ingest_judged :
      EventEnvelope
      → IngestionChannel
      → Result (Option Violation)
      → World
      → Result IngestResult × World
  ingest_judged envelope channel (err e) w = (
    err e,
    (get_or_create env envelope.event_type envelope.source_module (now env w) (tick env w)).2,
  )
  ingest_judged envelope channel (ok v) w =
      let (result, w) = ingest envelope channel w in (ok result, w)

  -- `ingest` with the errors that it lets through: jsonschema may raise one of its own, after the type
  -- of the event was recorded and before anything else.
  unfoldable pub ingest_or_raise :
      EventEnvelope → IngestionChannel → World → Result IngestResult × World
  unfolding ingest ingest_verdict get_or_create
  ingest_or_raise envelope channel w =
      ingest_judged envelope channel
        (ingest_verdict envelope (get_by_event_id envelope.event_id w) w) w

  -- `record_malformed`
  unfoldable pub record_malformed : (raw_body queue : Text) → World → DeadLetter × World
  record_malformed raw_body queue w =
      let dead_letter : DeadLetter = record {
        id = none;
        event_log_id = none;
        delivery_id = none;
        event_id = none;
        event_type = none;
        source_module = none;
        target_module = none;
        reason_code = malformed_message;
        reason = lit "Mensaje ilegible en la cola '" ++ (queue ++ lit "'.");
        details = [];
        raw_payload = none;
        raw_body = some (take 20000 raw_body);
        attempts = 1;
        status = opened;
        resolved_at = none;
        resolved_by = none;
        resolution_notes = none;
      } in
      (dead_letter, add_dead_letter dead_letter w)
