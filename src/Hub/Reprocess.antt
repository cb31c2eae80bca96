-- ===== src/Hub/Reprocess.antt =====
-- backend/app/services/event_hub_service.py: `reprocess`, which reads a stored envelope back.
use core_desappsii.Base.{Option, none, some}
use core_desappsii.Json.{Json}
use core_desappsii.Model.Events.{rejected, schema_violation, EventLog}
use core_desappsii.Model.Registry.{EventType}
use core_desappsii.Envelope.{EventEnvelope, validate_envelope}
use core_desappsii.Errors.{Result, ok, err, pydantic_error}
use core_desappsii.Validation.{Violation, violation_of, validate_data}
use core_desappsii.World.{Env, World, save_log}
use core_desappsii.Repositories.Registry.{get_type_by_name}
use core_desappsii.Hub.Outcome.{IngestResult, ingest_result}
use core_desappsii.Hub.Routing.{route}

module _ (env : Env) where
  -- `EventEnvelope.model_validate(document)`: nothing where pydantic or a validator raises.
  unfoldable pub model_validate : Json → Option EventEnvelope
  unfolding validate_envelope
  model_validate document = elim (env.read_fields document) [
    | none ↦ none
    | some fields ↦ validate_envelope fields
  ]

  abbrev pub schema_of : Option EventType → Option Json
  schema_of none = none
  schema_of (some t) = t.json_schema

  -- The two ways on from the check of the data in `reprocess`.
  unfoldable pub reprocess_checked :
      EventLog → EventEnvelope → Option Violation → World → IngestResult × World
  unfolding route save_log
  reprocess_checked log envelope none w = route env log envelope w
  reprocess_checked log envelope (some v) w =
      let log = record log {
        status = rejected;
        rejection_code = some schema_violation;
        rejection_reason = some v.message;
      } in
      (
        record (ingest_result log rejected) {
          rejection_code = some schema_violation;
          rejection_reason = some v.message;
          details = v.details;
        },
        save_log log w,
      )

  -- `reprocess`, with the envelope that was read back.
  unfoldable pub reprocess_envelope : EventLog → EventEnvelope → World → IngestResult × World
  unfolding reprocess_checked get_type_by_name
  reprocess_envelope log envelope w =
      reprocess_checked log envelope
        (violation_of env.iter_errors (schema_of (get_type_by_name envelope.event_type w))
          envelope.payload)
        w

  -- `validate_data` in `reprocess`, with what it may let through.
  unfoldable pub reprocess_verdict : EventEnvelope → World → Result (Option Violation)
  unfolding validate_data get_type_by_name
  reprocess_verdict envelope w =
      validate_data env.evaluates env.iter_errors
        (schema_of (get_type_by_name envelope.event_type w)) envelope.payload

  abbrev pub reprocess_judged :
      EventLog → EventEnvelope → Result (Option Violation) → World → Result (IngestResult × World)
  reprocess_judged log envelope (err e) w = err e
  reprocess_judged log envelope (ok v) w = ok (reprocess_envelope log envelope w)

  abbrev pub reprocess_read :
      EventLog → Option EventEnvelope → World → Result (IngestResult × World)
  reprocess_read log none w = err pydantic_error
  reprocess_read log (some envelope) w =
      reprocess_judged log envelope (reprocess_verdict envelope w) w

  -- `reprocess`: an error where `model_validate` or jsonschema raises, before anything is written.
  unfoldable pub reprocess : EventLog → World → Result (IngestResult × World)
  unfolding model_validate reprocess_envelope reprocess_verdict
  reprocess log w = reprocess_read log (model_validate log.envelope) w
