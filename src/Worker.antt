-- ===== src/Worker.antt =====
-- backend/app/workers/inbox_worker.py: what the worker does with one message of a queue, and its scan of
-- the due retries. Each handler is one transaction. The trace that a message carries is that of the
-- environment its handler runs in.
pub mod Intake
mod Samples
use core_desappsii.Base.{ℕ, Bool, Option, none, some, ◌==◌, update_rows}
use core_desappsii.Text.{Text}
use core_desappsii.Json.{Json}
use core_desappsii.Errors.{Result, ok, err}
use core_desappsii.Model.Events.{amqp}
use core_desappsii.Model.Registry.{ModuleAccount}
use core_desappsii.Messaging.Broker.{InboundMessage}
use core_desappsii.Envelope.{EventEnvelope}
use core_desappsii.World.{Env, World, now, tick}
use core_desappsii.Repositories.Registry.{get_module_by_name}
use core_desappsii.Hub.Outcome.{IngestResult}
use core_desappsii.Hub.Reprocess.{model_validate}
use core_desappsii.Hub.Intake.{ingest_or_raise, record_malformed}
use core_desappsii.Delivery.Rejected.{handle_dlq_message}
use core_desappsii.Delivery.Due.{process_due_retries}

-- The end of a transaction that raised: the tables are those from before, while messages that were sent,
-- readings of the clock and generated identifiers stay spent.
unfoldable pub roll_back : (before after : World) → World
roll_back before after = record before {
  sent = after.sent;
  declared = after.declared;
  publishes = after.publishes;
  declares = after.declares;
  readings = after.readings;
  uuids = after.uuids;
}

unfoldable pub commit {ℓ} : {A : Type ℓ} → World → Result A × World → World
unfolding roll_back
commit before (ok a, after) = after
commit before (err e, after) = roll_back before after

module _ (env : Env) where
  -- `EventEnvelope.model_validate(message.json())`, where either may raise.
  unfoldable pub read_envelope : Option Json → Option EventEnvelope
  unfolding model_validate
  read_envelope none = none
  read_envelope (some body) = model_validate env body

  -- `module.last_publish_at = utcnow()`, if there is such a module.
  unfoldable pub touch_module : Option ModuleAccount → World → World
  touch_module none w = w
  touch_module (some m) w = record (tick env w) {
    modules =
        update_rows (λ r. r.id == m.id) (λ _. record m { last_publish_at = some (now env w) })
          w.modules;
  }

  -- The end of `_handle_inbox`, which an error of `ingest` skips.
  unfoldable pub after_ingest :
      EventEnvelope → Result IngestResult × World → Result (Unit {0}) × World
  unfolding touch_module get_module_by_name
  after_ingest envelope (err e, w) = (err e, w)
  after_ingest envelope (ok result, w) =
      (ok tt, touch_module (get_module_by_name envelope.source_module w) w)

  -- `_handle_inbox`, at the envelope that was read.
  unfoldable pub handle_read :
      InboundMessage → Option EventEnvelope → World → Result (Unit {0}) × World
  unfolding after_ingest ingest_or_raise record_malformed
  handle_read message none w = (ok tt, (record_malformed env message.text message.queue w).1)
  handle_read message (some envelope) w =
      after_ingest envelope (ingest_or_raise env envelope amqp w)

  -- `_handle_inbox`
  unfoldable pub handle_inbox : InboundMessage → World → World
  unfolding commit handle_read read_envelope
  handle_inbox message w = commit w (handle_read message (read_envelope message.loaded) w)

  -- `_handle_dlq`
  unfoldable pub handle_dlq : InboundMessage → World → World
  unfolding commit handle_dlq_message
  handle_dlq message w = commit w (handle_dlq_message env message w)

  -- One round of `_retry_loop`, whose exceptions are logged and go no further.
  unfoldable pub retry_round : World → World
  unfolding commit process_due_retries
  retry_round w = commit w (process_due_retries env 100 w)
