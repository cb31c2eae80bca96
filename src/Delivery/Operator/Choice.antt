-- ===== src/Delivery/Operator/Choice.antt =====
-- backend/app/services/delivery_service.py: `_retry_by_reprocessing` and `_retry_by_republishing`.
use core_desappsii.Base.{
  ℕ, true, false, Option, none, some, [], ◌++◌, if◌then◌else◌, is_empty, or_else,
}
use core_desappsii.Text.{Text, lit}
use core_desappsii.Json.{Json, truthy}
use core_desappsii.Errors.{Result, ok, err, conflict}
use core_desappsii.Model.Events.{
  EventLog, Delivery, delivered, DeadLetter, Reason, schema_violation, malformed_message,
  delivery_failed,
}
use core_desappsii.Messaging.Broker.{OutboundMessage, BrokerError}
use core_desappsii.World.{Env, World, now, tick, send, save_delivery}
use core_desappsii.Repositories.Events.{get_log, get_delivery}
use core_desappsii.Hub.Outcome.{IngestResult, accepted}
use core_desappsii.Hub.Reprocess.{reprocess}
use core_desappsii.Delivery.Letters.{RetryOutcome}
use core_desappsii.Delivery.Operator.Outcomes.{outcome, join_names, or_none}

module _ (env : Env) where
  -- `get_actor() or "desconocido"`
  abbrev pub current_actor : Text
  current_actor = let a = or_else env.actor [] in if is_empty a then lit "desconocido" else a

  -- The outcome of `_retry_by_reprocessing`, at the result of the hub.
  unfoldable pub reprocessed : DeadLetter → ℕ → IngestResult → RetryOutcome
  unfolding join_names
  reprocessed d attempt_number result =
      if accepted result
      then (let names = join_names result.routed_to in
          let targets = if is_empty names then lit "sin suscriptores" else names in
          outcome d true (lit "Evento reprocesado y ruteado a: " ++ (targets ++ lit "."))
            attempt_number)
      else outcome d false
          (or_else result.rejection_reason (lit "El evento sigue siendo invalido.")) attempt_number

  abbrev pub of_reprocess :
      DeadLetter → ℕ → Result (IngestResult × World) → World → Result RetryOutcome × World
  of_reprocess d attempt_number (err e) w = (err e, w)
  of_reprocess d attempt_number (ok (result, after)) w =
      (ok (reprocessed d attempt_number result), after)

  abbrev pub reprocess_log : DeadLetter → ℕ → Option EventLog → World → Result RetryOutcome × World
  reprocess_log d attempt_number none w =
      (ok (outcome d false (lit "El evento referenciado ya no existe.") attempt_number), w)
  reprocess_log d attempt_number (some log) w =
      of_reprocess d attempt_number (reprocess env log w) w

  -- `_retry_by_reprocessing`
  unfoldable pub retry_by_reprocessing :
      DeadLetter → ℕ → Option ℕ → World → Result RetryOutcome × World
  unfolding reprocessed
  retry_by_reprocessing d attempt_number none w =
      (ok (outcome d false (lit "La dead letter no referencia un evento.") attempt_number), w)
  retry_by_reprocessing d attempt_number (some log_id) w =
      reprocess_log d attempt_number (get_log log_id w) w

  abbrev pub delivery_of : Option ℕ → World → Option Delivery
  delivery_of none w = none
  delivery_of (some id) w = get_delivery id w

  -- `delivery.queue_name if delivery else f"q.{dead_letter.target_module}"`
  unfoldable pub queue_of : DeadLetter → Option Delivery → Text
  queue_of d (some delivery) = delivery.queue_name
  queue_of d none = lit "q." ++ or_none d.target_module

  unfoldable pub republish_message : DeadLetter → Json → Text → OutboundMessage
  republish_message d payload queue = record {
    exchange = env.settings.exchange_events;
    routing_key = queue;
    body = payload;
    headers = record {
      event_id = elim d.event_id [ none ↦ [] | some id ↦ env.uuid_text id ];
      target = or_else d.target_module [];
      trace_id = env.trace_id;
      attempt = 1;
      error = none;
    };
    message_id = elim d.event_id [ none ↦ none | some id ↦ some (env.uuid_text id) ];
  }

  -- The counter starts again: the operator gave the delivery a new chance.
  unfoldable pub restart_delivery : Option Delivery → World → World
  unfolding save_delivery
  restart_delivery none w = w
  restart_delivery (some delivery) w =
      save_delivery
        (record delivery {
          status = delivered;
          attempts = 1;
          delivered_at = some (now env w);
          next_retry_at = none;
        })
        (tick env w)

  abbrev pub republished :
      DeadLetter → ℕ → Option Delivery → Option BrokerError × World → RetryOutcome × World
  republished d attempt_number delivery (some exc, w) = (
    outcome d false
        (lit "No se pudo publicar en '" ++ (queue_of d delivery ++ (lit "': " ++ exc.text)))
        attempt_number,
    w,
  )
  republished d attempt_number delivery (none, w) = (
    outcome d true (lit "Mensaje republicado en '" ++ (queue_of d delivery ++ lit "'."))
        attempt_number,
    restart_delivery delivery w,
  )

  abbrev pub republish : DeadLetter → ℕ → Option Delivery → Json → World → RetryOutcome × World
  republish d attempt_number delivery payload w =
      republished d attempt_number delivery
        (send env (republish_message d payload (queue_of d delivery)) w)

  -- `_retry_by_republishing`
  unfoldable pub retry_by_republishing : DeadLetter → ℕ → Option Json → World → RetryOutcome × World
  unfolding queue_of republish_message restart_delivery
  retry_by_republishing d attempt_number none w =
      (outcome d false (lit "No conserva un payload republicable.") attempt_number, w)
  retry_by_republishing d attempt_number (some payload) w =
      if truthy payload
      then republish d attempt_number (delivery_of d.delivery_id w) payload w
      else (outcome d false (lit "No conserva un payload republicable.") attempt_number, w)

  -- The choice of the way by the reason. A malformed message is refused before anything is done.
  unfoldable pub retry_by_reason : DeadLetter → ℕ → Reason → World → Result RetryOutcome × World
  unfolding retry_by_reprocessing retry_by_republishing
  retry_by_reason d attempt_number malformed_message w = (err conflict, w)
  retry_by_reason d attempt_number schema_violation w =
      retry_by_reprocessing d attempt_number d.event_log_id w
  retry_by_reason d attempt_number delivery_failed w =
      let (o, w) = retry_by_republishing d attempt_number d.raw_payload w in (ok o, w)
