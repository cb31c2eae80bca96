-- ===== src/Delivery/Retries.antt =====
-- backend/app/services/delivery_service.py: `_schedule_retry` and `_exhaust`.
use core_desappsii.Base.{
  ℕ, ◌+◌, Bool, true, false, Option, none, some, [], ◌++◌, if◌then◌else◌, take, or_else,
}
use core_desappsii.Text.{Text, lit, show}
use core_desappsii.Json.{Json, is_dict}
use core_desappsii.Errors.{Result, ok, err, attribute_error}
use core_desappsii.Model.Events.{
  EventLog, Delivery, retrying, dead, DeadLetter, delivery_failed, RetryAudit, automatic, success,
  failure,
}
use core_desappsii.Messaging.Broker.{OutboundMessage, BrokerError, attempt}
use core_desappsii.Messaging.Topology.{retry_exchange_for}
use core_desappsii.World.{Env, World, now, tick, send, save_delivery, add_dead_letter, add_audit}
use core_desappsii.Hub.Outcome.{seconds}
use core_desappsii.Delivery.Letters.{log_event_id, open_dead_letter, body_event_id, non_empty}

module _ (env : Env) where
  -- The message of `_publish_retry`.
  unfoldable pub retry_message : Delivery → Json → (delay attempt : ℕ) → OutboundMessage
  unfolding body_event_id
  retry_message delivery body delay attempt = record {
    exchange = retry_exchange_for env.settings delay;
    routing_key = delivery.queue_name;
    body = body;
    headers = record {
      event_id = body_event_id body;
      target = delivery.target_module;
      trace_id = env.trace_id;
      attempt = attempt + 1;
      error = some (take 500 (or_else delivery.last_error []));
    };
    message_id = non_empty (body_event_id body);
  }

  -- The audit of `_schedule_retry`.
  unfoldable pub scheduled_audit : Delivery → Option EventLog → Bool → ℕ → Text → RetryAudit
  scheduled_audit delivery event_log published attempt last_error = record {
    id = none;
    dead_letter_id = none;
    delivery_id = delivery.id;
    event_id = log_event_id event_log;
    mode = automatic;
    actor = lit "system";
    attempt_number = attempt;
    result = if published then success else failure;
    error = if published then none else some last_error;
    target_module = some delivery.target_module;
  }

  -- The end of `_schedule_retry`, at the answer of the broker: on success the broker owns the retry.
  unfoldable pub after_publish_retry :
      Delivery → Option EventLog → ℕ → Text → Option BrokerError × World → World
  unfolding save_delivery scheduled_audit
  after_publish_retry delivery event_log attempt last_error (none, w) =
      add_audit (scheduled_audit delivery event_log true attempt last_error)
        (save_delivery (record delivery { next_retry_at = none }) w)
  after_publish_retry delivery event_log attempt last_error (some exc, w) =
      add_audit (scheduled_audit delivery event_log false attempt last_error)
        (save_delivery delivery w)

  -- `_schedule_retry`. `body.get` raises where the body is no dictionary, after the writes to the
  -- delivery and before the publish.
  unfoldable pub schedule_retry :
      Delivery → Option EventLog → Json → Text → World → Result (Unit {0}) × World
  unfolding after_publish_retry retry_message save_delivery
  schedule_retry delivery event_log body last_error w =
      let attempt = delivery.attempts in
      let delay = env.retry_policy.delay_for attempt in
      let delivery = record delivery {
        attempts = delivery.attempts + 1;
        status = retrying;
        next_retry_at = some (now env w + seconds delay);
      } in
      let w = tick env w in
      if is_dict body
      then (
        ok tt,
        after_publish_retry delivery event_log attempt last_error
            (send env (retry_message delivery body delay attempt) w),
      )
      else (err attribute_error, save_delivery delivery w)

  unfoldable pub exhausted_reason : Delivery → Text → Text
  exhausted_reason delivery last_error =
      lit "Se agotaron los "
      ++ (show delivery.max_attempts
          ++ (lit " intentos de entrega a '"
              ++ (delivery.target_module ++ (lit "'. Ultimo error: " ++ last_error))))

  -- The dead letter of `_exhaust`.
  unfoldable pub exhausted_letter : Delivery → EventLog → Json → Text → DeadLetter
  unfolding open_dead_letter exhausted_reason
  exhausted_letter delivery event_log body last_error =
      open_dead_letter (some event_log) delivery.id (some event_log.event_id)
        (some event_log.event_type) (some event_log.source_module) (some delivery.target_module)
        delivery_failed (exhausted_reason delivery last_error) (some body) delivery.attempts

  -- `_exhaust`. Its callers pass a log that is there. The audit takes the identifier that the dead
  -- letter has at that point.
  unfoldable pub exhaust : Delivery → EventLog → Json → Text → World → DeadLetter × World
  unfolding exhausted_letter save_delivery
  exhaust delivery event_log body last_error w =
      let delivery = record delivery { status = dead; next_retry_at = none } in
      let dead_letter = exhausted_letter delivery event_log body last_error in
      let audit : RetryAudit = record {
        id = none;
        dead_letter_id = dead_letter.id;
        delivery_id = delivery.id;
        event_id = some event_log.event_id;
        mode = automatic;
        actor = lit "system";
        attempt_number = delivery.attempts;
        result = failure;
        error = some (take 2000 last_error);
        target_module = some delivery.target_module;
      } in
      (dead_letter, add_audit audit (add_dead_letter dead_letter (save_delivery delivery w)))
