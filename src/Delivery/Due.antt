-- ===== src/Delivery/Due.antt =====
-- `process_due_retries` of delivery_service.py: deliveries whose wait is over are published again.
pub mod Progress
pub mod Sorted
pub mod Sent
pub mod Rows
pub mod Completed
pub mod Drained
use core_desappsii.Base.{
  ℕ, ◌+◌, Bool, true, false, Option, none, some, List, [], ◌∷◌, ◌++◌, if◌then◌else◌,
}
use core_desappsii.Text.{Text, lit}
use core_desappsii.Errors.{Result, ok, err, external_unavailable}
use core_desappsii.Model.Events.{
  EventLog, Delivery, delivered, RetryAudit, automatic, success, attempts_exhausted,
}
use core_desappsii.Messaging.Broker.{OutboundMessage, BrokerError}
use core_desappsii.World.{Env, World, now, tick, send, save_delivery, add_audit}
use core_desappsii.Repositories.Events.{get_log, due_for_retry}
use core_desappsii.Hub.Outcome.{seconds, describe_error}
use core_desappsii.Delivery.Retries.{exhaust}

module _ (env : Env) where
  -- `event_log.trace_id or get_trace_id()`, where no log of the Core has an empty trace.
  abbrev pub trace_of : EventLog → Text
  trace_of log = elim log.trace_id [ none ↦ env.trace_id | some t ↦ t ]

  unfoldable pub due_message : Delivery → EventLog → OutboundMessage
  due_message delivery log = record {
    exchange = env.settings.exchange_events;
    routing_key = delivery.queue_name;
    body = log.envelope;
    headers = record {
      event_id = env.uuid_text log.event_id;
      target = delivery.target_module;
      trace_id = trace_of log;
      attempt = delivery.attempts;
      error = none;
    };
    message_id = some (env.uuid_text log.event_id);
  }

  unfoldable pub due_audit : Delivery → EventLog → RetryAudit
  due_audit delivery log = record {
    id = none;
    dead_letter_id = none;
    delivery_id = delivery.id;
    event_id = some log.event_id;
    mode = automatic;
    actor = lit "system";
    attempt_number = delivery.attempts;
    result = success;
    error = none;
    target_module = some delivery.target_module;
  }

  -- A publish that failed: the delivery dies, or waits again from the start of the scan.
  unfoldable pub due_failed : ℕ → Delivery → EventLog → BrokerError → World → World
  unfolding exhaust save_delivery describe_error
  due_failed started delivery log exc w =
      let delivery = record delivery { last_error = some (describe_error exc) } in
      if attempts_exhausted delivery
      then (exhaust env delivery log log.envelope exc.text w).1
      else save_delivery
          (record delivery {
            next_retry_at = some (started + seconds (env.retry_policy.delay_for delivery.attempts));
          })
          w

  unfoldable pub due_sent : Delivery → EventLog → World → World
  unfolding due_audit save_delivery
  due_sent delivery log w = add_audit (due_audit delivery log) (
      save_delivery
        (record delivery {
          status = delivered;
          delivered_at = some (now env w);
          next_retry_at = none;
        })
        (tick env w))

  abbrev pub due_answer : ℕ → Delivery → EventLog → Option BrokerError × World → ℕ × World
  due_answer started delivery log (none, w) = (1, due_sent delivery log w)
  due_answer started delivery log (some exc, w) = (0, due_failed started delivery log exc w)

  -- One round of the loop: how many deliveries it completed, and the world.
  unfoldable pub process_one : ℕ → Delivery → Option EventLog → World → ℕ × World
  unfolding due_message due_failed due_sent
  process_one started delivery none w = (0, w)
  process_one started delivery (some log) w =
      let delivery = record delivery { attempts = delivery.attempts + 1 } in
      due_answer started delivery log (send env (due_message delivery log) w)

  abbrev pub log_of : Option ℕ → World → Option EventLog
  log_of none w = none
  log_of (some id) w = get_log id w

  unfoldable pub process_each : ℕ → List Delivery → ℕ → World → ℕ × World
  unfolding process_one
  process_each started [] processed w = (processed, w)
  process_each started (d ∷ ds) processed w =
      let (n, w') = process_one started d (log_of d.event_log_id w) w in
      process_each started ds (processed + n) w'

  -- `process_due_retries`
  unfoldable pub process_due_retries : (limit : ℕ) → World → Result ℕ × World
  unfolding process_each due_for_retry
  process_due_retries limit w =
      if env.healthy
      then (let started = now env w in
          let w = tick env w in
          let (processed, w) = process_each started (due_for_retry started limit w) 0 w in
          (ok processed, w))
      else (err external_unavailable, w)
