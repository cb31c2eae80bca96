-- ===== src/Hub/Routing.antt =====
-- backend/app/services/event_hub_service.py: `_publish_to_queue` and `_route`.
use core_desappsii.Base.{
  ◌+◌, Bool, true, false, Option, none, some, List, [], ◌∷◌, ◌++◌, if◌then◌else◌,
}
use core_desappsii.Text.{Text}
use core_desappsii.Model.Events.{
  routed, no_subscribers, pending, delivered, retrying, EventLog, Delivery,
}
use core_desappsii.Messaging.Broker.{OutboundMessage}
use core_desappsii.Envelope.{EventEnvelope}
use core_desappsii.World.{Env, World, now, tick, send, flush, save_log, save_delivery, add_delivery}
use core_desappsii.Repositories.Events.{list_for_event}
use core_desappsii.Repositories.Registry.{Loaded, target_queue, active_for_event_type}
use core_desappsii.Hub.Outcome.{
  IngestResult, ingest_result, Routing, no_routing, get_existing, is_delivered, seconds,
  describe_error,
}

module _ (env : Env) where
  -- The message of `_publish_to_queue`.
  unfoldable pub event_message : EventEnvelope → Delivery → Text → OutboundMessage
  event_message envelope delivery queue = record {
    exchange = env.settings.exchange_events;
    routing_key = queue;
    body = env.to_wire envelope;
    headers = record {
      event_id = env.uuid_text envelope.event_id;
      target = delivery.target_module;
      trace_id = env.trace_id;
      attempt = delivery.attempts;
      error = none;
    };
    message_id = some (env.uuid_text envelope.event_id);
  }

  -- `_publish_to_queue`: the delivery as it leaves it, whether it was published, and the world.
  unfoldable pub publish_to_queue :
      EventEnvelope → Delivery → Text → World → Delivery × Bool × World
  unfolding event_message describe_error
  publish_to_queue envelope delivery queue w =
      let delivery = record delivery { attempts = delivery.attempts + 1 } in
      let (answer, w) = send env (event_message envelope delivery queue) w in
      elim answer [
        | some exc ↦ (
          record delivery {
            status = retrying;
            last_error = some (describe_error exc);
            next_retry_at = some (now env w + seconds (env.retry_policy.delay_for 1));
          },
          false,
          tick env w,
        )
        | none ↦ (
          record delivery { status = delivered; delivered_at = some (now env w) },
          true,
          tick env w,
        )
      ]

  -- The row that `_route` makes for a module with no delivery yet.
  unfoldable pub new_delivery : EventLog → EventEnvelope → Loaded → Delivery
  new_delivery log envelope s = record {
    id = none;
    event_log_id = log.id;
    subscription_id = some s.subscription.id;
    target_module = s.module_row.name;
    queue_name = target_queue s;
    event_type = envelope.event_type;
    status = pending;
    attempts = 0;
    max_attempts = s.subscription.max_attempts;
    last_error = none;
    next_retry_at = none;
    delivered_at = none;
  }

  abbrev pub note_published : Bool → Text → Routing → Routing
  note_published true name r = record r { routed = r.routed ++ name ∷ [] }
  note_published false name r = record r { deferred = r.deferred ++ name ∷ [] }

  -- One round of the loop of `_route`, at a subscription whose module has the delivery `found`. The row
  -- is put into the table after it is published, with the values that the publish gave it.
  unfoldable pub route_found :
      EventLog → EventEnvelope → Loaded → Option Delivery → Routing → World → Routing × World
  unfolding publish_to_queue new_delivery save_delivery
  route_found log envelope s none r w =
      let (delivery, published, w) =
        publish_to_queue envelope (new_delivery log envelope s) (target_queue s) w in
      (note_published published s.module_row.name r, add_delivery delivery w)
  route_found log envelope s (some found) r w =
      if is_delivered found.status
      then (record r { skipped = r.skipped ++ s.module_row.name ∷ [] }, w)
      else let (delivery, published, w) = publish_to_queue envelope found (target_queue s) w in
        (note_published published s.module_row.name r, save_delivery delivery w)

  unfoldable pub route_each :
      EventLog → EventEnvelope → List Delivery → List Loaded → Routing → World → Routing × World
  unfolding route_found get_existing
  route_each log envelope existing [] r w = (r, w)
  route_each log envelope existing (s ∷ ss) r w =
      let (r', w') = route_found log envelope s (get_existing s.module_row.name existing) r w in
      route_each log envelope existing ss r' w'

  -- `_route`, at the subscriptions that its query found.
  unfoldable pub route_to : EventLog → EventEnvelope → List Loaded → World → IngestResult × World
  unfolding route_each flush save_log
  route_to log envelope [] w =
      let log = record log { status = no_subscribers } in
      (ingest_result log no_subscribers, save_log log w)
  route_to log envelope (s ∷ ss) w =
      let (r, w) = route_each log envelope (list_for_event log.id w) (s ∷ ss) no_routing w in
      let log = record log { status = routed; rejection_code = none; rejection_reason = none } in
      (
        record (ingest_result log routed) {
          routed_to = r.routed;
          deferred_to = r.deferred;
          already_delivered = r.skipped;
        },
        flush env (save_log log w),
      )

  -- `_route`
  unfoldable pub route : EventLog → EventEnvelope → World → IngestResult × World
  unfolding route_to active_for_event_type
  route log envelope w = route_to log envelope (active_for_event_type envelope.event_type w) w
