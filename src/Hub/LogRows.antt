-- ===== src/Hub/LogRows.antt =====
-- What the routing of an event writes into the log.
use core_desappsii.Base.{
  ◌≡◌, refl, ◌∙◌, Option, none, some, List, [], ◌∷◌, arith, same_id, update_rows, Bool-cases, inl,
  inr,
}
use core_desappsii.Model.Events.{EventLog, Delivery}
use core_desappsii.Text.{Text}
use core_desappsii.Envelope.{EventEnvelope}
use core_desappsii.World.{Env, World}
use core_desappsii.Repositories.Registry.{Loaded, target_queue}
use core_desappsii.Hub.Outcome.{Routing, no_routing, is_delivered}
use core_desappsii.Hub.Routing.{publish_to_queue, new_delivery, route_found, route_each, route_to}

module _ (env : Env) where
  event_logs-publish_to_queue :
      (e : EventEnvelope) (d : Delivery) (q : Text) (w : World)
      → (publish_to_queue env e d q w).2.event_logs ≡ w.event_logs
  unfolding publish_to_queue
  event_logs-publish_to_queue e d q w = ground arith

  event_logs-route_found :
      (log : EventLog) (e : EventEnvelope) (s : Loaded) (o : Option Delivery) (r : Routing)
      (w : World)
      → (route_found env log e s o r w).1.event_logs ≡ w.event_logs
  unfolding route_found
  event_logs-route_found log e s none r w =
      event_logs-publish_to_queue e (new_delivery env log e s) (target_queue s) w
  event_logs-route_found log e s (some d) r w = elim (Bool-cases (is_delivered d.status)) [
    | inl done ↦ rw done
    | inr more ↦ rw more (event_logs-publish_to_queue e d (target_queue s) w)
  ]

  event_logs-route_each :
      (log : EventLog) (e : EventEnvelope) (existing : List Delivery) (ss : List Loaded)
      (r : Routing) (w : World)
      → (route_each env log e existing ss r w).1.event_logs ≡ w.event_logs
  unfolding route_each
  event_logs-route_each log e existing [] r w = refl
  event_logs-route_each log e existing (s ∷ ss) r w =
      event_logs-route_each log e existing ss _ _ ∙ event_logs-route_found log e s _ r w

  -- What `_route` writes into the log: the row of the event, with its identity and its evidence.
  pub route_to-writes :
      (log : EventLog) (e : EventEnvelope) (ss : List Loaded) (w : World)
      → ((route_to env log e ss w).1.event_logs
          ≡ update_rows
              (λ r. same_id r.id log.id)
              (λ _. (route_to env log e ss w).0.event_log)
              w.event_logs)
        × ((route_to env log e ss w).0.event_log.id ≡ log.id)
        × ((route_to env log e ss w).0.event_log.event_id ≡ log.event_id)
        × ((route_to env log e ss w).0.event_log.envelope ≡ log.envelope)
  unfolding route_to
  route_to-writes log e [] w = (refl, refl, refl, refl)
  route_to-writes log e (s ∷ ss) w =
      (rw (event_logs-route_each log e _ (s ∷ ss) no_routing w), refl, refl, refl)
