-- ===== src/Hub/Routes.antt =====
-- What `_route` makes of the subscriptions: the lists of the result, the messages, the deliveries.
use core_desappsii.Base.{
  ℕ, ◌+◌, ◌≡◌, refl, Option, none, some, List, [], ◌∷◌, ◌++◌, arith, map, length, length-append,
  if◌then◌else◌,
}
use core_desappsii.Text.{Text, text_eq}
use core_desappsii.Model.Events.{EventLog, Delivery}
use core_desappsii.Envelope.{EventEnvelope}
use core_desappsii.World.{Env, World}
use core_desappsii.Repositories.Events.{list_for_event}
use core_desappsii.Repositories.Registry.{Loaded, active_for_event_type}
use core_desappsii.Hub.Outcome.{Routing, no_routing, is_delivered, get_existing}
use core_desappsii.Hub.Routing.{
  publish_to_queue, route_found, route_each, route_to, route, event_message,
}

abbrev names : List Loaded → List Text
names ss = map (λ s. s.module_row.name) ss

-- How often a name stands in a list.
abbrev pub count : Text → List Text → ℕ
count a [] = 0
count a (x ∷ xs) = (if text_eq a x then 1 else 0) + count a xs

count-append : (a : Text) (xs ys : List Text) → count a (xs ++ ys) ≡ count a xs + count a ys
count-append a [] ys = omega arith
count-append a (x ∷ xs) ys = ground (arith, count-append a xs ys)

abbrev pub mentions : Text → Routing → ℕ
mentions a r = count a r.routed + count a r.deferred + count a r.skipped

module _ (env : Env) where
  -- What one publish does: a message and `delivered`, or neither.
  publish_to_queue-sent :
      (e : EventEnvelope) (d : Delivery) (q : Text) (w : World)
      → (length (publish_to_queue env e d q w).2.sent
          ≡ length w.sent + (if (publish_to_queue env e d q w).1 then 1 else 0))
        × ((publish_to_queue env e d q w).2.deliveries ≡ w.deliveries)
        × ((publish_to_queue env e d q w).0.event_log_id ≡ d.event_log_id)
        × ((publish_to_queue env e d q w).0.target_module ≡ d.target_module)
        × (is_delivered (publish_to_queue env e d q w).0.status ≡ (publish_to_queue env e d q w).1)
        × ((publish_to_queue env e d q w).0.attempts ≡ d.attempts + 1)
  unfolding publish_to_queue
  publish_to_queue-sent e d q w = ground (
    arith,
    length-append {0} w.sent (event_message env e (record d { attempts = d.attempts + 1 }) q ∷ []),
  )

  route_found-mentions :
      (log : EventLog) (e : EventEnvelope) (s : Loaded) (o : Option Delivery) (r : Routing)
      (w : World) (a : Text)
      → mentions a (route_found env log e s o r w).0
        ≡ mentions a r + (if text_eq a s.module_row.name then 1 else 0)
  unfolding route_found
  route_found-mentions log e s none r w a = ground (
    arith,
    count-append a r.routed (s.module_row.name ∷ []),
    count-append a r.deferred (s.module_row.name ∷ []),
  )
  route_found-mentions log e s (some d) r w a = ground (
    arith,
    count-append a r.routed (s.module_row.name ∷ []),
    count-append a r.deferred (s.module_row.name ∷ []),
    count-append a r.skipped (s.module_row.name ∷ []),
  )

  route_each-mentions :
      (log : EventLog) (e : EventEnvelope) (existing : List Delivery) (ss : List Loaded)
      (r : Routing) (w : World) (a : Text)
      → mentions a (route_each env log e existing ss r w).0 ≡ mentions a r + count a (names ss)
  unfolding route_each
  route_each-mentions log e existing [] r w a = omega arith
  route_each-mentions log e existing (s ∷ ss) r w a = omega (
    arith,
    route_found-mentions log e s (get_existing s.module_row.name existing) r w a,
    route_each-mentions log e existing ss
        (route_found env log e s (get_existing s.module_row.name existing) r w).0
        (route_found env log e s (get_existing s.module_row.name existing) r w).1 a,
  )

  route_to-mentions :
      (log : EventLog) (e : EventEnvelope) (ss : List Loaded) (w : World) (a : Text)
      → count a (route_to env log e ss w).0.routed_to
          + count a (route_to env log e ss w).0.deferred_to
          + count a (route_to env log e ss w).0.already_delivered
        ≡ count a (names ss)
  unfolding route_to
  route_to-mentions log e [] w a = refl
  route_to-mentions log e (s ∷ ss) w a =
      omega (arith, route_each-mentions log e (list_for_event log.id w) (s ∷ ss) no_routing w a)

  -- Whatever the broker answers, the result of routing names the module of every active subscription of
  -- the event's type exactly as often as it has one, as routed, as deferred or as already delivered.
  pub route-mentions :
      (log : EventLog) (e : EventEnvelope) (w : World) (a : Text)
      → count a (route env log e w).0.routed_to
          + count a (route env log e w).0.deferred_to
          + count a (route env log e w).0.already_delivered
        ≡ count a (names (active_for_event_type e.event_type w))
  route-mentions log e w a =
      unfold route in route_to-mentions log e (active_for_event_type e.event_type w) w a
