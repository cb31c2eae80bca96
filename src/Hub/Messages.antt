-- ===== src/Hub/Messages.antt =====
-- The messages that the routing of an event puts into the queues.
use core_desappsii.Base.{
  ◌+◌, ◌≡◌, refl, sym, ap, ◌∙◌, Bool, true, false, Option, none, some, List, [], ◌∷◌, ◌++◌, map,
  All, In, head, tail, Bool-cases, Option-cases, inl, inr, if◌then◌else◌, All-append,
}
use core_desappsii.Base.Keys.{All-each}
use core_desappsii.Text.{Text, text_eq, text_eq-eq}
use core_desappsii.Model.Events.{EventLog, Delivery}
use core_desappsii.Messaging.Broker.{OutboundMessage}
use core_desappsii.Envelope.{EventEnvelope}
use core_desappsii.World.{Env, World, send, save_delivery, save_log, flush}
use core_desappsii.Repositories.Events.{list_for_event}
use core_desappsii.Repositories.Registry.{Loaded, target_queue, active_for_event_type}
use core_desappsii.Hub.Outcome.{Routing, no_routing, get_existing, is_delivered}
use core_desappsii.Hub.Routing.{
  event_message, publish_to_queue, new_delivery, note_published, route_found, route_each, route_to,
  route,
}

-- The whole event, for the module of one of the subscriptions, to the queue of that module.
abbrev pub IsFor : Env → EventEnvelope → List Loaded → OutboundMessage → Type 0
IsFor env e ss m =
    (s : Loaded) × In s ss
    × (m.headers.target ≡ s.module_row.name)
    × (m.routing_key ≡ target_queue s)
    × (m.exchange ≡ env.settings.exchange_events)
    × (m.body ≡ env.to_wire e)

abbrev pub targets : List OutboundMessage → List Text
targets ms = map (λ m. m.headers.target) ms

-- The broker took messages for these subscriptions and no others, one for each module newly listed as
-- routed, in that order.
abbrev IsSent : Env → EventEnvelope → List Loaded → World → Routing → World → Routing → Type 0
IsSent env e ss before r after r' =
    (ms : List OutboundMessage) × (after.sent ≡ before.sent ++ ms)
    × (r'.routed ≡ r.routed ++ targets ms)
    × All (IsFor env e ss) ms

append_nil {ℓ} : {A : Type ℓ} (xs : List A) → xs ≡ xs ++ []
append_nil [] = refl
append_nil (x ∷ xs) = ap (λ ys. x ∷ ys) (append_nil xs)

append_append {ℓ} : {A : Type ℓ} (xs ys zs : List A) → (xs ++ ys) ++ zs ≡ xs ++ (ys ++ zs)
append_append [] ys zs = refl
append_append (x ∷ xs) ys zs = ap (λ us. x ∷ us) (append_append xs ys zs)

targets-append : (ms ns : List OutboundMessage) → targets (ms ++ ns) ≡ targets ms ++ targets ns
targets-append [] ns = refl
targets-append (m ∷ ms) ns = ap (λ ts. m.headers.target ∷ ts) (targets-append ms ns)

existing_target :
    (name : Text) (ds : List Delivery) (d : Delivery)
    → get_existing name ds ≡ some d
    → d.target_module ≡ name
unfolding get_existing
existing_target name [] d h = absurd (cc h)
existing_target name (x ∷ ds) d h = elim (Option-cases (get_existing name ds)) [
  | inl (later, e) ↦ existing_target name ds d (e ∙ rw e at h)
  | inr e ↦ here (rw e at h)
]
  where
    same_row : some x ≡ some d → x ≡ d
    same_row k = cc k

    here : (if text_eq x.target_module name then some x else none) ≡ some d → d.target_module ≡ name
    here k = elim (Bool-cases (text_eq x.target_module name)) [
      | inl e ↦
          ap (λ (y : Delivery). y.target_module) (sym (same_row (rw e at k)))
          ∙ text_eq-eq x.target_module name e
      | inr e ↦ absurd (cc (rw e at k))
    ]

existing_targets :
    (name : Text) (ds : List Delivery) (o : Option Delivery)
    → get_existing name ds ≡ o
    → All (λ (d : Delivery). d.target_module ≡ name) (elim o [ none ↦ [] | some d ↦ d ∷ [] ])
existing_targets name ds none h = tt
existing_targets name ds (some d) h = (existing_target name ds d h, tt)

module _ (env : Env) where
  publish_to_queue-message :
      (e : EventEnvelope) (d : Delivery) (q : Text) (w : World)
      → let result = publish_to_queue env e d q w in
        (m : OutboundMessage) × (result.2.sent ≡ w.sent ++ (if result.1 then m ∷ [] else []))
        × (m.headers.target ≡ d.target_module)
        × (m.routing_key ≡ q)
        × (m.exchange ≡ env.settings.exchange_events)
        × (m.body ≡ env.to_wire e)
  unfolding publish_to_queue event_message
  publish_to_queue-message e d q w =
      let m = event_message env e (record d { attempts = d.attempts + 1 }) q in
      elim (Option-cases (env.publish w.publishes m)) [
        | inl (exc, failed) ↦
            let refused : (send env m w).1.sent ≡ w.sent = rw (failed, send) refl in
            (m, rw (failed, publish_to_queue) (refused ∙ append_nil w.sent), refl, refl, refl, refl)
        | inr took ↦
            let taken : (send env m w).1.sent ≡ w.sent ++ m ∷ [] = rw (took, send) refl in
            (m, rw (took, publish_to_queue) taken, refl, refl, refl, refl)
      ]

  noted :
      (s : Loaded) (ss : List Loaded) (e : EventEnvelope) (published : Bool) (m : OutboundMessage)
      (r : Routing) (before after : World)
      → after.sent ≡ before.sent ++ (if published then m ∷ [] else [])
      → m.headers.target ≡ s.module_row.name
      → IsFor env e (s ∷ ss) m
      → IsSent env e (s ∷ ss) before r after (note_published env published s.module_row.name r)
  noted s ss e true m r before after sent target fits = (m ∷ [], sent, rw target refl, (fits, tt))
  noted s ss e false m r before after sent target fits = ([], sent, append_nil r.routed, tt)

  route_found-IsSent :
      (log : EventLog) (e : EventEnvelope) (s : Loaded) (ss : List Loaded) (o : Option Delivery)
      (r : Routing) (w : World)
      → All
          (λ (d : Delivery). d.target_module ≡ s.module_row.name)
          (elim o [ none ↦ [] | some d ↦ d ∷ [] ])
      → IsSent env e
          (s ∷ ss)
          w
          r
          (route_found env log e s o r w).1
          (route_found env log e s o r w).0
  unfolding route_found new_delivery
  route_found-IsSent log e s ss none r w named =
      let d = new_delivery env log e s in
      let (m, sent, target, key, exchange, body) =
        publish_to_queue-message e d (target_queue s) w in
      noted s ss e (publish_to_queue env e d (target_queue s) w).1 m r w
        (route_found env log e s none r w).1 sent target (s, head, target, key, exchange, body)
  route_found-IsSent log e s ss (some d) r w named = elim (Bool-cases (is_delivered d.status)) [
    | inl done ↦ rw done ([], append_nil w.sent, append_nil r.routed, tt)
    | inr more ↦
        let (m, sent, target, key, exchange, body) =
          publish_to_queue-message e d (target_queue s) w in
        let name = target ∙ named.0 in
        rw more (
          let p = publish_to_queue env e d (target_queue s) w in
          noted s ss e p.1 m r w (save_delivery p.0 p.2) sent name
            (s, head, name, key, exchange, body))
  ]

  route_each-IsSent :
      (log : EventLog) (e : EventEnvelope) (existing : List Delivery) (ss : List Loaded)
      (r : Routing) (w : World)
      → IsSent env e ss w r
          (route_each env log e existing ss r w).1
          (route_each env log e existing ss r w).0
  unfolding route_each
  route_each-IsSent log e existing [] r w = ([], append_nil w.sent, append_nil r.routed, tt)
  route_each-IsSent log e existing (s ∷ ss) r w =
      let o = get_existing s.module_row.name existing in
      let (ms, sent, routed, fit) =
        route_found-IsSent log e s ss o r w (existing_targets s.module_row.name existing o refl) in
      let (ns, sent', routed', fit') =
        route_each-IsSent log e existing ss (route_found env log e s o r w).0
          (route_found env log e s o r w).1 in
      (
        ms ++ ns,
        sent' ∙ ap (λ us. us ++ ns) sent ∙ append_append w.sent ms ns,
        routed'
            ∙ ap (λ us. us ++ targets ns) routed
            ∙ append_append r.routed (targets ms) (targets ns)
            ∙ ap (λ us. r.routed ++ us) (sym (targets-append ms ns)),
        All-append (IsFor env e (s ∷ ss)) ms ns fit
            (All-each ns (λ m f. (f.0, tail f.1, f.2, f.3, f.4, f.5)) fit'),
      )

  route_to-IsSent :
      (log : EventLog) (e : EventEnvelope) (ss : List Loaded) (w : World)
      → (ms : List OutboundMessage) × ((route_to env log e ss w).1.sent ≡ w.sent ++ ms)
        × ((route_to env log e ss w).0.routed_to ≡ targets ms)
        × All (IsFor env e ss) ms
  unfolding route_to save_log flush
  route_to-IsSent log e [] w = ([], append_nil w.sent, refl, tt)
  route_to-IsSent log e (s ∷ ss) w =
      route_each-IsSent log e (list_for_event log.id w) (s ∷ ss) no_routing w

  pub route-sent :
      (log : EventLog) (e : EventEnvelope) (w : World)
      → (ms : List OutboundMessage) × ((route env log e w).1.sent ≡ w.sent ++ ms)
        × ((route env log e w).0.routed_to ≡ targets ms)
        × All (IsFor env e (active_for_event_type e.event_type w)) ms
  unfolding route
  route-sent log e w = route_to-IsSent log e (active_for_event_type e.event_type w) w
