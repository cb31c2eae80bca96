-- ===== src/Hub/Settled.antt =====
-- The delivery rows that the first routing of an event leaves.
use core_desappsii.Base.{
  ℕ, ◌≡◌, refl, sym, subst, ap, ◌∙◌, ◌&&◌, Bool, true, false, Option, none, some, List, [], ◌∷◌,
  arith, All, All-append, same_id, find_one, filterb, is_some, ==_refl, Bool-cases, inl, inr,
  add_row,
}
use core_desappsii.Text.{Text, text_eq_refl}
use core_desappsii.Model.Events.{EventLog, Delivery}
use core_desappsii.Envelope.{EventEnvelope}
use core_desappsii.World.{Env, World}
use core_desappsii.Repositories.Events.{list_for_event}
use core_desappsii.Repositories.Registry.{Loaded, target_queue, active_for_event_type}
use core_desappsii.Hub.Outcome.{Routing, no_routing}
use core_desappsii.Hub.Routing.{
  publish_to_queue, new_delivery, route_found, route_each, route_to, route,
}
use core_desappsii.Hub.Numbered.{
  is_settled, AreSettled, IsRecorded, number_rows-AreSettled, All-number_rows,
}

AreSettled-nil :
    (id : Option ℕ) (ds : List Delivery)
    → filterb (λ d. same_id d.event_log_id id) ds ≡ []
    → AreSettled id ds
AreSettled-nil id [] h = tt
AreSettled-nil id (d ∷ ds) h = elim (Bool-cases (same_id d.event_log_id id)) [
  | inl e ↦ absurd (cc (rw e at h))
  | inr e ↦ (rw e, AreSettled-nil id ds (rw e at h))
]

find_one-add_row :
    (p : Delivery → Bool) (ds : List Delivery) (d : Delivery)
    → (is_some (find_one p ds) ≡ true → is_some (find_one p (add_row d ds)) ≡ true)
      × (p d ≡ true → is_some (find_one p (add_row d ds)) ≡ true)
find_one-add_row p [] d = (λ h. cc, λ h. rw h)
find_one-add_row p (x ∷ xs) d = elim (Bool-cases (p x)) [
  | inl e ↦ rw e (λ h. refl, λ h. refl)
  | inr e ↦ rw e (find_one-add_row p xs d)
]

IsRecorded-add_row :
    (id : Option ℕ) (ds : List Delivery) (d : Delivery) (ss : List Loaded)
    → All (IsRecorded id ds) ss
    → All (IsRecorded id (add_row d ds)) ss
IsRecorded-add_row id ds d [] h = tt
IsRecorded-add_row id ds d (s ∷ ss) h =
    ((find_one-add_row _ ds d).0 h.0, IsRecorded-add_row id ds d ss h.1)

module _ (env : Env) where
  -- A delivery that was just published, or was not, is settled.
  publish_to_queue-settled :
      (e : EventEnvelope) (d : Delivery) (q : Text) (w : World)
      → (is_settled (publish_to_queue env e d q w).0 ≡ true)
        × ((publish_to_queue env e d q w).0.event_log_id ≡ d.event_log_id)
        × ((publish_to_queue env e d q w).0.target_module ≡ d.target_module)
        × ((publish_to_queue env e d q w).2.deliveries ≡ w.deliveries)
  unfolding publish_to_queue
  publish_to_queue-settled e d q w = ground arith

  -- One round, for a module with no delivery of the event yet, adds a settled row for it.
  route_found-settled :
      (log : EventLog) (e : EventEnvelope) (s : Loaded) (r : Routing) (w : World) (id : ℕ)
      (done : List Loaded)
      → log.id ≡ some id
      → AreSettled log.id w.deliveries
      → All (IsRecorded log.id w.deliveries) done
      → AreSettled log.id (route_found env log e s none r w).1.deliveries
        × All (IsRecorded log.id (route_found env log e s none r w).1.deliveries) (s ∷ done)
  unfolding route_found
  route_found-settled log e s r w id done named settled recorded =
      let d = new_delivery env log e s in
      let (ok, of_log, of_module, kept) = publish_to_queue-settled e d (target_queue s) w in
      let row = (publish_to_queue env e d (target_queue s) w).0 in
      let rows = ap (λ (ds : List Delivery). add_row row ds) (sym kept) in
      (
        subst (AreSettled log.id) rows
            (All-append _ w.deliveries (row ∷ []) settled ((rw ok (and_false _)), tt)),
        (
          subst (λ ds. IsRecorded log.id ds s) rows
              ((find_one-add_row _ w.deliveries row).1
                (rw (of_log, of_module, named, ==_refl, text_eq_refl))),
          subst (λ ds. All (IsRecorded log.id ds) done) rows
              (IsRecorded-add_row log.id w.deliveries row done recorded),
        ),
      )
    where
      and_false : (b : Bool) → b && false ≡ false
      and_false b = ground arith

  route_each-settled :
      (log : EventLog) (e : EventEnvelope) (ss : List Loaded) (r : Routing) (w : World) (id : ℕ)
      (done : List Loaded)
      → log.id ≡ some id
      → AreSettled log.id w.deliveries
      → All (IsRecorded log.id w.deliveries) done
      → AreSettled log.id (route_each env log e [] ss r w).1.deliveries
        × All (IsRecorded log.id (route_each env log e [] ss r w).1.deliveries) done
        × All (IsRecorded log.id (route_each env log e [] ss r w).1.deliveries) ss
  unfolding route_each
  route_each-settled log e [] r w id done named settled recorded = (settled, recorded, tt)
  route_each-settled log e (s ∷ ss) r w id done named settled recorded =
      let (settled', recorded') = route_found-settled log e s r w id done named settled recorded in
      let (all_settled, all_done, rest) =
        route_each-settled log e ss (route_found env log e s none r w).0
          (route_found env log e s none r w).1 id (s ∷ done) named settled' recorded' in
      (all_settled, all_done.1, (all_done.0, rest))

  first_round :
      (log : EventLog) (e : EventEnvelope) (ss : List Loaded) (existing : List Delivery) (w : World)
      (id : ℕ)
      → log.id ≡ some id
      → existing ≡ []
      → existing ≡ list_for_event log.id w
      → AreSettled log.id (route_each env log e existing ss no_routing w).1.deliveries
        × All (IsRecorded log.id (route_each env log e existing ss no_routing w).1.deliveries) ss
  first_round log e ss existing w id named none_yet same =
      let (settled, _, recorded) =
        route_each-settled log e ss no_routing w id [] named
          (AreSettled-nil log.id w.deliveries (sym same ∙ none_yet)) tt in
      subst
        (λ ex.
          AreSettled log.id (route_each env log e ex ss no_routing w).1.deliveries
          × All (IsRecorded log.id (route_each env log e ex ss no_routing w).1.deliveries) ss)
        (sym none_yet) (settled, recorded)

  route_to-settled :
      (log : EventLog) (e : EventEnvelope) (ss : List Loaded) (w : World) (id : ℕ)
      → log.id ≡ some id
      → list_for_event log.id w ≡ []
      → AreSettled log.id (route_to env log e ss w).1.deliveries
        × All (IsRecorded log.id (route_to env log e ss w).1.deliveries) ss
  unfolding route_to
  route_to-settled log e [] w id named none_yet = (AreSettled-nil log.id w.deliveries none_yet, tt)
  route_to-settled log e (s ∷ ss) w id named none_yet =
      let existing = list_for_event log.id w in
      let (settled, recorded) = first_round log e (s ∷ ss) existing w id named none_yet refl in
      let w1 = (route_each env log e existing (s ∷ ss) no_routing w).1 in
      (
        number_rows-AreSettled env log.id w1.uuids w1.deliveries settled,
        All-number_rows env log.id w1.uuids w1.deliveries (s ∷ ss) recorded,
      )

  -- When an event is routed for the first time, then whatever the broker answers: every active
  -- subscription of its type has a delivery row for its module, and every delivery row of the event is
  -- either delivered or scheduled to be tried again.
  pub route-settled :
      (log : EventLog) (e : EventEnvelope) (w : World) (id : ℕ)
      → log.id ≡ some id
      → list_for_event log.id w ≡ []
      → AreSettled log.id (route env log e w).1.deliveries
        × All
            (IsRecorded log.id (route env log e w).1.deliveries)
            (active_for_event_type e.event_type w)
  route-settled log e w id named none_yet =
      unfold route in
      route_to-settled log e (active_for_event_type e.event_type w) w id named none_yet
