-- ===== src/Messaging/Topology/Samples.antt =====
-- The topology of two modules.
use core_desappsii.Base.{◌≡◌, refl, true, [], ◌∷◌, head, tail}
use core_desappsii.Text.{lit, show}
use core_desappsii.Messaging.Topology.{
  default_settings, full_topology, consumer_binding, same_exchange, same_queue, same_binding,
  retry_tier_name,
}
use core_desappsii.Messaging.Topology.Laws.{
  has_queue, has_binding, HasDistinct, full_topology-binds, full_topology-HasDistinct,
}

two_minutes : (retry_tier_name 120 ≡ lit "2m") × (retry_tier_name 5 ≡ lit "5s")
unfolding retry_tier_name lit show
two_minutes = (refl, refl)

full_topology-binds_example :
    (has_queue
        (lit "q.rentas")
        (full_topology default_settings (lit "q.obras" ∷ lit "q.rentas" ∷ [])).queues
      ≡ true)
    × (has_binding
          (consumer_binding default_settings (lit "q.rentas"))
          (full_topology default_settings (lit "q.obras" ∷ lit "q.rentas" ∷ [])).bindings
        ≡ true)
full_topology-binds_example =
    full_topology-binds default_settings (lit "q.obras" ∷ lit "q.rentas" ∷ []) (lit "q.rentas")
      (tail head)

full_topology-HasDistinct_example :
    HasDistinct same_exchange
      (full_topology default_settings (lit "q.obras" ∷ lit "q.obras" ∷ [])).exchanges
    × HasDistinct same_queue
        (full_topology default_settings (lit "q.obras" ∷ lit "q.obras" ∷ [])).queues
    × HasDistinct same_binding
        (full_topology default_settings (lit "q.obras" ∷ lit "q.obras" ∷ [])).bindings
full_topology-HasDistinct_example =
    full_topology-HasDistinct default_settings (lit "q.obras" ∷ lit "q.obras" ∷ [])
