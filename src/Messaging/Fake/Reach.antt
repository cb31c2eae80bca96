-- ===== src/Messaging/Fake/Reach.antt =====
-- A message that is published under the name of a declared queue arrives in it.
use core_desappsii.Base.{
  subst, ◌≡◌, refl, sym, Bool, true, false, not, ◌||◌, some, List, [], ◌∷◌, ◌++◌, arith, is_empty,
  In, head, tail, In-append_left, In-append_right, Bool-cases, inl, inr,
}
use core_desappsii.Text.{Text, lit, text_eq, text_eq_refl}
use core_desappsii.Messaging.Broker.{OutboundMessage}
use core_desappsii.Messaging.Topology.{
  Settings, ExchangeType, BindingSpec, same_binding, consumer_binding, full_topology,
}
use core_desappsii.Messaging.Topology.Laws.{
  has_binding, full_topology-binds, any-dedupe_from, same_binding-eq, same_binding-same_binding,
}
use core_desappsii.Messaging.Fake.{
  FakeBroker, QueueEntry, declare, segment_matches, segments_match, split_dots, topic_matches,
  is_fanout, binding_matches, matching, type_of, matching_queues, enqueue, enqueue_all, publish,
  messages_in,
}

or_true : (b c : Bool) → c ≡ true → b || c ≡ true
or_true b c h = ground arith

segment_matches_self : (k : Text) → segment_matches k k ≡ true
unfolding segment_matches text_eq lit
segment_matches_self k = elim (Bool-cases (text_eq k (lit "*"))) [
  | inl e ↦ rw e (star k e)
  | inr e ↦ rw e (text_eq_refl k)
]
  where
    star : (k : Text) → text_eq k (lit "*") ≡ true → not (is_empty k) ≡ true
    star [] h = absurd (cc h)
    star (c ∷ cs) h = refl

segments_match_self : (ks : List Text) → segments_match ks ks ≡ true
unfolding segments_match
segments_match_self [] = refl
segments_match_self (k ∷ ks) =
    or_true (text_eq k (lit "#")) _ (rw (segment_matches_self k, segments_match_self ks) refl)

-- Every routing key is matched by itself as a pattern, also where it holds a star or a hash.
topic_matches_self : (key : Text) → topic_matches key key ≡ true
unfolding topic_matches
topic_matches_self key =
    or_true (text_eq key (lit "#")) _
      (or_true (is_empty key) _ (segments_match_self (split_dots key)))

In-matching :
    (kind : ExchangeType) (s : Settings) (name : Text) (bs : List BindingSpec)
    → has_binding (consumer_binding s name) bs ≡ true
    → In name (matching kind s.exchange_events name bs)
unfolding matching consumer_binding
In-matching kind s name [] h = absurd (cc h)
In-matching kind s name (b ∷ bs) h = elim (Bool-cases (same_binding b (consumer_binding s name))) [
  | inl e ↦
      let (queue, exchange, key) = same_binding-eq b (consumer_binding s name) e in
      rw
        (
          queue,
          exchange,
          key,
          text_eq_refl s.exchange_events,
          topic_matches_self name,
          or_true (is_fanout kind) true refl,
        )
        head
  | inr e ↦ elim (Bool-cases (binding_matches kind s.exchange_events name b)) [
    | inl m ↦ rw m (tail (In-matching kind s name bs (rw e at h)))
    | inr m ↦ rw m (In-matching kind s name bs (rw e at h))
  ]
]

In-enqueue_self :
    (m : OutboundMessage) (name : Text) (qs : List QueueEntry)
    → In m (messages_in name (enqueue m name qs))
unfolding enqueue messages_in
In-enqueue_self m name [] = rw (text_eq_refl name) head
In-enqueue_self m name (q ∷ qs) = elim (Bool-cases (text_eq q.name name)) [
  | inl e ↦ rw e (rw e (In-append_right q.messages (m ∷ []) m head))
  | inr e ↦ rw e (rw e (In-enqueue_self m name qs))
]

In-enqueue :
    (m other : OutboundMessage) (name queue : Text) (qs : List QueueEntry)
    → In m (messages_in name qs)
    → In m (messages_in name (enqueue other queue qs))
unfolding enqueue messages_in
In-enqueue m other name queue [] h = elim h [ ]
In-enqueue m other name queue (q ∷ qs) h = elim (Bool-cases (text_eq q.name queue)) [
  | inl e ↦ rw e (elim (Bool-cases (text_eq q.name name)) [
    | inl f ↦ rw f (In-append_left q.messages (other ∷ []) m (rw f at h))
    | inr f ↦ rw f (rw f at h)
  ])
  | inr e ↦ rw e (elim (Bool-cases (text_eq q.name name)) [
    | inl f ↦ rw f (rw f at h)
    | inr f ↦ rw f (In-enqueue m other name queue qs (rw f at h))
  ])
]

enqueue_all-keeps :
    (m other : OutboundMessage) (name : Text) (names : List Text) (qs : List QueueEntry)
    → In m (messages_in name qs)
    → In m (messages_in name (enqueue_all other names qs))
enqueue_all-keeps m other name [] qs h = h
enqueue_all-keeps m other name (x ∷ xs) qs h =
    enqueue_all-keeps m other name xs (enqueue other x qs) (In-enqueue m other name x qs h)

In-enqueue_all :
    (m : OutboundMessage) (name : Text) (names : List Text) (qs : List QueueEntry)
    → In name names
    → In m (messages_in name (enqueue_all m names qs))
In-enqueue_all m name (x ∷ xs) qs head =
    enqueue_all-keeps m m name xs (enqueue m name qs) (In-enqueue_self m name qs)
In-enqueue_all m name (x ∷ xs) qs (tail h) = In-enqueue_all m name xs (enqueue m x qs) h
In-enqueue_all m name [] qs h = elim h [ ]

has_binding-declare :
    (s : Settings) (names : List Text) (name : Text) (b : FakeBroker)
    → In name names
    → has_binding (consumer_binding s name) (declare (full_topology s names) b).bindings ≡ true
unfolding declare
has_binding-declare s names name b h =
    any-dedupe_from same_binding (λ c. same_binding c (consumer_binding s name)) b.bindings
      (full_topology s names).bindings (same_binding-same_binding (consumer_binding s name))
      (or_true (has_binding (consumer_binding s name) b.bindings) _
        (full_topology-binds s names name h).1)

publish-taken :
    (m : OutboundMessage) (d : FakeBroker)
    → d.fail_on_publish ≡ false
    → publish m d
      ≡ some (record d {
        published = d.published ++ m ∷ [];
        queues = enqueue_all m (matching_queues m.exchange m.routing_key d) d.queues;
      })
unfolding publish
publish-taken m d takes = ground arith

-- When the full topology for some queues was declared, on a broker in any earlier state that does not
-- refuse to publish, then a message that is published to the exchange of events with the name of one of
-- those queues as its routing key is taken, and lies in that queue.
pub publish-declare :
    (s : Settings) (names : List Text) (m : OutboundMessage) (b : FakeBroker)
    → In m.routing_key names
    → m.exchange ≡ s.exchange_events
    → b.fail_on_publish ≡ false
    → (b' : FakeBroker) × (publish m (declare (full_topology s names) b) ≡ some b')
      × In m (messages_in m.routing_key b'.queues)
unfolding publish matching_queues
publish-declare s names m b named events takes =
    let d = declare (full_topology s names) b in
    let kind = type_of m.exchange d.exchange_types in
    let queues = matching_queues m.exchange m.routing_key d in
    let reached : In m.routing_key queues =
      subst
        (λ x.
          In m.routing_key
            (matching (type_of m.exchange d.exchange_types) x m.routing_key d.bindings))
        (sym events)
        (In-matching kind s m.routing_key d.bindings
          (has_binding-declare s names m.routing_key b named)) in
    (
      record d { published = d.published ++ m ∷ []; queues = enqueue_all m queues d.queues },
      publish-taken m d (unfold declare in takes),
      In-enqueue_all m m.routing_key queues d.queues reached,
    )
