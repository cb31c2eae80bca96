-- ===== src/Messaging/Fake.antt =====
-- backend/app/messaging/fake.py: the broker in memory, which routes by exchanges, bindings and patterns. A
-- routing key has no line break, so that the pattern can be followed segment by segment.
pub mod Reach
mod Samples
use core_desappsii.Base.{
  ℕ, Bool, true, false, not, ◌&&◌, ◌||◌, Option, none, some, List, [], ◌∷◌, ◌++◌, length, is_empty,
  if◌then◌else◌, ◌==◌,
}
use core_desappsii.Text.{Text, lit, text_eq}
use core_desappsii.Messaging.Broker.{OutboundMessage}
use core_desappsii.Messaging.Topology.{
  ExchangeType, topic, fanout, ExchangeSpec, QueueSpec, BindingSpec, Topology, same_binding,
}
use core_desappsii.Messaging.Topology.Dedupe.{dedupe_from}

-- One entry of the dictionary `queues`.
pub record QueueEntry : Type 0 where
  pub name : Text
  pub messages : List OutboundMessage

-- The handlers of the source are callbacks of its caller and are left out.
pub record FakeBroker : Type 0 where
  pub published : List OutboundMessage
  pub queues : List QueueEntry
  pub declared : Option Topology
  pub exchange_types : List ExchangeSpec
  pub bindings : List BindingSpec
  pub connected : Bool
  pub is_healthy : Bool
  pub fail_on_publish : Bool

-- `FakeBroker(healthy=..., fail_on_publish=...)`
abbrev pub fake_broker : Bool → Bool → FakeBroker
fake_broker healthy fail_on_publish = record {
  published = [];
  queues = [];
  declared = none;
  exchange_types = [];
  bindings = [];
  connected = false;
  is_healthy = healthy;
  fail_on_publish = fail_on_publish;
}

abbrev pub connect : FakeBroker → FakeBroker
connect b = record b { connected = true }

abbrev pub close : FakeBroker → FakeBroker
close b = record b { connected = false }

abbrev pub healthy : FakeBroker → Bool
healthy b = b.is_healthy && b.connected

-- `self._exchange_types[name] = type`: a later entry of one name hides the earlier ones.
abbrev pub set_types : List ExchangeSpec → List ExchangeSpec → List ExchangeSpec
set_types types [] = types
set_types types (x ∷ xs) = set_types (x ∷ types) xs

-- `self._exchange_types.get(exchange, "topic")`
unfoldable pub type_of : Text → List ExchangeSpec → ExchangeType
type_of exchange [] = topic
type_of exchange (x ∷ xs) = if text_eq x.name exchange then x.kind else type_of exchange xs

-- `self.queues.setdefault(name, [])`
unfoldable pub set_default : Text → List QueueEntry → List QueueEntry
set_default name [] = record { name = name; messages = [] } ∷ []
set_default name (q ∷ qs) = if text_eq q.name name then q ∷ qs else q ∷ set_default name qs

abbrev pub set_defaults : List QueueSpec → List QueueEntry → List QueueEntry
set_defaults [] queues = queues
set_defaults (q ∷ qs) queues = set_defaults qs (set_default q.name queues)

-- `declare`. The bindings that are not there yet are appended in order.
unfoldable pub declare : Topology → FakeBroker → FakeBroker
unfolding set_default dedupe_from
declare t b = record b {
  declared = some t;
  exchange_types = set_types b.exchange_types t.exchanges;
  queues = set_defaults t.queues b.queues;
  bindings = dedupe_from same_binding b.bindings t.bindings;
}

-- `text.split(".")`
abbrev cons_segment : ℕ → List Text → List Text
cons_segment c [] = (c ∷ []) ∷ []
cons_segment c (s ∷ ss) = (c ∷ s) ∷ ss

unfoldable pub split_dots : Text → List Text
split_dots [] = [] ∷ []
split_dots (c ∷ cs) = let rest = split_dots cs in if c == 46 then [] ∷ rest else cons_segment c rest

-- One segment of the regular expression: a star takes one segment that is not empty.
unfoldable pub segment_matches : (segment key : Text) → Bool
segment_matches segment key =
    if text_eq segment (lit "*") then not (is_empty key) else text_eq segment key

-- The loop of `_topic_matches` and the match of what it builds: a hash takes all that is left.
unfoldable pub segments_match : (pattern key : List Text) → Bool
unfolding segment_matches
segments_match [] [] = true
segments_match [] (k ∷ ks) = false
segments_match (p ∷ ps) [] = text_eq p (lit "#")
segments_match (p ∷ ps) (k ∷ ks) =
    text_eq p (lit "#") || (segment_matches p k && segments_match ps ks)

-- `_topic_matches`
unfoldable pub topic_matches : (pattern routing_key : Text) → Bool
unfolding segments_match split_dots
topic_matches pattern routing_key =
    text_eq pattern (lit "#")
    || (is_empty pattern || segments_match (split_dots pattern) (split_dots routing_key))

abbrev pub is_fanout : ExchangeType → Bool
is_fanout fanout = true
is_fanout topic = false

-- The condition of the loop of `_matching_queues`.
abbrev pub binding_matches : ExchangeType → (exchange routing_key : Text) → BindingSpec → Bool
binding_matches kind exchange routing_key b =
    text_eq b.exchange exchange && (is_fanout kind || topic_matches b.routing_key routing_key)

unfoldable pub matching :
    ExchangeType → (exchange routing_key : Text) → List BindingSpec → List Text
unfolding topic_matches
matching kind exchange routing_key [] = []
matching kind exchange routing_key (b ∷ bs) =
    let rest = matching kind exchange routing_key bs in
    if binding_matches kind exchange routing_key b then b.queue ∷ rest else rest

-- `_matching_queues`
unfoldable pub matching_queues : (exchange routing_key : Text) → FakeBroker → List Text
unfolding matching type_of
matching_queues exchange routing_key b =
    matching (type_of exchange b.exchange_types) exchange routing_key b.bindings

-- `self.queues[queue].append(message)`, of a dictionary with a default.
unfoldable pub enqueue : OutboundMessage → Text → List QueueEntry → List QueueEntry
enqueue m name [] = record { name = name; messages = m ∷ [] } ∷ []
enqueue m name (q ∷ qs) =
    if text_eq q.name name
    then record q { messages = q.messages ++ m ∷ [] } ∷ qs
    else q ∷ enqueue m name qs

abbrev pub enqueue_all : OutboundMessage → List Text → List QueueEntry → List QueueEntry
enqueue_all m [] queues = queues
enqueue_all m (name ∷ names) queues = enqueue_all m names (enqueue m name queues)

-- `publish`: nothing where it raises.
unfoldable pub publish : OutboundMessage → FakeBroker → Option FakeBroker
unfolding matching_queues enqueue
publish m b =
    if b.fail_on_publish
    then none
    else some (record b {
      published = b.published ++ m ∷ [];
      queues = enqueue_all m (matching_queues m.exchange m.routing_key b) b.queues;
    })

-- `self.queues.get(queue, [])`, the messages of a queue.
unfoldable pub messages_in : Text → List QueueEntry → List OutboundMessage
messages_in name [] = []
messages_in name (q ∷ qs) = if text_eq q.name name then q.messages else messages_in name qs
