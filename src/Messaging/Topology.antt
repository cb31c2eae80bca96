-- ===== src/Messaging/Topology.antt =====
-- backend/app/messaging/topology.py, with the settings of backend/app/core/config.py that it reads.
pub mod Dedupe
pub mod Laws
mod Samples
use core_desappsii.Base.{
  ℕ, ◌*◌, ◌/◌, ◌%◌, Bool, false, true, ◌&&◌, Option, none, some, List, [], ◌∷◌, ◌++◌, map, ltb,
  ◌==◌, if◌then◌else◌,
}
use core_desappsii.Text.{Text, lit, show, text_eq, text_le}
use Dedupe.{dedupe, insert_name, sorted_set}

-- Settings.exchange_inbox … Settings.retry_delays
pub record Settings : Type 0 where
  pub exchange_inbox : Text
  pub exchange_events : Text
  pub exchange_retry : Text
  pub exchange_dlx : Text
  pub queue_inbox : Text
  pub queue_dlq : Text
  pub retry_delays : List ℕ

unfoldable pub default_settings : Settings
unfolding lit
default_settings = record {
  exchange_inbox = lit "muni.inbox";
  exchange_events = lit "muni.events";
  exchange_retry = lit "muni.retry";
  exchange_dlx = lit "muni.dlx";
  queue_inbox = lit "core.inbox";
  queue_dlq = lit "q.dlq";
  retry_delays = 5 ∷ 30 ∷ 120 ∷ 600 ∷ [];
}

pub data ExchangeType : Type 0 where
  topic fanout : ExchangeType

pub record ExchangeSpec : Type 0 where
  pub name : Text
  pub kind : ExchangeType

-- The two arguments that the source gives a queue.
pub record QueueSpec : Type 0 where
  pub name : Text
  pub message_ttl : Option ℕ
  pub dead_letter_exchange : Option Text

pub record BindingSpec : Type 0 where
  pub queue : Text
  pub exchange : Text
  pub routing_key : Text

pub record Topology : Type 0 where
  pub exchanges : List ExchangeSpec
  pub queues : List QueueSpec
  pub bindings : List BindingSpec

abbrev pub same_exchange : ExchangeSpec → ExchangeSpec → Bool
same_exchange a b = text_eq a.name b.name

abbrev pub same_queue : QueueSpec → QueueSpec → Bool
same_queue a b = text_eq a.name b.name

abbrev pub same_binding : BindingSpec → BindingSpec → Bool
same_binding a b =
    text_eq a.queue b.queue
    && (text_eq a.exchange b.exchange && text_eq a.routing_key b.routing_key)

-- `Topology.merge`
unfoldable pub merge : Topology → Topology → Topology
unfolding dedupe
merge t other = record {
  exchanges = dedupe same_exchange (t.exchanges ++ other.exchanges);
  queues = dedupe same_queue (t.queues ++ other.queues);
  bindings = dedupe same_binding (t.bindings ++ other.bindings);
}

unfoldable pub retry_tier_name : ℕ → Text
retry_tier_name delay_seconds =
    if ltb delay_seconds 60
    then show delay_seconds ++ lit "s"
    else if delay_seconds % 60 == 0 && ltb delay_seconds 3600
    then show (delay_seconds / 60) ++ lit "m"
    else show delay_seconds ++ lit "s"

unfoldable pub retry_exchange_for : Settings → ℕ → Text
unfolding retry_tier_name
retry_exchange_for settings delay_seconds =
    settings.exchange_retry ++ (lit "." ++ retry_tier_name delay_seconds)

unfoldable pub retry_queue_for : ℕ → Text
unfolding retry_tier_name
retry_queue_for delay_seconds = lit "q.retry." ++ retry_tier_name delay_seconds

-- The three lists that the loop over `settings.retry_delays` appends to, one entry for each delay.
unfoldable pub tier_exchange : Settings → ℕ → ExchangeSpec
tier_exchange settings delay = record { name = retry_exchange_for settings delay; kind = fanout }

unfoldable pub tier_queue : Settings → ℕ → QueueSpec
tier_queue settings delay = record {
  name = retry_queue_for delay;
  message_ttl = some (delay * 1000);
  dead_letter_exchange = some settings.exchange_events;
}

unfoldable pub tier_binding : Settings → ℕ → BindingSpec
tier_binding settings delay = record {
  queue = retry_queue_for delay;
  exchange = retry_exchange_for settings delay;
  routing_key = lit "#";
}

unfoldable pub base_topology : Settings → Topology
unfolding tier_exchange tier_queue tier_binding
base_topology s = record {
  exchanges =
      record { name = s.exchange_inbox; kind = fanout }
      ∷ record { name = s.exchange_events; kind = topic }
      ∷ record { name = s.exchange_dlx; kind = fanout }
      ∷ map (tier_exchange s) s.retry_delays;
  queues =
      record {
        name = s.queue_inbox;
        message_ttl = none;
        dead_letter_exchange = some s.exchange_dlx;
      }
      ∷ record { name = s.queue_dlq; message_ttl = none; dead_letter_exchange = none }
      ∷ map (tier_queue s) s.retry_delays;
  bindings =
      record { queue = s.queue_inbox; exchange = s.exchange_inbox; routing_key = lit "#" }
      ∷ record { queue = s.queue_dlq; exchange = s.exchange_dlx; routing_key = lit "#" }
      ∷ map (tier_binding s) s.retry_delays;
}

unfoldable pub consumer_queue : Settings → Text → QueueSpec
consumer_queue s name = record {
  name = name;
  message_ttl = none;
  dead_letter_exchange = some s.exchange_dlx;
}

unfoldable pub consumer_binding : Settings → Text → BindingSpec
consumer_binding s name = record { queue = name; exchange = s.exchange_events; routing_key = name }

unfoldable pub consumer_topology : Settings → List Text → Topology
unfolding consumer_queue consumer_binding
consumer_topology s queue_names = record {
  exchanges = [];
  queues = map (consumer_queue s) queue_names;
  bindings = map (consumer_binding s) queue_names;
}

-- `sorted(set(queue_names))` is `sorted_set`.
unfoldable pub full_topology : Settings → List Text → Topology
unfolding merge base_topology consumer_topology sorted_set
full_topology s queue_names = merge (base_topology s) (consumer_topology s (sorted_set queue_names))
