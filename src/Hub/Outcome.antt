-- ===== src/Hub/Outcome.antt =====
-- backend/app/services/event_hub_service.py: the results of an ingest and of the loop over the
-- subscriptions, and small helpers.
use core_desappsii.Base.{
  ℕ, ◌*◌, Bool, true, false, Option, none, some, List, [], ◌∷◌, ◌++◌, if◌then◌else◌,
}
use core_desappsii.Text.{Text, lit, text_eq}
use core_desappsii.Model.Events.{
  EventStatus, routed, no_subscribers, rejected, duplicate, DeliveryStatus, pending, delivered,
  retrying, Reason, Detail, EventLog, Delivery,
}
use core_desappsii.Messaging.Broker.{BrokerError}

pub record IngestResult : Type 0 where
  pub event_log : EventLog
  pub status : EventStatus
  pub is_duplicate : Bool
  pub routed_to : List Text
  pub deferred_to : List Text
  pub already_delivered : List Text
  pub event_type_discovered : Bool
  pub rejection_code : Option Reason
  pub rejection_reason : Option Text
  pub details : List Detail

-- `IngestResult.accepted`
abbrev pub accepted : IngestResult → Bool
accepted r = elim r.status [
  | routed ↦ true
  | no_subscribers ↦ true
  | rejected ↦ false
  | duplicate ↦ false
]

-- The dataclass with its defaults.
abbrev pub ingest_result : EventLog → EventStatus → IngestResult
ingest_result log status = record {
  event_log = log;
  status = status;
  is_duplicate = false;
  routed_to = [];
  deferred_to = [];
  already_delivered = [];
  event_type_discovered = false;
  rejection_code = none;
  rejection_reason = none;
  details = [];
}

-- The lists that the loop of `_route` appends to.
pub record Routing : Type 0 where
  pub routed : List Text
  pub deferred : List Text
  pub skipped : List Text

abbrev pub no_routing : Routing
no_routing = record { routed = []; deferred = []; skipped = [] }

-- `{d.target_module: d for d in deliveries}.get(name)`: a later row hides an earlier one.
unfoldable pub get_existing : Text → List Delivery → Option Delivery
get_existing name [] = none
get_existing name (d ∷ ds) = elim (get_existing name ds) [
  | some later ↦ some later
  | none ↦ if text_eq d.target_module name then some d else none
]

abbrev pub is_delivered : DeliveryStatus → Bool
is_delivered delivered = true
is_delivered pending = false
is_delivered retrying = false
is_delivered DeliveryStatus.dead = false
is_delivered DeliveryStatus.discarded = false

-- `timedelta(seconds=...)`, in microseconds.
abbrev pub seconds : ℕ → ℕ
seconds n = n * 1000000

-- `f"{type(exc).__name__}: {exc}"`
unfoldable pub describe_error : BrokerError → Text
describe_error exc = exc.class_name ++ (lit ": " ++ exc.text)
