-- ===== src/Model/Events.antt =====
-- backend/app/models/events.py: the event log, deliveries, dead letters and the audit of retries.
-- The identifier of a row is `none` until the session is flushed. A time is in microseconds.
use core_desappsii.Base.{ℕ, Bool, Option, List, leb}
use core_desappsii.Text.{Text}
use core_desappsii.Json.{Json}

pub data EventStatus : Type 0 where
  routed no_subscribers rejected duplicate : EventStatus

pub data DeliveryStatus : Type 0 where
  pending delivered retrying dead discarded : DeliveryStatus

pub data IngestionChannel : Type 0 where
  amqp http : IngestionChannel

pub data DeadLetterStatus : Type 0 where
  opened retried discarded : DeadLetterStatus

pub data RetryMode : Type 0 where
  automatic manual : RetryMode

pub data RetryResult : Type 0 where
  success failure : RetryResult

-- The `REASON_…` constants of event_hub_service.py, the only values of `reason_code`.
pub data Reason : Type 0 where
  schema_violation malformed_message delivery_failed : Reason

-- A `datetime`, with whether it carries a time zone.
pub record Timestamp : Type 0 where
  pub instant : ℕ
  pub has_offset : Bool

-- One entry of the `details` of a rejected payload.
pub record Detail : Type 0 where
  pub field : Text
  pub message : Text
  pub constraint : Text

pub record EventLog : Type 0 where
  pub id : Option ℕ
  pub event_id : ℕ
  pub event_type : Text
  pub event_version : Text
  pub source_module : Text
  pub occurred_at : Timestamp
  pub received_at : ℕ
  pub correlation_id : Option ℕ
  pub causation_id : Option ℕ
  pub trace_id : Option Text
  pub envelope : Json
  pub status : EventStatus
  pub rejection_code : Option Reason
  pub rejection_reason : Option Text
  pub ingestion_channel : IngestionChannel
  pub processing_ms : Option ℕ

pub record Delivery : Type 0 where
  pub id : Option ℕ
  pub event_log_id : Option ℕ
  pub subscription_id : Option ℕ
  pub target_module : Text
  pub queue_name : Text
  pub event_type : Text
  pub status : DeliveryStatus
  pub attempts : ℕ
  pub max_attempts : ℕ
  pub last_error : Option Text
  pub next_retry_at : Option ℕ
  pub delivered_at : Option ℕ

-- `Delivery.attempts_exhausted`
abbrev pub attempts_exhausted : Delivery → Bool
attempts_exhausted d = leb d.max_attempts d.attempts

pub record DeadLetter : Type 0 where
  pub id : Option ℕ
  pub event_log_id : Option ℕ
  pub delivery_id : Option ℕ
  pub event_id : Option ℕ
  pub event_type : Option Text
  pub source_module : Option Text
  pub target_module : Option Text
  pub reason_code : Reason
  pub reason : Text
  pub details : List Detail
  pub raw_payload : Option Json
  pub raw_body : Option Text
  pub attempts : ℕ
  pub status : DeadLetterStatus
  pub resolved_at : Option ℕ
  pub resolved_by : Option Text
  pub resolution_notes : Option Text

pub record RetryAudit : Type 0 where
  pub id : Option ℕ
  pub dead_letter_id : Option ℕ
  pub delivery_id : Option ℕ
  pub event_id : Option ℕ
  pub mode : RetryMode
  pub actor : Text
  pub attempt_number : ℕ
  pub result : RetryResult
  pub error : Option Text
  pub target_module : Option Text

pub DeliveryStatus-discrete : Discrete DeliveryStatus
DeliveryStatus-discrete = hlevel
