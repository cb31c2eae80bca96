-- ===== src/Messaging/Broker.antt =====
-- backend/app/messaging/broker.py: the messages that go in and out. The headers, a dictionary in the
-- source, are a record of the five keys that the program writes and reads.
use core_desappsii.Base.{ℕ, Option, or_else}
use core_desappsii.Text.{Text}
use core_desappsii.Json.{Json}

-- HEADER_EVENT_ID, HEADER_TARGET, HEADER_TRACE_ID, HEADER_ATTEMPT, HEADER_ERROR
pub record OutboundHeaders : Type 0 where
  pub event_id : Text
  pub target : Text
  pub trace_id : Text
  pub attempt : ℕ
  pub error : Option Text

pub record OutboundMessage : Type 0 where
  pub exchange : Text
  pub routing_key : Text
  pub body : Json
  pub headers : OutboundHeaders
  pub message_id : Option Text

-- `loaded` is the parsed body, or nothing where `json.loads` raises; `text` is the decoded body.
-- `attempt_header` is the header read as a number, or nothing where `int` raises.
pub record InboundMessage : Type 0 where
  pub queue : Text
  pub routing_key : Text
  pub loaded : Option Json
  pub text : Text
  pub event_id_header : Option Text
  pub target_header : Option Text
  pub error_header : Option Text
  pub attempt_header : Option ℕ

-- `InboundMessage.attempt`
abbrev pub attempt : InboundMessage → ℕ
attempt m = or_else m.attempt_header 0

-- The exception that a failed publish raises: its class and its text.
pub record BrokerError : Type 0 where
  pub class_name : Text
  pub text : Text
