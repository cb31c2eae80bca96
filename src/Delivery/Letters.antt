-- ===== src/Delivery/Letters.antt =====
-- backend/app/services/delivery_service.py: the results of a retry, and the opening of a dead letter.
use core_desappsii.Base.{
  ℕ, Bool, Option, none, some, List, [], if◌then◌else◌, take, is_empty, or_else,
}
use core_desappsii.Text.{Text, lit}
use core_desappsii.Json.{Json, get, as_text}
use core_desappsii.Model.Events.{EventLog, DeadLetter, opened, Reason}
use core_desappsii.World.{Env}

pub record RetryOutcome : Type 0 where
  pub dead_letter_id : ℕ
  pub is_success : Bool
  pub message : Text
  pub attempt_number : ℕ

pub record BulkRetryOutcome : Type 0 where
  pub total : ℕ
  pub succeeded : ℕ
  pub failed : ℕ
  pub results : List RetryOutcome

-- A dead letter as `_open_dead_letter` makes it. It has no identifier before the next flush.
abbrev pub log_id : Option EventLog → Option ℕ
log_id none = none
log_id (some l) = l.id

abbrev pub log_event_id : Option EventLog → Option ℕ
log_event_id none = none
log_event_id (some l) = some l.event_id

unfoldable pub open_dead_letter :
    (event_log : Option EventLog) (delivery_id event_id : Option ℕ)
    (event_type source_module target_module : Option Text) (reason_code : Reason) (reason : Text)
    (raw_payload : Option Json) (attempts : ℕ)
    → DeadLetter
open_dead_letter event_log delivery_id event_id event_type source_module target_module reason_code
      reason raw_payload attempts =
    record {
      id = none;
      event_log_id = log_id event_log;
      delivery_id = delivery_id;
      event_id = event_id;
      event_type = event_type;
      source_module = source_module;
      target_module = target_module;
      reason_code = reason_code;
      reason = take 4000 reason;
      details = [];
      raw_payload = raw_payload;
      raw_body = none;
      attempts = attempts;
      status = opened;
      resolved_at = none;
      resolved_by = none;
      resolution_notes = none;
    }

-- `str(body.get("eventId") or "")`: where the field is no text, what `str` would print is left empty.
unfoldable pub body_event_id : Json → Text
body_event_id body = or_else (as_text (get (lit "eventId") body)) []

-- `event_id or None`, of a text.
abbrev pub non_empty : Text → Option Text
non_empty t = if is_empty t then none else some t

-- `_parse_uuid` of a value that may be absent.
abbrev pub parse_id : Env → Option Text → Option ℕ
parse_id env none = none
parse_id env (some t) = env.parse_uuid t
