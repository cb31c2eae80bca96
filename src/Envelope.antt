-- ===== src/Envelope.antt =====
-- backend/app/services/envelope.py: the common envelope. Its fields are read from JSON, and written
-- back, by pydantic, which is a parameter (`Env` of World.antt); the validators of the class are here.
use core_desappsii.Base.{ℕ, Option, none, some, is_empty, if◌then◌else◌}
use core_desappsii.Text.{Text, strip}
use core_desappsii.Json.{Json}
use core_desappsii.Model.Events.{Timestamp}

pub record EventEnvelope : Type 0 where
  pub event_id : ℕ
  pub event_type : Text
  pub event_version : Text
  pub occurred_at : Timestamp
  pub source_module : Text
  pub correlation_id : Option ℕ
  pub causation_id : Option ℕ
  pub payload : Json

infixl 5 ◌>>=◌
abbrev ◌>>=◌ {ℓ κ} : {A : Type ℓ} {B : Type κ} → Option A → (A → Option B) → Option B
none >>= f = none
some a >>= f = f a

-- `EventEnvelope._require_timezone`: the value, or nothing where it raises.
unfoldable pub require_timezone : Timestamp → Option Timestamp
require_timezone value = if value.has_offset then some value else none

-- `EventEnvelope._strip`
unfoldable pub strip_field : Text → Option Text
strip_field value = let stripped = strip value in if is_empty stripped then none else some stripped

-- The validators, on the fields that pydantic has read.
unfoldable pub validate_envelope : EventEnvelope → Option EventEnvelope
unfolding require_timezone strip_field
validate_envelope e = do
  event_type ← strip_field e.event_type
  occurred_at ← require_timezone e.occurred_at
  source_module ← strip_field e.source_module
  some (record e {
    event_type = event_type;
    occurred_at = occurred_at;
    source_module = source_module;
  })
