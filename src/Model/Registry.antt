-- ===== src/Model/Registry.antt =====
-- backend/app/models/registry.py: modules, event types, subscriptions and publications.
use core_desappsii.Base.{ℕ, Bool, Option, none, some, ◌++◌, is_empty, if◌then◌else◌}
use core_desappsii.Text.{Text, lit}
use core_desappsii.Json.{Json}

pub record ModuleAccount : Type 0 where
  pub id : ℕ
  pub name : Text
  pub display_name : Text
  pub team : Text
  pub description : Text
  pub contact_email : Option Text
  pub secret_hash : Option Text
  pub is_admin : Bool
  pub active : Bool
  pub queue_name : Option Text
  pub last_login_at : Option ℕ
  pub last_publish_at : Option ℕ

-- `self.queue_name or f"q.{self.name}"`, where the empty text counts as absent.
unfoldable pub queue_or_default : Option Text → Text → Text
queue_or_default none name = lit "q." ++ name
queue_or_default (some queue) name = if is_empty queue then lit "q." ++ name else queue

-- `ModuleAccount.effective_queue_name`
unfoldable pub effective_queue_name : ModuleAccount → Text
unfolding queue_or_default
effective_queue_name m = queue_or_default m.queue_name m.name

pub record EventType : Type 0 where
  pub id : ℕ
  pub name : Text
  pub description : Text
  pub owner_module : Option Text
  pub discovered : Bool
  pub json_schema : Option Json
  pub first_seen_at : Option ℕ
  pub last_seen_at : Option ℕ
  pub total_received : ℕ

pub record Subscription : Type 0 where
  pub id : ℕ
  pub module_id : ℕ
  pub event_type_id : ℕ
  pub max_attempts : ℕ
  pub active : Bool

pub record Publication : Type 0 where
  pub id : ℕ
  pub module_id : ℕ
  pub event_type_id : ℕ
  pub active : Bool
