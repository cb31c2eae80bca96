-- ===== src/Access.antt =====
-- Who is calling, backend/app/api/deps.py, and what the routes of backend/app/api/v1/events.py show to
-- them. The check of a token is a parameter, which gives the claims or raises; the claims that the Core
-- signs are texts and one Boolean.
pub mod Isolation
mod Samples
use core_desappsii.Base.{
  Bool, true, false, not, ◌||◌, ◌&&◌, Option, none, some, List, ◌++◌, any, filterb, or_else,
  is_empty, same_id, if◌then◌else◌, ℕ, [],
}
use core_desappsii.Base.Integers.{ℤ}
use core_desappsii.Text.{Text, lit, text_eq}
use core_desappsii.Errors.{Result, ok, err, not_found, forbidden, unauthorized, token_invalid}
use core_desappsii.Model.Events.{EventLog}
use core_desappsii.World.{World}
use core_desappsii.Repositories.Events.{get_by_event_id}
use core_desappsii.Repositories.Paging.{Page}
use core_desappsii.Repositories.Search.{LogQuery, search_logs}

pub record Claims : Type 0 where
  pub module_name : Option Text
  pub kind : Option Text
  pub display_name : Option Text
  pub is_admin : Bool
  pub email : Option Text
  pub full_name : Option Text

pub record Caller : Type 0 where
  pub module_name : Text
  pub display_name : Text
  pub is_admin : Bool
  pub kind : Text
  pub actor : Text
  pub email : Option Text
  pub full_name : Option Text

-- `value or default`
abbrev pub text_or : Option Text → Text → Text
text_or none default = default
text_or (some t) default = if is_empty t then default else t

-- `Caller.scope`
unfoldable pub scope : Caller → Option Text
scope c = if c.is_admin then none else some c.module_name

-- The end of `get_caller`.
unfoldable pub caller_of : Text → Claims → Caller
unfolding lit
caller_of name claims = record {
  module_name = name;
  display_name = text_or claims.display_name name;
  is_admin = claims.is_admin;
  kind = text_or claims.kind (lit "module");
  actor = text_or claims.email (lit "module:" ++ name);
  email = claims.email;
  full_name = claims.full_name;
}

unfoldable pub identified : Option Text → Claims → Result Caller
unfolding caller_of
identified none claims = err token_invalid
identified (some name) claims =
    if is_empty name then err token_invalid else ok (caller_of name claims)

unfoldable pub caller_claimed : Result Claims → Result Caller
unfolding identified
caller_claimed (err e) = err e
caller_claimed (ok claims) = identified claims.module_name claims

-- `get_caller`
unfoldable pub get_caller : (Text → Result Claims) → Option Text → Result Caller
unfolding caller_claimed
get_caller decode_token none = err unauthorized
get_caller decode_token (some token) =
    if is_empty token then err unauthorized else caller_claimed (decode_token token)

-- `require_admin`
unfoldable pub require_admin : Caller → Result Caller
require_admin c = if c.is_admin then ok c else err forbidden

-- `list_events`: what the caller asks for, in the scope of its module.
unfoldable pub list_events :
    (Text → Text → Bool) → Caller → LogQuery → (page size : ℤ) → World → Page EventLog
unfolding search_logs scope
list_events ilike c q page size w =
    search_logs ilike (record q { module_scope = scope c }) page size w

-- `_visible_to`, with `event.deliveries` the rows of the event.
unfoldable pub visible_to : World → EventLog → Text → Bool
visible_to w event module_name =
    text_eq event.source_module module_name
    || any (λ d. text_eq d.target_module module_name)
        (filterb (λ d. same_id d.event_log_id event.id) w.deliveries)

abbrev shown_to : World → Option Text → EventLog → Bool
shown_to w none event = true
shown_to w (some s) event = is_empty s || visible_to w event s

unfoldable pub event_found : Caller → Option EventLog → World → Result EventLog
unfolding visible_to scope
event_found c none w = err not_found
event_found c (some event) w = if shown_to w (scope c) event then ok event else err not_found

-- `get_event`
unfoldable pub get_event : Caller → (event_id : ℕ) → World → Result EventLog
unfolding event_found
get_event c event_id w = event_found c (get_by_event_id event_id w) w
