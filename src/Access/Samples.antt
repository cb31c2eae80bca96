-- ===== src/Access/Samples.antt =====
-- A module that asks for the events, with a token that names it.
use core_desappsii.Base.{◌≡◌, ◌≤◌, refl, true, false, none, some, All, count_rows}
use core_desappsii.Base.Integers.{pos}
use core_desappsii.Text.{Text, lit}
use core_desappsii.Errors.{Result, ok, err, not_found, token_invalid, forbidden}
use core_desappsii.Model.Events.{EventLog}
use core_desappsii.Hub.Intake.{build_log}
use core_desappsii.Repositories.Search.{is_visible}
use core_desappsii.Repositories.Samples.{never_like, by_module, one_event}
use core_desappsii.Access.{
  Claims, Caller, caller_of, get_caller, require_admin, list_events, get_event,
}
use core_desappsii.Access.Isolation.{get_caller-isolation}

abbrev claims_of : Text → Claims
claims_of name = record {
  module_name = some name;
  kind = none;
  display_name = none;
  is_admin = false;
  email = none;
  full_name = none;
}

-- A token is here the name of its module.
abbrev decode_name : Text → Result Claims
decode_name token = ok (claims_of token)

abbrev rentas : Caller
rentas = caller_of (lit "rentas") (claims_of (lit "rentas"))

program : Unit {0}
unfolding lit caller_of get_caller require_admin
program = tt

no_admin :
    (require_admin rentas ≡ err forbidden)
    × (rentas.actor ≡ lit "module:rentas")
    × (get_caller (λ t. ok (claims_of (lit ""))) (some (lit "x")) ≡ err token_invalid)
unfolding program
no_admin = (refl, refl, refl)

get_caller-isolation_example :
    let result =
      list_events never_like rentas (by_module (lit "rentas")) (pos 1) (pos 25) one_event in
    All (λ l. is_visible one_event (lit "rentas") l ≡ true) result.items
    × (result.total ≤ count_rows (is_visible one_event (lit "rentas")) one_event.event_logs)
    × ◌≡◌ {A = Result EventLog} (get_event rentas 99 one_event) (err not_found)
unfolding program build_log
get_caller-isolation_example =
    get_caller-isolation decode_name never_like (some (lit "rentas")) rentas
      (by_module (lit "rentas")) (pos 1) (pos 25) 99 one_event refl refl
