-- ===== src/Accounts/Users.antt =====
-- The changes of backend/app/services/user_service.py that take an account out of use: `update` and
-- `delete`. The caller is the name of its module and whether it is an administrator.
use core_desappsii.Base.{
  ℕ, Bool, true, false, not, ◌||◌, ◌&&◌, Option, none, some, ◌==◌, leb, update_rows, filterb,
  if◌then◌else◌,
}
use core_desappsii.Text.{Text, strip, text_eq}
use core_desappsii.Errors.{Result, ok, err, not_found, conflict, forbidden, attribute_error}
use core_desappsii.Model.Registry.{ModuleAccount}
use core_desappsii.Registry.Authority.{normalise}
use core_desappsii.Accounts.{User, Accounts, get_loaded, count_active_in_module, module_of}

-- `_user`, with the module that it joins.
abbrev joined : User → Option ModuleAccount → Result (User × ModuleAccount)
joined u none = err attribute_error
joined u (some m) = ok (u, m)

unfoldable pub required_user : Option User → Accounts → Result (User × ModuleAccount)
required_user none a = err not_found
required_user (some u) a = joined u (module_of u a)

-- `_assert_can_act_on`
unfoldable pub may_act_on : (module_name actor_module : Text) → Bool → Bool
unfolding normalise
may_act_on module_name actor_module actor_is_admin =
    actor_is_admin || text_eq (normalise module_name) (normalise actor_module)

-- `_assert_not_last_active`: whether it passes.
unfoldable pub is_not_last_active : User → Accounts → Bool
is_not_last_active u a = not u.active || not (leb (count_active_in_module u.module_id a) 1)

-- The attribute writes of `update`.
unfoldable pub changed_user : Option Text → Option Bool → User → User
changed_user full_name none u = record u {
  full_name = elim full_name [ none ↦ u.full_name | some t ↦ strip t ];
}
changed_user full_name (some true) u = record u {
  full_name = elim full_name [ none ↦ u.full_name | some t ↦ strip t ];
  active = true;
  failed_login_attempts = if u.active then u.failed_login_attempts else 0;
}
changed_user full_name (some false) u = record u {
  full_name = elim full_name [ none ↦ u.full_name | some t ↦ strip t ];
  active = false;
}

-- Whether `update` calls `_assert_not_last_active`.
abbrev pub switches_off : Option Bool → User → Bool
switches_off none u = false
switches_off (some true) u = false
switches_off (some false) u = u.active

abbrev pub change_user : ℕ → (User → User) → Accounts → Accounts
change_user id write a = record a { users = update_rows (λ r. r.id == id) write a.users }

abbrev pub delete_user : ℕ → Accounts → Accounts
delete_user id a = record a { users = filterb (λ r. not (r.id == id)) a.users }

-- `update`. The name is written before the check of the last account, but the error undoes it.
unfoldable pub update_found :
    Result (User × ModuleAccount)
    → Option Text
    → Option Bool
    → Text
    → Bool
    → Accounts
    → Result User × Accounts
unfolding may_act_on is_not_last_active changed_user
update_found (err e) full_name active actor_module actor_is_admin a = (err e, a)
update_found (ok (u, m)) full_name active actor_module actor_is_admin a =
    if not (may_act_on m.name actor_module actor_is_admin)
    then (err forbidden, a)
    else if switches_off active u && not (is_not_last_active u a)
    then (err conflict, a)
    else (ok (changed_user full_name active u), change_user u.id (changed_user full_name active) a)

unfoldable pub update :
    ℕ → Option Text → Option Bool → Text → Bool → Accounts → Result User × Accounts
unfolding update_found required_user
update id full_name active actor_module actor_is_admin a =
    update_found (required_user (get_loaded id a) a) full_name active actor_module actor_is_admin a

-- `delete`
unfoldable pub delete_found :
    Result (User × ModuleAccount) → Text → Bool → Accounts → Result (Unit {0}) × Accounts
unfolding may_act_on is_not_last_active
delete_found (err e) actor_module actor_is_admin a = (err e, a)
delete_found (ok (u, m)) actor_module actor_is_admin a =
    if not (may_act_on m.name actor_module actor_is_admin)
    then (err forbidden, a)
    else if not (is_not_last_active u a)
    then (err conflict, a)
    else (ok tt, delete_user u.id a)

unfoldable pub delete : ℕ → Text → Bool → Accounts → Result (Unit {0}) × Accounts
unfolding delete_found required_user
delete id actor_module actor_is_admin a =
    delete_found (required_user (get_loaded id a) a) actor_module actor_is_admin a
