-- ===== src/Accounts/Creation.antt =====
-- The accounts and passwords that backend/app/services/user_service.py makes: `create` and
-- `set_password`. bcrypt's hash, of a salt and a password, is a parameter; the identifier of a new row
-- is the one that the session generates.
use core_desappsii.Base.{
  ℕ, Bool, true, not, ◌&&◌, ◌||◌, Option, none, some, all, ltb, length, is_empty, is_some, find_one,
  add_row, if◌then◌else◌,
}
use core_desappsii.Text.{Text, strip, lower, text_eq, is_python_digit, is_alpha}
use core_desappsii.Errors.{Result, ok, err, not_found, conflict, forbidden, validation}
use core_desappsii.Model.Registry.{ModuleAccount}
use core_desappsii.Accounts.{User, Accounts, get_by_email, get_loaded}
use core_desappsii.Accounts.Users.{required_user, may_act_on, change_user}

abbrev pub min_password_length : ℕ
min_password_length = 8

-- `_assert_password_strength`: whether it passes.
unfoldable pub is_strong : Text → Bool
unfolding is_python_digit is_alpha
is_strong password =
    not (ltb (length password) min_password_length)
    && not (
        (not (is_empty password) && all is_python_digit password)
        || (not (is_empty password) && all is_alpha password))

-- `ModuleRepository.get_by_name`
unfoldable pub module_named : Text → Accounts → Option ModuleAccount
module_named name a = find_one (λ m. text_eq m.name (lower (strip name))) a.modules

-- `(module_name or actor_module).strip().lower()`
unfoldable pub target_module_of : Option Text → Text → Text
target_module_of none actor_module = lower (strip actor_module)
target_module_of (some name) actor_module =
    lower (strip (if is_empty name then actor_module else name))

-- What `create` is given, but for the caller.
pub record UserForm : Type 0 where
  pub email : Text
  pub password : Text
  pub full_name : Text
  pub module_name : Option Text

module _ (hash_password : ℕ → Text → Text) where
  unfoldable pub new_user : ℕ → ℕ → UserForm → ModuleAccount → User
  new_user new_id salt form m = record {
    id = new_id;
    email = lower (strip form.email);
    password_hash = hash_password salt form.password;
    full_name = strip form.full_name;
    module_id = m.id;
    active = true;
    last_login_at = none;
    failed_login_attempts = 0;
  }

  -- `create` past the checks of the caller, the password and the email.
  unfoldable pub create_in :
      ℕ → ℕ → UserForm → Option ModuleAccount → Accounts → Result User × Accounts
  create_in new_id salt form none a = (err not_found, a)
  create_in new_id salt form (some m) a =
      let u = new_user new_id salt form m in (ok u, record a { users = add_row u a.users })

  -- `create`
  unfoldable pub create :
      (new_id salt : ℕ)
      → UserForm
      → (actor_module : Text) → Bool
      → Accounts
      → Result User × Accounts
  unfolding create_in may_act_on is_strong get_by_email module_named target_module_of
  create new_id salt form actor_module actor_is_admin a =
      let target = target_module_of form.module_name actor_module in
      if not (may_act_on target actor_module actor_is_admin)
      then (err forbidden, a)
      else if not (is_strong form.password)
      then (err validation, a)
      else if is_some (get_by_email (lower (strip form.email)) a)
      then (err conflict, a)
      else create_in new_id salt form (module_named target a) a

  -- `set_password` past the look-up of the account.
  unfoldable pub set_password_found :
      ℕ → Text → Result (User × ModuleAccount) → Text → Bool → Accounts → Result User × Accounts
  unfolding may_act_on
  set_password_found salt password (err e) actor_module actor_is_admin a = (err e, a)
  set_password_found salt password (ok (u, m)) actor_module actor_is_admin a =
      let write = λ (x : User). record x {
        password_hash = hash_password salt password;
        failed_login_attempts = 0;
      } in
      if may_act_on m.name actor_module actor_is_admin
      then (ok (write u), change_user u.id write a)
      else (err forbidden, a)

  -- `set_password`
  unfoldable pub set_password :
      (salt id : ℕ) → (password actor_module : Text) → Bool → Accounts → Result User × Accounts
  unfolding set_password_found is_strong required_user
  set_password salt id password actor_module actor_is_admin a =
      if is_strong password
      then set_password_found salt password (required_user (get_loaded id a) a) actor_module
          actor_is_admin a
      else (err validation, a)
