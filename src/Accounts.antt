-- ===== src/Accounts.antt =====
-- The accounts of people: backend/app/models/users.py, and the login of backend/app/services/auth_service.py
-- up to the token; Users holds changes of user_service.py.
pub mod Lockout
pub mod Users
pub mod LastActive
pub mod Creation
pub mod Machines
pub mod FirstLogin
pub mod Secrets
mod Samples
use core_desappsii.Base.{
  ℕ, ◌+◌, Bool, true, false, ◌&&◌, ◌||◌, not, Option, none, some, List, ◌==◌, leb, find_one,
  update_rows, filterb, count_rows, if◌then◌else◌,
}
use core_desappsii.Text.{Text, strip, lower, text_eq}
use core_desappsii.Errors.{
  Result, ok, err, not_found, conflict, forbidden, invalid_credentials, account_inactive,
  module_inactive, attribute_error,
}
use core_desappsii.Model.Registry.{ModuleAccount}

pub record User : Type 0 where
  pub id : ℕ
  pub email : Text
  pub password_hash : Text
  pub full_name : Text
  pub module_id : ℕ
  pub active : Bool
  pub last_login_at : Option ℕ
  pub failed_login_attempts : ℕ

pub record Accounts : Type 0 where
  pub users : List User
  pub modules : List ModuleAccount

abbrev pub max_failed_attempts : ℕ
max_failed_attempts = 5

-- `UserRepository.get_by_email`
unfoldable pub get_by_email : Text → Accounts → Option User
get_by_email email a = find_one (λ u. text_eq u.email (lower (strip email))) a.users

abbrev pub get_loaded : ℕ → Accounts → Option User
get_loaded id a = find_one (λ u. u.id == id) a.users

-- `count_active_in_module`
abbrev pub count_active_in_module : ℕ → Accounts → ℕ
count_active_in_module module_id a = count_rows (λ u. u.module_id == module_id && u.active) a.users

abbrev pub save_user : User → Accounts → Accounts
save_user u a = record a { users = update_rows (λ r. r.id == u.id) (λ _. u) a.users }

abbrev pub save_module : ModuleAccount → Accounts → Accounts
save_module m a = record a { modules = update_rows (λ r. r.id == m.id) (λ _. m) a.modules }

-- `record_failed_login`, which commits: the error that the login raises afterwards does not undo it.
unfoldable pub record_failed_login : ℕ → User → User
record_failed_login max_attempts u =
    let attempts = u.failed_login_attempts + 1 in
    record u {
      failed_login_attempts = attempts;
      active = if leb max_attempts attempts then false else u.active;
    }

abbrev pub module_of : User → Accounts → Option ModuleAccount
module_of u a = find_one (λ m. m.id == u.module_id) a.modules

-- The end of `login`: the module, which the foreign key lets never be absent, and the dates.
unfoldable pub admit : ℕ → User → Option ModuleAccount → Accounts → Result User × Accounts
admit now u none a = (err attribute_error, a)
admit now u (some m) a =
    let u' = record u { failed_login_attempts = 0; last_login_at = some now } in
    let m' = record m { last_login_at = some now } in
    if m.active then (ok u', save_module m' (save_user u' a)) else (err module_inactive, a)

-- `login` past the check of the password.
unfoldable pub login_verified : Bool → ℕ → User → Accounts → Result User × Accounts
unfolding record_failed_login admit
login_verified false now u a =
    (err invalid_credentials, save_user (record_failed_login max_failed_attempts u) a)
login_verified true now u a =
    if u.active then admit now u (module_of u a) a else (err account_inactive, a)

-- `verify_password` of the password library is a parameter.
module _ (verify_password : Text → Text → Bool) where
  unfoldable pub login_found : ℕ → Text → Option User → Accounts → Result User × Accounts
  unfolding login_verified
  login_found now password none a = (err invalid_credentials, a)
  login_found now password (some u) a =
      login_verified (verify_password password u.password_hash) now u a

  -- `login`
  unfoldable pub login : ℕ → (email password : Text) → Accounts → Result User × Accounts
  unfolding login_found get_by_email
  login now email password a = login_found now password (get_by_email email a) a
