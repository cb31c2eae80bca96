-- ===== src/Accounts/Machines.antt =====
-- The machine secrets of backend/app/services/auth_service.py: `issue_module_token` up to the token, and
-- `rotate_module_secret`. The hash of a secret is a parameter, as is the secret generated.
use core_desappsii.Base.{not, Option, none, some, is_empty, if◌then◌else◌}
use core_desappsii.Text.{Text, text_eq}
use core_desappsii.Errors.{Result, ok, err, invalid_credentials, module_inactive}
use core_desappsii.Model.Registry.{ModuleAccount}
use core_desappsii.Accounts.{Accounts, save_module}
use core_desappsii.Accounts.Creation.{module_named}

module _ (hash_opaque_token : Text → Text) where
  -- The checks of `issue_module_token` on a module and the hash that it keeps.
  unfoldable pub issue_checked : Text → ModuleAccount → Option Text → Result ModuleAccount
  issue_checked secret m none = err invalid_credentials
  issue_checked secret m (some hash) =
      if is_empty hash
      then err invalid_credentials
      else if not (text_eq (hash_opaque_token secret) hash)
      then err invalid_credentials
      else if m.active
      then ok m
      else err module_inactive

  unfoldable pub issue_found : Text → Option ModuleAccount → Result ModuleAccount
  unfolding issue_checked
  issue_found secret none = err invalid_credentials
  issue_found secret (some m) = issue_checked secret m m.secret_hash

  -- `issue_module_token`: the module that the token is for.
  unfoldable pub issue_module_token : (module_name secret : Text) → Accounts → Result ModuleAccount
  unfolding issue_found module_named
  issue_module_token module_name secret a = issue_found secret (module_named module_name a)

  -- `rotate_module_secret`, with the secret that it returns.
  unfoldable pub rotate_module_secret : (secret : Text) → ModuleAccount → Accounts → Accounts
  rotate_module_secret secret m a =
      save_module (record m { secret_hash = some (hash_opaque_token secret) }) a
