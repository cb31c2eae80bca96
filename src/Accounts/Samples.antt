-- ===== src/Accounts/Samples.antt =====
-- An account that is locked by its fifth wrong password.
use core_desappsii.Base.{List, ℕ, ◌≤◌, some, ◌≡◌, refl, true, false, none, [], ◌∷◌, arith}
use core_desappsii.Accounts.Creation.{UserForm, new_user, is_strong, create, set_password}
use core_desappsii.Accounts.FirstLogin.{create-login}
use core_desappsii.Accounts.Machines.{issue_module_token, rotate_module_secret}
use core_desappsii.Accounts.Secrets.{rotate-issue}
use core_desappsii.Text.{Text, text_eq_refl, lit, text_eq, strip, lower}
use core_desappsii.Errors.{validation, forbidden, invalid_credentials, ok, is_ok, err, conflict}
use core_desappsii.Hub.Samples.{sample_module}
use core_desappsii.Accounts.{User, Accounts, login, count_active_in_module}
use core_desappsii.Accounts.Users.{update, delete}
use core_desappsii.Accounts.LastActive.{delete-active}
use core_desappsii.Accounts.Lockout.{logins, login-lockout}

abbrev ana : User
ana = record {
  id = 3;
  email = lit "ana@obras";
  password_hash = lit "clave1";
  full_name = lit "Ana";
  module_id = 1;
  active = true;
  last_login_at = none;
  failed_login_attempts = 0;
}

abbrev office : Accounts
office = record { users = ana ∷ []; modules = sample_module 1 (lit "obras") ∷ [] }

-- Four wrong passwords, one after the other.
abbrev guesses : List (ℕ × Text)
guesses = (1, lit "x") ∷ (2, lit "y") ∷ (3, lit "x") ∷ (4, lit "clave") ∷ []

program : Unit {0}
unfolding login logins update delete text_eq strip lower lit
program = tt

still_open :
    is_ok
      (login text_eq 9
        (lit " Ana@obras")
        (lit "clave1")
        (logins text_eq (lit "ana@obras") guesses office)).0
    ≡ true
unfolding program
still_open = refl

login-lockout_example :
    is_ok
      (login text_eq 9
        (lit "ana@obras")
        (lit "clave1")
        (logins text_eq (lit "ana@obras") ((5, lit "z") ∷ guesses) office)).0
    ≡ false
unfolding program
login-lockout_example =
    login-lockout text_eq guesses 5 9 (lit "ana@obras") (lit "z") (lit "clave1") ana office refl
      refl (refl, (refl, (refl, (refl, tt)))) (omega arith)

abbrev team : Accounts
team = record office { users = ana ∷ record ana { id = 4; email = lit "eva@obras" } ∷ [] }

-- The second of two accounts can be deleted, the one that is left cannot.
deletions :
    (is_ok (delete 4 (lit "obras") false team).0 ≡ true)
    × ((delete 3 (lit "obras") false (delete 4 (lit "obras") false team).1).0 ≡ err conflict)
    × (is_ok (update 3 none (some false) (lit "obras") false office).0 ≡ false)
unfolding program
deletions = (refl, refl, refl)

delete-active_example : 1 ≤ count_active_in_module 1 (delete 3 (lit "obras") false team).1
delete-active_example = delete-active 1 3 (lit "obras") false team (λ i. ground arith) (omega arith)

abbrev eva_form : UserForm
eva_form = record {
  email = lit " Eva@Obras ";
  password = lit "clave-22";
  full_name = lit " Eva ";
  module_name = none;
}

-- A hash that keeps the password as it is.
abbrev plain_hash : ℕ → Text → Text
plain_hash salt password = password

creation : Unit {0}
unfolding program create is_strong new_user set_password issue_module_token rotate_module_secret
creation = tt

abbrev eva : User
eva = new_user plain_hash 8 0 eva_form (sample_module 1 (lit "obras"))

-- A second account with the email is refused, and a password of letters only.
refusals :
    ((create plain_hash 9 0 eva_form
        (lit "obras")
        false
        (create plain_hash 8 0 eva_form (lit "obras") false office).1).0
      ≡ err conflict)
    × ((create plain_hash 8 0
          (record eva_form { password = lit "clavelarga" })
          (lit "obras")
          false
          office).0
        ≡ err validation)
    × ((set_password plain_hash 0 3 (lit "clave-22") (lit "rentas") false office).0 ≡ err forbidden)
unfolding creation
refusals = (refl, refl, refl)

create-login_example :
    (login text_eq 9
      (lit " Eva@Obras ")
      (lit "clave-22")
      (create plain_hash 8 0 eva_form (lit "obras") false office).1).0
    ≡ ok (record eva { failed_login_attempts = 0; last_login_at = some 9 })
unfolding creation
create-login_example =
    create-login plain_hash text_eq 8 0 9 eva_form (lit "obras") false office eva
      (sample_module 1 (lit "obras")) (λ s password. text_eq_refl password) refl refl refl

rotate-issue_example :
    issue_module_token
      (λ t. t)
      (lit " Obras")
      (lit "old")
      (rotate_module_secret (λ t. t) (lit "new") (sample_module 1 (lit "obras")) office)
    ≡ err invalid_credentials
unfolding creation
rotate-issue_example =
    rotate-issue (λ t. t) (lit " Obras") (lit "new") (lit "old") (sample_module 1 (lit "obras"))
      office refl refl refl
