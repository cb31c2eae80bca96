-- ===== src/Accounts/FirstLogin.antt =====
-- An account that was created lets its person in.
use core_desappsii.Base.{
  ℕ, ◌≡◌, refl, ap, ◌∙◌, subst, Bool, true, false, not, Option, none, some, [], ◌∷◌, find_one,
  find_one-append_right, is_some, add_row, if◌then◌else◌,
}
use core_desappsii.Text.{Text, strip, lower, text_eq, text_eq_refl}
use core_desappsii.Text.Strip.{normal_lem}
use core_desappsii.Errors.{Result, ok, err, forbidden, validation, conflict}
use core_desappsii.Model.Registry.{ModuleAccount}
use core_desappsii.Accounts.{
  User, Accounts, get_by_email, module_of, admit, login_verified, login_found, login,
}
use core_desappsii.Accounts.Users.{may_act_on}
use core_desappsii.Accounts.Creation.{
  UserForm, is_strong, module_named, target_module_of, new_user, create_in, create,
}

module _ (hash_password : ℕ → Text → Text) (new_id salt : ℕ) (form : UserForm) where
  -- What a call that created `u` has done.
  abbrev IsCreated : User → Accounts → Result User × Accounts → Type 0
  IsCreated u a result =
      (m : ModuleAccount) × (u ≡ new_user hash_password new_id salt form m)
      × (result.1 ≡ record a { users = add_row u a.users })

  ok-ok : (u v : User) → ◌≡◌ {A = Result User} (ok u) (ok v) → v ≡ u
  ok-ok u v h = cc h

  create_in-IsCreated :
      (u : User) (o : Option ModuleAccount) (a : Accounts)
      → ◌≡◌ {A = Result User} (create_in hash_password new_id salt form o a).0 (ok u)
      → IsCreated u a (create_in hash_password new_id salt form o a)
  unfolding create_in
  create_in-IsCreated u none a h = absurd (cc h)
  create_in-IsCreated u (some m) a h =
      let same = ok-ok (new_user hash_password new_id salt form m) u h in (m, same, rw same refl)

  -- The email was free, and the row was added.
  create-IsCreated :
      (u : User) (actor_module : Text) (actor_is_admin : Bool) (a : Accounts)
      → ◌≡◌ {A = Result User}
          (create hash_password new_id salt form actor_module actor_is_admin a).0
          (ok u)
      → (is_some (get_by_email (lower (strip form.email)) a) ≡ false)
        × IsCreated u a (create hash_password new_id salt form actor_module actor_is_admin a)
  unfolding create
  create-IsCreated u actor_module actor_is_admin a =
      go (not (may_act_on target actor_module actor_is_admin)) (not (is_strong form.password))
        (is_some (get_by_email (lower (strip form.email)) a))
    where
      target : Text
      target = target_module_of form.module_name actor_module

      rest : Result User × Accounts
      rest = create_in hash_password new_id salt form (module_named target a) a

      go :
          (b c d : Bool)
          → let result : Result User × Accounts =
              if b
              then (err forbidden, a)
              else if c
              then (err validation, a)
              else if d
              then (err conflict, a)
              else rest in
            ◌≡◌ {A = Result User} result.0 (ok u) → (d ≡ false) × IsCreated u a result
      go true c d h = absurd (cc h)
      go false true d h = absurd (cc h)
      go false false true h = absurd (cc h)
      go false false false h = (refl, create_in-IsCreated u (module_named target a) a h)

-- The account that was added is the one that its email finds.
found_by_email :
    (u : User) (email : Text) (a : Accounts)
    → u.email ≡ lower (strip email)
    → is_some (get_by_email (lower (strip email)) a) ≡ false
    → get_by_email email (record a { users = add_row u a.users }) ≡ some u
unfolding get_by_email
found_by_email u email a named free =
    find_one-append_right (λ r. text_eq r.email (lower (strip email))) a.users (u ∷ [])
      (nobody (find_one (λ r. text_eq r.email (lower (strip email))) a.users) (
        subst (λ t. is_some (find_one (λ r. text_eq r.email t) a.users) ≡ false) (normal_lem email)
          free))
    ∙ rw (named, text_eq_refl (lower (strip email))) refl
  where
    nobody : (o : Option User) → is_some o ≡ false → o ≡ none
    nobody none h = refl
    nobody (some r) h = absurd (cc h)

-- Whoever the email belongs to with the right password is let in.
admitted :
    (verify_password : Text → Text → Bool) (now : ℕ) (email password : Text) (u : User)
    (m : ModuleAccount) (a : Accounts)
    → get_by_email email a ≡ some u
    → verify_password password u.password_hash ≡ true
    → u.active ≡ true
    → module_of u a ≡ some m
    → m.active ≡ true
    → ◌≡◌ {A = Result User}
        (login verify_password now email password a).0
        (ok (record u { failed_login_attempts = 0; last_login_at = some now }))
unfolding login login_found login_verified admit
admitted verify_password now email password u m a found right unlocked joins runs =
    rw (found, right) (rw unlocked (rw joins (rw runs refl)))

-- When an account was created, by whatever caller, its person can log in with the email and the
-- password of the form as they were given, if the module that the account joins is active: the login
-- returns that account, not another. bcrypt accepts a password against its own hash, whatever the salt.
pub create-login :
    (hash_password : ℕ → Text → Text) (verify_password : Text → Text → Bool) (new_id salt now : ℕ)
    (form : UserForm) (actor_module : Text) (actor_is_admin : Bool) (a : Accounts) (u : User)
    (m : ModuleAccount)
    → ((s : ℕ) (password : Text) → verify_password password (hash_password s password) ≡ true)
    → ◌≡◌ {A = Result User}
        (create hash_password new_id salt form actor_module actor_is_admin a).0
        (ok u)
    → module_of u a ≡ some m
    → m.active ≡ true
    → let after = (create hash_password new_id salt form actor_module actor_is_admin a).1 in
      ◌≡◌ {A = Result User}
        (login verify_password now form.email form.password after).0
        (ok (record u { failed_login_attempts = 0; last_login_at = some now }))
unfolding new_user
create-login hash_password verify_password new_id salt now form actor_module actor_is_admin a u m
      accepts created joins runs =
    let (free, (m0, same, rows)) =
      create-IsCreated hash_password new_id salt form u actor_module actor_is_admin a created in
    let email : u.email ≡ lower (strip form.email) = ap (λ (x : User). x.email) same in
    let right : verify_password form.password u.password_hash ≡ true =
      rw same (accepts salt form.password) in
    rw rows (
      admitted verify_password now form.email form.password u m
        (record a { users = add_row u a.users }) (found_by_email u form.email a email free) right
        (ap (λ (x : User). x.active) same) joins runs)
