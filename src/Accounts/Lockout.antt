-- ===== src/Accounts/Lockout.antt =====
-- Wrong passwords lock an account.
use core_desappsii.Base.{
  All, length, subst, inl, inr, Bool-cases, ℕ, suc, ◌+◌, ◌≤◌, ◌≡◌, refl, ◌∙◌, Bool, true, false,
  some, List, [], ◌∷◌, arith, ◌==◌, ==_refl, leb, find_one, find_one-holds, update_rows,
  if◌then◌else◌,
}
use core_desappsii.Text.{Text, strip, lower, text_eq}
use core_desappsii.Errors.{is_ok}
use core_desappsii.Accounts.{
  User, Accounts, max_failed_attempts, get_by_email, save_user, record_failed_login, login_verified,
  login_found, login,
}

find_one-update_rows :
    (p q : User → Bool) (xs : List User) (x y : User)
    → find_one p xs ≡ some x
    → q x ≡ true
    → p y ≡ true
    → find_one p (update_rows q (λ _. y) xs) ≡ some y
find_one-update_rows p q [] x y h k l = cc
find_one-update_rows p q (z ∷ zs) x y h k l = ground (arith, find_one-update_rows p q zs x y)

get_by_email-save_user :
    (email : Text) (u u' : User) (a : Accounts)
    → get_by_email email a ≡ some u
    → u'.id ≡ u.id
    → u'.email ≡ u.email
    → get_by_email email (save_user u' a) ≡ some u'
unfolding get_by_email
get_by_email-save_user email u u' a found same_id same_email =
    find_one-update_rows (λ r. text_eq r.email (lower (strip email))) (λ r. r.id == u'.id) a.users u
      u' found (rw same_id (==_refl u.id))
      (rw same_email (find_one-holds (λ r. text_eq r.email (lower (strip email))) a.users u found))

-- The account of an address after some wrong passwords: how many are counted, and whether it is locked.
abbrev pub HasFailed : Text → Text → ℕ → Accounts → Type 0
HasFailed email hash attempts a =
    (u : User) × (get_by_email email a ≡ some u)
    × (u.password_hash ≡ hash)
    × (u.failed_login_attempts ≡ attempts)
    × ((if leb max_failed_attempts attempts then u.active else false) ≡ false)

module _ (verify_password : Text → Text → Bool) where
  -- Logins by one address, each at its time and with its own password.
  unfoldable pub logins : (email : Text) → List (ℕ × Text) → Accounts → Accounts
  unfolding login
  logins email [] a = a
  logins email ((now, password) ∷ tries) a =
      logins email tries (login verify_password now email password a).1

  wrong_login :
      (now : ℕ) (email password : Text) (u : User) (a : Accounts)
      → get_by_email email a ≡ some u
      → verify_password password u.password_hash ≡ false
      → HasFailed email u.password_hash
          (u.failed_login_attempts + 1)
          (login verify_password now email password a).1
  unfolding login login_found login_verified record_failed_login
  wrong_login now email password u a found wrong =
      let u' = record_failed_login max_failed_attempts u in
      rw found
        (rw wrong (u', get_by_email-save_user email u u' a found refl refl, refl, refl, locked u))
    where
      locked :
          (u : User)
          → (if leb max_failed_attempts (u.failed_login_attempts + 1)
              then (record_failed_login max_failed_attempts u).active
              else false)
            ≡ false
      locked u = ground arith

  logins-HasFailed :
      (tries : List (ℕ × Text)) (now : ℕ) (email password : Text) (u : User) (a : Accounts)
      → get_by_email email a ≡ some u
      → verify_password password u.password_hash ≡ false
      → All (λ t. verify_password t.1 u.password_hash ≡ false) tries
      → HasFailed email u.password_hash
          (u.failed_login_attempts + suc (length tries))
          (logins email ((now, password) ∷ tries) a)
  unfolding logins
  logins-HasFailed [] now email password u a found wrong rest =
      wrong_login now email password u a found wrong
  logins-HasFailed ((later, next) ∷ tries) now email password u a found wrong rest =
      let (u', found', same, counted, _) = wrong_login now email password u a found wrong in
      let (v, there, hash, attempts, locked) =
        logins-HasFailed tries later email next u' (login verify_password now email password a).1
          found' (rw same rest.0) (rw same rest.1) in
      let total : u'.failed_login_attempts + suc (length tries)
          ≡ u.failed_login_attempts + suc (suc (length tries)) =
        omega (arith, counted) in
      (
        v,
        there,
        hash ∙ same,
        attempts ∙ total,
        subst (λ k. (if leb max_failed_attempts k then v.active else false) ≡ false) total locked,
      )

  inactive-refused :
      (now : ℕ) (email password : Text) (u : User) (a : Accounts)
      → get_by_email email a ≡ some u
      → u.active ≡ false
      → is_ok (login verify_password now email password a).0 ≡ false
  unfolding login login_found login_verified
  inactive-refused now email password u a found locked =
      rw found (elim (Bool-cases (verify_password password u.password_hash)) [
        | inl e ↦ rw e (rw locked refl)
        | inr e ↦ rw e refl
      ])

  -- Once wrong passwords, the same or different ones, at any times, have been given for an account as
  -- often as its count needs to reach five, at least once, no login by its address succeeds any more,
  -- whatever the password, the right one included.
  pub login-lockout :
      (tries : List (ℕ × Text)) (now later : ℕ) (email wrong_password password : Text) (u : User)
      (a : Accounts)
      → get_by_email email a ≡ some u
      → verify_password wrong_password u.password_hash ≡ false
      → All (λ t. verify_password t.1 u.password_hash ≡ false) tries
      → 5 ≤ u.failed_login_attempts + suc (length tries)
      → is_ok
          (login verify_password later email password
            (logins email ((now, wrong_password) ∷ tries) a)).0
        ≡ false
  login-lockout tries now later email wrong_password password u a found wrong rest enough =
      let (v, there, _, attempts, locked) =
        logins-HasFailed tries now email wrong_password u a found wrong rest in
      inactive-refused later email password v (logins email ((now, wrong_password) ∷ tries) a) there
        (reached v.active (u.failed_login_attempts + suc (length tries)) enough locked)
    where
      reached :
          (b : Bool) (k : ℕ)
          → 5 ≤ k
          → (if leb max_failed_attempts k then b else false) ≡ false
          → b ≡ false
      reached b k h locked = ground arith
