-- ===== src/Accounts/Secrets.antt =====
-- The secret of a module, after it was rotated.
use core_desappsii.Base.{
  ◌≡◌, refl, Bool, true, false, some, List, [], ◌∷◌, arith, find_one, find_one-holds, update_rows,
  ◌==◌, ==_refl, is_empty, Bool-cases, inl, inr, if◌then◌else◌,
}
use core_desappsii.Text.{Text, strip, lower, text_eq}
use core_desappsii.Errors.{Result, ok, err, invalid_credentials}
use core_desappsii.Model.Registry.{ModuleAccount}
use core_desappsii.Accounts.{Accounts}
use core_desappsii.Accounts.Creation.{module_named}
use core_desappsii.Accounts.Machines.{
  issue_checked, issue_found, issue_module_token, rotate_module_secret,
}

-- Writing over the row that a query finds, where the new row answers the query as well.
find_one-write_over :
    (p : ModuleAccount → Bool) (ms : List ModuleAccount) (m new : ModuleAccount)
    → find_one p ms ≡ some m
    → p new ≡ true
    → find_one p (update_rows (λ r. r.id == m.id) (λ _. new) ms) ≡ some new
find_one-write_over p [] m new found h = absurd (cc found)
find_one-write_over p (x ∷ xs) m new found h = elim (Bool-cases (p x)) [
  | inl e ↦ let same : x ≡ m = first (rw e at found) in rw (same, ==_refl m.id, h) refl
  | inr e ↦ ground (arith, find_one-write_over p xs m new (rw e at found) h)
]
  where
    first : some x ≡ some m → x ≡ m
    first k = cc k

module _ (hash_opaque_token : Text → Text) where
  -- The row that the rotation leaves.
  abbrev pub rotated : Text → ModuleAccount → ModuleAccount
  rotated secret m = record m { secret_hash = some (hash_opaque_token secret) }

  rotated_found :
      (name secret : Text) (m : ModuleAccount) (a : Accounts)
      → module_named name a ≡ some m
      → module_named name (rotate_module_secret hash_opaque_token secret m a)
        ≡ some (rotated secret m)
  unfolding module_named rotate_module_secret
  rotated_found name secret m a found =
      find_one-write_over (λ r. text_eq r.name (lower (strip name))) a.modules m (rotated secret m)
        found (find_one-holds (λ r. text_eq r.name (lower (strip name))) a.modules m found)

  -- After the secret of an active module was rotated, a token for the module, by any spelling of its name
  -- that finds it, is issued for exactly the secrets with the hash of the new one; any other, the old
  -- one among them, is refused as an invalid credential. The hash is never the empty text.
  pub rotate-issue :
      (name secret given : Text) (m : ModuleAccount) (a : Accounts)
      → module_named name a ≡ some m
      → m.active ≡ true
      → is_empty (hash_opaque_token secret) ≡ false
      → ◌≡◌ {A = Result ModuleAccount}
          (issue_module_token hash_opaque_token name given
            (rotate_module_secret hash_opaque_token secret m a))
          (if text_eq (hash_opaque_token given) (hash_opaque_token secret)
            then ok (rotated secret m)
            else err invalid_credentials)
  unfolding issue_module_token issue_found issue_checked
  rotate-issue name secret given m a found runs hashed = rw (rotated_found name secret m a found) (
      rw hashed (elim (Bool-cases (text_eq (hash_opaque_token given) (hash_opaque_token secret))) [
        | inl e ↦ rw (e, runs) refl
        | inr e ↦ rw e refl
      ]))
