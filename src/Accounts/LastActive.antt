-- ===== src/Accounts/LastActive.antt =====
-- A team never loses its last active account through `delete`.
use core_desappsii.Base.{
  Option-cases, sym, subst, if◌then◌else◌, find_one-holds, ℕ, ◌+◌, ◌≤◌, ◌≡◌, refl, Bool, true,
  false, not, ◌&&◌, Option, none, some, List, [], ◌∷◌, arith, ◌==◌, ==-eq, leb, find_one, filterb,
  count_rows, Bool-cases, inl, inr,
}
use core_desappsii.Text.{Text}
use core_desappsii.Errors.{Result, ok, err}
use core_desappsii.Model.Registry.{ModuleAccount}
use core_desappsii.Accounts.{User, Accounts, get_loaded, count_active_in_module, module_of}
use core_desappsii.Accounts.Users.{
  required_user, is_not_last_active, may_act_on, delete_user, delete_found, delete,
}

-- No two accounts have one identifier.
abbrev pub HasDistinctIds : Accounts → Type 0
HasDistinctIds a = (i : ℕ) → count_rows (λ u. u.id == i) a.users ≤ 1

count_rows-filterb_none :
    (p q : User → Bool) (xs : List User)
    → count_rows q xs ≡ 0
    → count_rows p (filterb (λ u. not (q u)) xs) ≡ count_rows p xs
count_rows-filterb_none p q [] h = refl
count_rows-filterb_none p q (x ∷ xs) h = ground (arith, count_rows-filterb_none p q xs)

-- Removing the one row that q finds takes it from a count, if it was counted.
count_rows-filterb_one :
    (p q : User → Bool) (xs : List User) (u : User)
    → find_one q xs ≡ some u
    → count_rows q xs ≤ 1
    → count_rows p xs ≡ count_rows p (filterb (λ x. not (q x)) xs) + (if p u then 1 else 0)
count_rows-filterb_one p q [] u found one = cc
count_rows-filterb_one p q (x ∷ xs) u found one = elim (Bool-cases (q x)) [
  | inl e ↦
      let same : p x ≡ p u = same_row (rw e at found) in
      rw e (rw same (ground (arith, count_rows-filterb_none p q xs (omega (arith, rw e at one)))))
  | inr e ↦ rw e (ground (arith, count_rows-filterb_one p q xs u (rw e at found) (rw e at one)))
]
  where
    same_row : some x ≡ some u → p x ≡ p u
    same_row h = cc h

at_least_two : (n : ℕ) → not (leb n 1) ≡ true → 2 ≤ n
at_least_two n h = ground arith

at_least_one :
    (n total : ℕ) (mine active : Bool)
    → total ≡ n + (if mine && active then 1 else 0)
    → 1 ≤ total
    → (mine ≡ true → active ≡ true → 2 ≤ total)
    → 1 ≤ n
at_least_one n total true true counted some_left two = omega (arith, counted, two refl refl)
at_least_one n total true false counted some_left two = omega (arith, counted, some_left)
at_least_one n total false true counted some_left two = omega (arith, counted, some_left)
at_least_one n total false false counted some_left two = omega (arith, counted, some_left)

deleted-active :
    (m id : ℕ) (u : User) (a : Accounts)
    → HasDistinctIds a
    → get_loaded id a ≡ some u
    → is_not_last_active u a ≡ true
    → 1 ≤ count_active_in_module m a
    → 1 ≤ count_active_in_module m (delete_user u.id a)
unfolding is_not_last_active
deleted-active m id u a distinct found allowed some_left =
    let named = ==-eq u.id id (find_one-holds (λ r. r.id == id) a.users u found) in
    let counted =
      count_rows-filterb_one (λ r. r.module_id == m && r.active) (λ r. r.id == u.id) a.users u
        (subst (λ k. find_one (λ r. r.id == k) a.users ≡ some u) (sym named) found)
        (distinct u.id) in
    at_least_one (count_active_in_module m (delete_user u.id a)) (count_active_in_module m a)
      (u.module_id == m) u.active counted some_left two
  where
    two : u.module_id == m ≡ true → u.active ≡ true → 2 ≤ count_active_in_module m a
    two mine active =
        let guard = rw active at allowed in
        subst (λ k. 2 ≤ count_active_in_module k a) (==-eq u.module_id m mine)
          (at_least_two (count_active_in_module u.module_id a) guard)

-- Removing an account of a team: the guard of the service, and what it leaves.
removed-active :
    (m id : ℕ) (r : Result (User × ModuleAccount)) (actor : Text) (admin : Bool) (a : Accounts)
    → HasDistinctIds a
    → ((u : User) (v : ModuleAccount) → r ≡ ok (u, v) → get_loaded id a ≡ some u)
    → 1 ≤ count_active_in_module m a
    → 1 ≤ count_active_in_module m (delete_found r actor admin a).1
unfolding delete_found
removed-active m id (err e) actor admin a distinct found some_left = some_left
removed-active m id (ok (u, v)) actor admin a distinct found some_left =
    elim (Bool-cases (may_act_on v.name actor admin)) [
      | inl e ↦ rw e (elim (Bool-cases (is_not_last_active u a)) [
        | inl allowed ↦
            rw allowed (deleted-active m id u a distinct (found u v refl) allowed some_left)
        | inr refused ↦ rw refused some_left
      ])
      | inr e ↦ rw e some_left
    ]

found-joined :
    (id : ℕ) (o : Option User) (a : Accounts) (u : User) (v : ModuleAccount)
    → required_user o a ≡ ok (u, v)
    → o ≡ some u
unfolding required_user
found-joined id none a u v h = absurd (cc h)
found-joined id (some x) a u v h = elim (Option-cases (module_of x a)) [
  | inl (m, e) ↦ same_user m (rw e at h)
  | inr e ↦ absurd (cc (rw e at h))
]
  where
    same_user :
        (m : ModuleAccount)
        → ◌≡◌ {A = Result (User × ModuleAccount)} (ok (x, m)) (ok (u, v))
        → some x ≡ some u
    same_user m h = cc h

-- Where no two accounts share an identifier, deleting any account, by any caller, leaves every module
-- that had an active account with at least one.
pub delete-active :
    (m id : ℕ) (actor : Text) (admin : Bool) (a : Accounts)
    → HasDistinctIds a
    → 1 ≤ count_active_in_module m a
    → 1 ≤ count_active_in_module m (delete id actor admin a).1
unfolding delete
delete-active m id actor admin a distinct some_left =
    removed-active m id (required_user (get_loaded id a) a) actor admin a distinct
      (λ u v h. found-joined id (get_loaded id a) a u v h) some_left
