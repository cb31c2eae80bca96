-- ===== src/Stats/Alerts/Pairs.antt =====
-- `_similar_name_alerts` looks at every pair of names once.
use core_desappsii.Base.{
  ◌≡◌, refl, ap, Bool, true, false, List, [], ◌∷◌, ◌++◌, any, map, filterb, Bool-cases, inl, inr,
  arith,
}
use core_desappsii.Text.{Text, text_eq, text_eq-eq, text_eq_refl}
use core_desappsii.Stats.Words.{is_near_duplicate}
use core_desappsii.Stats.Alerts.{Alert}
use core_desappsii.Stats.Alerts.Names.{
  similar_name_alerts, name_alerts, pair_alerts, similar_alert, is_seen_pair,
}

-- No text stands twice.
abbrev pub HasDistinctTexts : List Text → Type 0
HasDistinctTexts [] = Unit
HasDistinctTexts (x ∷ xs) = (any (λ y. text_eq y x) xs ≡ false) × HasDistinctTexts xs

module _ (producers consumers : List (Text × List Text)) where
  -- An alert for each name and each later one that is nearly the same.
  unfoldable pub near_pairs : List Text → List Alert
  unfolding is_near_duplicate similar_alert
  near_pairs [] = []
  near_pairs (left ∷ names) =
      map (similar_alert producers consumers left) (filterb (is_near_duplicate left) names)
      ++ near_pairs names

  -- No pair of `left` with one of the names is in `seen`.
  abbrev IsFreshPair : Text → List Text → List (Text × Text) → Type 0
  IsFreshPair left rights seen =
      (r : Text) → any (λ y. text_eq y r) rights ≡ true → is_seen_pair left r seen ≡ false

  IsFreshPair-added :
      (left right : Text) (rights : List Text) (seen : List (Text × Text))
      → any (λ y. text_eq y right) rights ≡ false
      → IsFreshPair left (right ∷ rights) seen
      → IsFreshPair left rights ((left, right) ∷ seen)
  IsFreshPair-added left right rights seen d fresh r m = elim (Bool-cases (text_eq right r)) [
    | inl e ↦ absurd (cc (d, m, ap (λ r. any (λ y. text_eq y r) rights) (text_eq-eq right r e)))
    | inr e ↦ ground (arith, fresh r)
  ]

  pair_alerts_lem :
      (left : Text) (rights : List Text) (seen : List (Text × Text))
      → HasDistinctTexts rights
      → IsFreshPair left rights seen
      → (pair_alerts producers consumers left rights seen).0
        ≡ map (similar_alert producers consumers left) (filterb (is_near_duplicate left) rights)
  unfolding pair_alerts
  pair_alerts_lem left [] seen d fresh = refl
  pair_alerts_lem left (right ∷ rights) seen d fresh =
      rw (fresh right (ground (arith, text_eq_refl right)))
        (elim (Bool-cases (is_near_duplicate left right)) [
          | inl e ↦ rw e (
              ap (λ l. similar_alert producers consumers left right ∷ l)
                (pair_alerts_lem left rights ((left, right) ∷ seen) d.1
                  (IsFreshPair-added left right rights seen d.0 fresh)))
          | inr e ↦ rw e (pair_alerts_lem left rights seen d.1 (λ r m. fresh r (ground (arith, m))))
        ])

  -- No pair of `seen` begins with that name.
  abbrev is_first : Text → List (Text × Text) → Bool
  is_first name seen = any (λ p. text_eq p.0 name) seen

  is_seen_pair-is_first :
      (left right : Text) (seen : List (Text × Text))
      → is_first left seen ≡ false
      → is_seen_pair left right seen ≡ false
  is_seen_pair-is_first left right [] h = refl
  is_seen_pair-is_first left right (p ∷ seen) h =
      ground (arith, is_seen_pair-is_first left right seen)

  pair_alerts_first :
      (left name : Text) (rights : List Text) (seen : List (Text × Text))
      → text_eq left name ≡ false
      → is_first name seen ≡ false
      → is_first name (pair_alerts producers consumers left rights seen).1 ≡ false
  unfolding pair_alerts
  pair_alerts_first left name [] seen n h = h
  pair_alerts_first left name (right ∷ rights) seen n h = ground (
    arith,
    pair_alerts_first left name rights seen n h,
    pair_alerts_first left name rights ((left, right) ∷ seen) n (ground arith),
  )

  name_alerts_lem :
      (names : List Text) (seen : List (Text × Text))
      → HasDistinctTexts names
      → ((name : Text) → any (λ y. text_eq y name) names ≡ true → is_first name seen ≡ false)
      → name_alerts producers consumers names seen ≡ near_pairs names
  unfolding name_alerts near_pairs
  name_alerts_lem [] seen d fresh = refl
  name_alerts_lem (left ∷ names) seen d fresh =
      rw
        (
          pair_alerts_lem left names seen d.1 (λ r m.
              is_seen_pair-is_first left r seen (fresh left (ground (arith, text_eq_refl left)))),
          name_alerts_lem names (pair_alerts producers consumers left names seen).1 d.1 (λ name m.
              pair_alerts_first left name names seen (differs name m)
                (fresh name (ground (arith, m)))),
        )
        refl
    where
      differs : (name : Text) → any (λ y. text_eq y name) names ≡ true → text_eq left name ≡ false
      differs name m = elim (Bool-cases (text_eq left name)) [
        | inr e ↦ e
        | inl e ↦
            absurd (cc (d.0, m, ap (λ r. any (λ y. text_eq y r) names) (text_eq-eq left name e)))
      ]

-- On names that differ from each other, `_similar_name_alerts` is the list of the alerts of the
-- pairs that `_is_near_duplicate` accepts, each pair of positions once and the earlier name
-- first: its set `seen` drops none.
pub similar_name_alerts-near_pairs :
    (producers consumers : List (Text × List Text)) (names : List Text)
    → HasDistinctTexts names
    → similar_name_alerts producers consumers names ≡ near_pairs producers consumers names
unfolding similar_name_alerts
similar_name_alerts-near_pairs producers consumers names d =
    name_alerts_lem producers consumers names [] d (λ name m. refl)
