-- ===== src/Validation/Report.antt =====
-- What the report of a rejected payload holds.
use core_desappsii.Base.{
  ℕ, zero, suc, ◌+◌, ◌≤◌, ◌≡◌, refl, Bool, true, false, not, ◌&&◌, none, some, List, [], ◌∷◌, ◌++◌,
  arith, if◌then◌else◌, is_some, is_empty, any, take, length, length-take, Bool-cases, inl, inr,
  leb, ltb,
}
use core_desappsii.Json.{Json, truthy}
use core_desappsii.Model.Events.{Detail}
use core_desappsii.Validation.{
  SchemaError, max_reported_errors, same_key, describe, add_details, collect_details,
  report_details, sort_errors, insert_error, violation_of, truncation_detail,
}

-- No two details of the list have one key: none is like one that stands before it.
abbrev pub HasDistinctKeys : List Detail → Type 0
HasDistinctKeys [] = Unit
HasDistinctKeys (d ∷ ds) = (any (λ x. same_key x d) ds ≡ false) × HasDistinctKeys ds

any-append-false :
    (p : Detail → Bool) (xs : List Detail) (y : Detail)
    → any p xs ≡ false
    → p y ≡ false
    → any p (xs ++ y ∷ []) ≡ false
any-append-false p [] y h k = ground arith
any-append-false p (x ∷ xs) y h k = ground (arith, any-append-false p xs y)

HasDistinctKeys-snoc :
    (xs : List Detail) (y : Detail)
    → HasDistinctKeys xs
    → any (λ x. same_key y x) xs ≡ false
    → HasDistinctKeys (xs ++ y ∷ [])
HasDistinctKeys-snoc [] y h k = (refl, tt)
HasDistinctKeys-snoc (x ∷ xs) y h k = elim (Bool-cases (same_key y x)) [
  | inl e ↦ absurd (false_path (rw e at k))
  | inr e ↦
      (any-append-false (λ z. same_key z x) xs y h.0 e, HasDistinctKeys-snoc xs y h.1 (rw e at k))
]
  where
    false_path : true ≡ false → ⊥
    false_path p = cc

add_details-HasDistinctKeys :
    (details ds : List Detail) → HasDistinctKeys details → HasDistinctKeys (add_details details ds)
unfolding add_details
add_details-HasDistinctKeys details [] h = h
add_details-HasDistinctKeys details (d ∷ ds) h =
    elim (Bool-cases (any (λ x. same_key d x) details)) [
      | inl e ↦ rw e (add_details-HasDistinctKeys details ds h)
      | inr e ↦
          rw e (
            add_details-HasDistinctKeys (details ++ d ∷ []) ds (HasDistinctKeys-snoc details d h e))
    ]

collect_details-HasDistinctKeys :
    (details : List Detail) (es : List SchemaError)
    → HasDistinctKeys details
    → HasDistinctKeys (collect_details details es)
unfolding collect_details
collect_details-HasDistinctKeys details [] h = h
collect_details-HasDistinctKeys details (e ∷ es) h =
    let more = add_details details (describe e) in
    let now = keep details (describe e) h in
    elim (Bool-cases (leb 20 (length more))) [
      | inl enough ↦ rw enough now
      | inr few ↦ rw few (collect_details-HasDistinctKeys more es now)
    ]
  where
    keep : (xs ys : List Detail) → HasDistinctKeys xs → HasDistinctKeys (add_details xs ys)
    keep = add_details-HasDistinctKeys

any-take-false :
    (p : Detail → Bool) (n : ℕ) (xs : List Detail) → any p xs ≡ false → any p (take n xs) ≡ false
any-take-false p zero xs h = refl
any-take-false p (suc n) [] h = refl
any-take-false p (suc n) (x ∷ xs) h = ground (arith, any-take-false p n xs)

take-HasDistinctKeys : (n : ℕ) (xs : List Detail) → HasDistinctKeys xs → HasDistinctKeys (take n xs)
take-HasDistinctKeys zero xs h = tt
take-HasDistinctKeys (suc n) [] h = tt
take-HasDistinctKeys (suc n) (x ∷ xs) h =
    (any-take-false (λ z. same_key z x) n xs h.0, take-HasDistinctKeys n xs h.1)

reported : List SchemaError → List Detail
reported errors = take max_reported_errors (collect_details [] errors)

length-insert_error :
    (e : SchemaError) (es : List SchemaError) → length (insert_error e es) ≡ length es + 1
unfolding insert_error
length-insert_error e [] = omega arith
length-insert_error e (f ∷ fs) = ground (arith, length-insert_error e fs)

length-sort_errors : (es : List SchemaError) → length (sort_errors es) ≡ length es
unfolding sort_errors
length-sort_errors [] = refl
length-sort_errors (e ∷ es) =
    omega (arith, length-insert_error e (sort_errors es), length-sort_errors es)

pub report_details_lem :
    (errors : List SchemaError)
    → (shown : List Detail) × (length shown ≤ 20)
      × HasDistinctKeys shown
      × (report_details errors ≡ (
          if ltb 20 (length errors)
          then shown ++ truncation_detail (length errors) ∷ []
          else shown))
unfolding report_details
report_details_lem errors = (
  take 20 (collect_details [] errors),
  omega (arith, length-take 20 (collect_details [] errors)),
  take-HasDistinctKeys 20 (collect_details [] errors)
      (collect_details-HasDistinctKeys [] errors tt),
  refl,
)

is_empty-insert_error :
    (e : SchemaError) (es : List SchemaError) → is_empty (insert_error e es) ≡ false
unfolding insert_error
is_empty-insert_error e [] = refl
is_empty-insert_error e (f ∷ fs) = ground arith

is_empty-sort_errors : (es : List SchemaError) → is_empty (sort_errors es) ≡ is_empty es
unfolding sort_errors
is_empty-sort_errors [] = refl
is_empty-sort_errors (e ∷ es) = is_empty-insert_error e (sort_errors es)

-- A payload is refused exactly when the declared schema is a document with some content and jsonschema
-- reports an error against it; a type with no schema refuses nothing.
pub violation_of-refuses :
    (iter_errors : Json → Json → List SchemaError) (schema payload : Json)
    → (is_some (violation_of iter_errors (some schema) payload)
        ≡ truthy schema && not (is_empty (iter_errors schema payload)))
      × (violation_of iter_errors none payload ≡ none)
unfolding violation_of
violation_of-refuses iter_errors schema payload =
    (ground (arith, is_empty-sort_errors (iter_errors schema payload)), refl)
