-- ===== src/Delivery/Operator/Resolution.antt =====
-- What an operator's retry or discard leaves on record.
use core_desappsii.Base.{
  length-update_rows, find_one-holds, ◌∙◌, ℕ, ◌+◌, ◌≡◌, refl, sym, subst, inl, inr, true, false,
  Option, none, some, List, [], ◌∷◌, ◌++◌, length, is_empty, same_id, ==_refl, find_one,
  find_one-update_rows_self, update_rows, Option-cases, Bool-cases,
}
use core_desappsii.Base.Selections.{same_id-eq}
use core_desappsii.Text.{Text, strip}
use core_desappsii.Errors.{Result, ok, err, conflict}
use core_desappsii.Model.Events.{DeadLetter, DeadLetterStatus, retried, RetryAudit}
use core_desappsii.World.{Env, World, save_dead_letter}
use core_desappsii.Repositories.Events.{get_dead_letter, retries_of}
use core_desappsii.Delivery.Letters.{RetryOutcome}
use core_desappsii.Delivery.Operator.Outcomes.{is_open}
use core_desappsii.Delivery.Operator.Choice.{retry_by_reason}
use core_desappsii.Delivery.Operator.Retry.{
  manual_audit, resolved_letter, resolve, retry_found, retry_dead_letter,
}
use core_desappsii.Delivery.Operator.Discard.{discard_found, discard_dead_letter}
use core_desappsii.Delivery.Operator.Steps.{IsStep, retry_by_reason-IsStep}

-- A retry that raises changes nothing; one that returns adds one audit, that of its outcome, and
-- removes no dead letter.
abbrev pub IsAudited : Env → DeadLetter → World → Result RetryOutcome × World → Type 0
IsAudited env d before (ok o, after) =
    (earlier : List RetryAudit) × (length earlier ≡ length before.audits)
    × (after.audits ≡ earlier ++ manual_audit env d o (length (retries_of d before) + 1) ∷ [])
    × (length after.dead_letters ≡ length before.dead_letters)
IsAudited env d before (err e, after) = after ≡ before

abbrev pub HasStatus : ℕ → DeadLetterStatus → World → Type 0
HasStatus id s w = (d : DeadLetter) × (get_dead_letter id w ≡ some d) × (d.status ≡ s)

get_dead_letter-save :
    (id : ℕ) (d d' : DeadLetter) (w : World)
    → get_dead_letter id w ≡ some d
    → d'.id ≡ some id
    → get_dead_letter id (save_dead_letter d' w) ≡ some d'
unfolding save_dead_letter
get_dead_letter-save id d d' w found named =
    subst
      (λ k.
        find_one (λ r. same_id r.id (some id))
          (update_rows (λ r. same_id r.id k) (λ _. d') w.dead_letters)
        ≡ some d')
      (sym named)
      (find_one-update_rows_self (λ r. same_id r.id (some id)) w.dead_letters d d' found
        (rw (named, ==_refl)))

module _ (env : Env) where
  resolve-retried :
      (id : ℕ) (d : DeadLetter) (n : ℕ) (o : RetryOutcome) (p : Result RetryOutcome × World)
      (w : World)
      → get_dead_letter id w ≡ some d
      → d.id ≡ some id
      → IsStep w p
      → (resolve env d n p).0 ≡ ok o
      → o.is_success ≡ true
      → HasStatus id retried (resolve env d n p).1
  unfolding resolve save_dead_letter resolved_letter
  resolve-retried id d n o (err e, w') w found named step returned success = absurd (cc returned)
  resolve-retried id d n o (ok o', w') w found named (_, _, still) returned success =
      elim (Bool-cases o'.is_success) [
        | inl e ↦ elim (Option-cases (get_dead_letter id w')) [
          | inl (d0, there) ↦
              rw e
                (_, get_dead_letter-save id d0 (resolved_letter env d o' w') w' there named, refl)
          | inr gone ↦ absurd (cc (gone, still id (rw found refl)))
        ]
        | inr e ↦ absurd (cc (rw e at returned))
      ]

  -- The two operations on a letter that is closed.
  closed-conflict :
      (id : ℕ) (d : DeadLetter) (w : World)
      → get_dead_letter id w ≡ some d
      → is_open d.status ≡ false
      → (retry_dead_letter env id w ≡ (err conflict, w))
        × ((reason : Text) → discard_dead_letter env id reason w ≡ (err conflict, w))
  unfolding retry_dead_letter retry_found discard_dead_letter discard_found
  closed-conflict id d w found closed = rw found (
      rw closed (
        refl,
        λ reason. elim (Bool-cases (is_empty (strip reason))) [
          | inl e ↦ rw e refl
          | inr e ↦ rw e refl
        ],
      ))

  retry_found-retried :
      (id : ℕ) (d : DeadLetter) (o : RetryOutcome) (w : World)
      → get_dead_letter id w ≡ some d
      → d.id ≡ some id
      → is_open d.status ≡ true
      → (retry_found env (some d) w).0 ≡ ok o
      → o.is_success ≡ true
      → HasStatus id retried (retry_found env (some d) w).1
  unfolding retry_found
  retry_found-retried id d o w found named is returned success =
      let n = length (retries_of d w) + 1 in
      rw is (
        resolve-retried id d n o (retry_by_reason env d n d.reason_code w) w found named
          (retry_by_reason-IsStep env d n d.reason_code w) (rw is at returned) success)

  resolved_once :
      (id : ℕ) (found : Option DeadLetter) (o : RetryOutcome) (w : World)
      → get_dead_letter id w ≡ found
      → (retry_found env found w).0 ≡ ok o
      → o.is_success ≡ true
      → HasStatus id retried (retry_found env found w).1
  unfolding retry_found
  resolved_once id none o w found returned success = absurd (cc returned)
  resolved_once id (some d) o w found returned success = elim (Bool-cases (is_open d.status)) [
    | inl e ↦
        retry_found-retried id d o w found
          (same_id-eq d.id id (find_one-holds (λ r. same_id r.id (some id)) w.dead_letters d found))
          e returned success
    | inr e ↦ absurd (cc (rw e at returned))
  ]

  -- A dead letter is resolved only once: after a retry of it that succeeds it is marked as retried, and
  -- retrying it again, or discarding it for any reason, raises a conflict and changes nothing.
  pub retry_dead_letter-once :
      (id : ℕ) (o : RetryOutcome) (w : World) (reason : Text)
      → (retry_dead_letter env id w).0 ≡ ok o
      → o.is_success ≡ true
      → HasStatus id retried (retry_dead_letter env id w).1
        × (retry_dead_letter env id (retry_dead_letter env id w).1
            ≡ (err conflict, (retry_dead_letter env id w).1))
        × (discard_dead_letter env id reason (retry_dead_letter env id w).1
            ≡ (err conflict, (retry_dead_letter env id w).1))
  unfolding retry_dead_letter
  retry_dead_letter-once id o w reason returned success =
      let (d, found, status) = resolved_once id (get_dead_letter id w) o w refl returned success in
      let (again, discards) =
        closed-conflict id d (retry_dead_letter env id w).1 found (rw status refl) in
      ((d, found, status), again, discards reason)

  length-save_dead_letter :
      (d : DeadLetter) (w : World)
      → length (save_dead_letter d w).dead_letters ≡ length w.dead_letters
  unfolding save_dead_letter
  length-save_dead_letter d w = length-update_rows (λ r. same_id r.id d.id) (λ _. d) w.dead_letters

  resolve-IsAudited :
      (d : DeadLetter) (w : World) (p : Result RetryOutcome × World)
      → IsStep w p
      → IsAudited env d w (resolve env d (length (retries_of d w) + 1) p)
  unfolding resolve save_dead_letter resolved_letter
  resolve-IsAudited d w (err e, w') step = step
  resolve-IsAudited d w (ok o, w') (letters, audits, _) = elim (Bool-cases o.is_success) [
    | inl e ↦
        rw e (
          w'.audits,
          audits,
          refl,
          length-save_dead_letter (resolved_letter env d o w') w' ∙ letters,
        )
    | inr e ↦ rw e (w'.audits, audits, refl, letters)
  ]

  pub retry_dead_letter-IsAudited :
      (id : ℕ) (d : DeadLetter) (w : World)
      → get_dead_letter id w ≡ some d
      → IsAudited env d w (retry_dead_letter env id w)
  unfolding retry_dead_letter retry_found
  retry_dead_letter-IsAudited id d w found = rw found (elim (Bool-cases (is_open d.status)) [
    | inl e ↦ rw e (
        resolve-IsAudited d w (retry_by_reason env d (length (retries_of d w) + 1) d.reason_code w)
          (retry_by_reason-IsStep env d (length (retries_of d w) + 1) d.reason_code w))
    | inr e ↦ rw e refl
  ])
