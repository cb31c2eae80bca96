-- ===== src/Delivery/Operator/Bulk.antt =====
-- What `retry_many` answers, and what it leaves.
use core_desappsii.Base.{
  subst, ℕ, suc, ◌+◌, ◌≡◌, refl, ◌∙◌, ap, ◌⊎◌, inl, inr, Option, none, some, List, [], ◌∷◌, ◌++◌,
  arith, length, length-append, length-filterb-le,
}
use core_desappsii.Errors.{Error, Result, ok, err, pydantic_error, schema_error}
use core_desappsii.Model.Events.{DeadLetter, EventLog}
use core_desappsii.World.{Env, World}
use core_desappsii.Repositories.Events.{get_dead_letter}
use core_desappsii.Delivery.Letters.{RetryOutcome, BulkRetryOutcome}
use core_desappsii.Delivery.Operator.Retry.{
  retry_found, retry_dead_letter, caught, after_retry, retry_each, answer, summarise, retry_many,
}
use core_desappsii.Delivery.Operator.Resolution.{IsAudited, retry_dead_letter-IsAudited}
use core_desappsii.Delivery.Operator.Answers.{
  IsRefusal, referenced, IsKnown, err-err, retry_found-IsKnown,
}

-- An outcome, or an error that is not caught, with its reason.
abbrev IsHandled : Env → Option EventLog → World → Result RetryOutcome → Type 0
IsHandled env o w r =
    ((a : RetryOutcome) × (r ≡ ok a))
    ⊎ ((e : Error) × (log : EventLog) × (r ≡ err e) × (o ≡ some log) × IsRefusal env log w e)

-- The event of a dead letter, by its identifier.
abbrev pub event_of : ℕ → World → Option EventLog
event_of id w = elim (get_dead_letter id w) [ none ↦ none | some d ↦ referenced d w ]

-- The retry that stops the loop is that of one of the identifiers, in the world to which the retries of
-- those before it have led: the event of its dead letter is not reprocessed, for that reason.
abbrev pub IsStopped : Env → List ℕ → World → Error → Type 0
IsStopped env [] w e = ⊥
IsStopped env (id ∷ ids) w e =
    ((log : EventLog) × (event_of id w ≡ some log) × IsRefusal env log w e)
    ⊎ IsStopped env ids (retry_dead_letter env id w).1 e

length-ok : (rs rs' : List RetryOutcome) → ok rs ≡ ok rs' → length rs ≡ length rs'
length-ok rs rs' h = cc h

module _ (env : Env) where
  caught-IsHandled :
      (id : ℕ) (o : Option EventLog) (w : World) (r : Result RetryOutcome)
      → IsKnown env o w r
      → IsHandled env o w (caught env id r)
  caught-IsHandled id o w r (inl (a, e)) = rw e (inl (_, refl))
  caught-IsHandled id o w r (inr (inl e)) = rw e (inl (_, refl))
  caught-IsHandled id o w r (inr (inr (inl e))) = rw e (inl (_, refl))
  caught-IsHandled id o w r (inr (inr (inr (exc, log, e, at, inl (same, why))))) =
      rw (e, same) (inr (pydantic_error, log, refl, at, inl (refl, why)))
  caught-IsHandled id o w r (inr (inr (inr (exc, log, e, at, inr (same, why))))) =
      rw (e, same) (inr (schema_error, log, refl, at, inr (refl, why)))

  IsAudited-letters :
      (d : DeadLetter) (w : World) (p : Result RetryOutcome × World)
      → IsAudited env d w p
      → length p.1.dead_letters ≡ length w.dead_letters
  IsAudited-letters d w (ok o, w') (_, _, _, letters) = letters
  IsAudited-letters d w (err e, w') same = ap (λ v. length v.dead_letters) same

  length-retry_found :
      (id : ℕ) (found : Option DeadLetter) (w : World)
      → get_dead_letter id w ≡ found
      → length (retry_found env found w).1.dead_letters ≡ length w.dead_letters
  unfolding retry_found retry_dead_letter
  length-retry_found id none w e = refl
  length-retry_found id (some d) w e = IsAudited-letters d w (retry_found env (some d) w) (
      subst (λ o. IsAudited env d w (retry_found env o w)) e
        (retry_dead_letter-IsAudited env id d w e))

  retried-one :
      (id : ℕ) (w : World)
      → IsHandled env (event_of id w) w (caught env id (retry_dead_letter env id w).0)
        × (length (retry_dead_letter env id w).1.dead_letters ≡ length w.dead_letters)
  unfolding retry_dead_letter
  retried-one id w = (
    caught-IsHandled id (event_of id w) w (retry_found env (get_dead_letter id w) w).0
        (retry_found-IsKnown env (get_dead_letter id w) w),
    length-retry_found id (get_dead_letter id w) w refl,
  )

  -- The loop: an outcome for each identifier, or the error that stops it, and the dead letters counted.
  abbrev IsRun : ℕ → List ℕ → World → Result (List RetryOutcome) × World → Type 0
  IsRun n ids w p =
      (((rs : List RetryOutcome) × (p.0 ≡ ok rs) × (length rs ≡ n))
        ⊎ ((e : Error) × (p.0 ≡ err e) × IsStopped env ids w e))
      × (length p.1.dead_letters ≡ length w.dead_letters)

  after_retry-IsRun :
      (id : ℕ) (ids : List ℕ) (results : List RetryOutcome) (w : World) (r : Result RetryOutcome)
      → IsHandled env (event_of id w) w r
      → length (retry_dead_letter env id w).1.dead_letters ≡ length w.dead_letters
      → ((rs : List RetryOutcome) (v : World)
          → IsRun (length rs + length ids) ids v (retry_each env ids rs v))
      → IsRun
          (length results + suc (length ids))
          (id ∷ ids)
          w
          (after_retry env (retry_each env ids) results r (retry_dead_letter env id w).1)
  after_retry-IsRun id ids results w (ok o) handled letters rest =
      go (rest (results ++ o ∷ []) (retry_dead_letter env id w).1)
    where
      counted : length (results ++ o ∷ []) + length ids ≡ length results + suc (length ids)
      counted = omega (arith, length-append results (o ∷ []))

      go :
          IsRun
            (length (results ++ o ∷ []) + length ids)
            ids
            (retry_dead_letter env id w).1
            (retry_each env ids (results ++ o ∷ []) (retry_dead_letter env id w).1)
          → IsRun
              (length results + suc (length ids))
              (id ∷ ids)
              w
              (retry_each env ids (results ++ o ∷ []) (retry_dead_letter env id w).1)
      go (inl (rs, e, n), kept) = (inl (rs, e, n ∙ counted), kept ∙ letters)
      go (inr (exc, e, stopped), kept) = (inr (exc, e, inr stopped), kept ∙ letters)
  after_retry-IsRun id ids results w (err e) (inl (o, impossible)) letters rest =
      absurd (cc impossible)
  after_retry-IsRun id ids results w (err e) (inr (exc, log, same, at, why)) letters rest =
      (inr (exc, err-err e exc same, inl (log, at, why)), letters)

  retry_each-IsRun :
      (ids : List ℕ) (results : List RetryOutcome) (w : World)
      → IsRun (length results + length ids) ids w (retry_each env ids results w)
  unfolding retry_each
  retry_each-IsRun [] results w = (inl (results, refl, omega arith), refl)
  retry_each-IsRun (id ∷ ids) results w =
      let (handled, letters) = retried-one id w in
      after_retry-IsRun id ids results w (caught env id (retry_dead_letter env id w).0) handled
        letters (retry_each-IsRun ids)

  summarise_lem :
      (rs : List RetryOutcome)
      → ((summarise env rs).total ≡ length rs)
        × ((summarise env rs).succeeded + (summarise env rs).failed ≡ length rs)
  unfolding summarise
  summarise_lem rs =
      (refl, omega (arith, length-filterb-le (λ (o : RetryOutcome). o.is_success) rs))

  pub retry_many_lem :
      (ids : List ℕ) (w : World)
      → (((b : BulkRetryOutcome) × ((retry_many env ids w).0 ≡ ok b)
            × (b.total ≡ length ids)
            × (b.succeeded + b.failed ≡ length ids))
          ⊎ ((e : Error) × ((retry_many env ids w).0 ≡ err e) × IsStopped env ids w e))
        × (length (retry_many env ids w).1.dead_letters ≡ length w.dead_letters)
  unfolding retry_many
  retry_many_lem ids w = answer-counted (retry_each env ids [] w) (retry_each-IsRun ids [] w)
    where
      answer-counted :
          (p : Result (List RetryOutcome) × World)
          → IsRun (0 + length ids) ids w p
          → (((b : BulkRetryOutcome) × ((answer env p).0 ≡ ok b)
                × (b.total ≡ length ids)
                × (b.succeeded + b.failed ≡ length ids))
              ⊎ ((e : Error) × ((answer env p).0 ≡ err e) × IsStopped env ids w e))
            × (length (answer env p).1.dead_letters ≡ length w.dead_letters)
      answer-counted (ok rs, w') (inl (rs', e, counted), letters) =
          let (total, sum) = summarise_lem rs in
          (
            inl (
              summarise env rs,
              refl,
              omega (arith, total, length-ok rs rs' e, counted),
              omega (arith, sum, length-ok rs rs' e, counted),
            ),
            letters,
          )
      answer-counted (ok rs, w') (inr (exc, impossible, why), letters) = absurd (cc impossible)
      answer-counted (err e, w') (inl (rs', impossible, counted), letters) = absurd (cc impossible)
      answer-counted (err e, w') (inr (exc, same, why), letters) =
          (inr (exc, err-err e exc same, why), letters)
