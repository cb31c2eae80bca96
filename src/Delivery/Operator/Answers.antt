-- ===== src/Delivery/Operator/Answers.antt =====
-- What one retry of a dead letter may answer: an outcome, one of the two errors that
-- `retry_many` catches, or that of pydantic or jsonschema on the event that is read back.
use core_desappsii.Base.{ℕ, ◌+◌, ◌≡◌, refl, ◌⊎◌, inl, inr, Option, none, some, length, Bool-cases}
use core_desappsii.Errors.{
  Error, Result, ok, err, not_found, conflict, pydantic_error, schema_error,
}
use core_desappsii.Model.Events.{
  EventLog, DeadLetter, Reason, schema_violation, malformed_message, delivery_failed,
}
use core_desappsii.Json.{Json}
use core_desappsii.Validation.{Violation, validate_data, violation_of, breaks_off}
use core_desappsii.Repositories.Registry.{get_type_by_name}
use core_desappsii.Envelope.{EventEnvelope}
use core_desappsii.World.{Env, World}
use core_desappsii.Repositories.Events.{get_log, retries_of}
use core_desappsii.Hub.Reprocess.{
  reprocess_verdict, schema_of, reprocess, reprocess_read, model_validate,
}
use core_desappsii.Delivery.Letters.{RetryOutcome}
use core_desappsii.Delivery.Operator.Outcomes.{is_open}
use core_desappsii.Delivery.Operator.Choice.{
  of_reprocess, reprocess_log, retry_by_reprocessing, retry_by_reason,
}
use core_desappsii.Delivery.Operator.Retry.{resolve, retry_found}

-- The event that a dead letter refers to.
abbrev pub referenced : DeadLetter → World → Option EventLog
referenced d w = elim d.event_log_id [ none ↦ none | some id ↦ get_log id w ]

-- Why an event is not reprocessed: pydantic does not read its envelope back, or jsonschema breaks off at
-- the schema that its type has now.
abbrev pub IsRefusal : Env → EventLog → World → Error → Type 0
IsRefusal env log w e =
    ((e ≡ pydantic_error) × (model_validate env log.envelope ≡ none))
    ⊎ ((e ≡ schema_error)
        × ((envelope : EventEnvelope) × (model_validate env log.envelope ≡ some envelope)
            × ◌≡◌ {A = Result (Option Violation)} (reprocess_verdict env envelope w)
                (err schema_error)))

-- An outcome, an error that is caught, or one with its reason, at the event referred to.
abbrev pub IsKnown : Env → Option EventLog → World → Result RetryOutcome → Type 0
IsKnown env o w r =
    ((a : RetryOutcome) × (r ≡ ok a))
    ⊎ (r ≡ err not_found)
    ⊎ (r ≡ err conflict)
    ⊎ ((e : Error) × (log : EventLog) × (r ≡ err e) × (o ≡ some log) × IsRefusal env log w e)

pub err-err :
    {A B : Type 0} (e e' : Error)
    → ◌≡◌ {A = Result A} (err e) (err e')
    → ◌≡◌ {A = Result B} (err e) (err e')
err-err e e' h = cc h

module _ (env : Env) where
  verdict-cases :
      (envelope : EventEnvelope) (w : World)
      → ((v : Option Violation) × ◌≡◌ {A = Result (Option Violation)}
            (reprocess_verdict env envelope w)
            (ok v))
        ⊎ ◌≡◌ {A = Result (Option Violation)} (reprocess_verdict env envelope w) (err schema_error)
  unfolding reprocess_verdict validate_data
  verdict-cases envelope w =
      elim (Bool-cases (breaks_off env.evaluates (schema_now envelope w) envelope.payload)) [
        | inl e ↦ inr (rw e refl)
        | inr e ↦
            inl (violation_of env.iter_errors (schema_now envelope w) envelope.payload, rw e refl)
      ]
    where
      schema_now : EventEnvelope → World → Option Json
      schema_now envelope w = schema_of env (get_type_by_name envelope.event_type w)

  reprocess_read-IsKnown :
      (d : DeadLetter) (n : ℕ) (log : EventLog) (o : Option EventEnvelope) (w : World)
      → model_validate env log.envelope ≡ o
      → IsKnown env (some log) w (of_reprocess env d n (reprocess_read env log o w) w).0
  reprocess_read-IsKnown d n log none w e =
      inr (inr (inr (pydantic_error, log, refl, refl, inl (refl, e))))
  reprocess_read-IsKnown d n log (some envelope) w e = elim (verdict-cases envelope w) [
    | inl (v, good) ↦ rw good (inl (_, refl))
    | inr bad ↦
        rw bad (inr (inr (inr (schema_error, log, refl, refl, inr (refl, (envelope, e, bad))))))
  ]

  reprocess_log-IsKnown :
      (d : DeadLetter) (n : ℕ) (o : Option EventLog) (w : World)
      → IsKnown env o w (reprocess_log env d n o w).0
  unfolding reprocess
  reprocess_log-IsKnown d n none w = inl (_, refl)
  reprocess_log-IsKnown d n (some log) w =
      reprocess_read-IsKnown d n log (model_validate env log.envelope) w refl

  retry_by_reprocessing-IsKnown :
      (d : DeadLetter) (n : ℕ) (o : Option ℕ) (w : World)
      → IsKnown env
          (elim o [ none ↦ none | some id ↦ get_log id w ])
          w
          (retry_by_reprocessing env d n o w).0
  unfolding retry_by_reprocessing
  retry_by_reprocessing-IsKnown d n none w = inl (_, refl)
  retry_by_reprocessing-IsKnown d n (some id) w = reprocess_log-IsKnown d n (get_log id w) w

  retry_by_reason-IsKnown :
      (d : DeadLetter) (n : ℕ) (reason : Reason) (w : World)
      → IsKnown env (referenced d w) w (retry_by_reason env d n reason w).0
  unfolding retry_by_reason
  retry_by_reason-IsKnown d n malformed_message w = inr (inr (inl refl))
  retry_by_reason-IsKnown d n schema_violation w =
      retry_by_reprocessing-IsKnown d n d.event_log_id w
  retry_by_reason-IsKnown d n delivery_failed w = inl (_, refl)

  resolve-IsKnown :
      (d : DeadLetter) (n : ℕ) (o : Option EventLog) (w : World) (p : Result RetryOutcome × World)
      → IsKnown env o w p.0
      → IsKnown env o w (resolve env d n p).0
  unfolding resolve
  resolve-IsKnown d n log w (err e, w') known = known
  resolve-IsKnown d n log w (ok o, w') known = elim (Bool-cases o.is_success) [
    | inl e ↦ rw e (inl (_, refl))
    | inr e ↦ rw e (inl (_, refl))
  ]

  -- What a retry may answer, for a dead letter that is there or not.
  pub retry_found-IsKnown :
      (found : Option DeadLetter) (w : World)
      → IsKnown env
          (elim found [ none ↦ none | some d ↦ referenced d w ])
          w
          (retry_found env found w).0
  unfolding retry_found
  retry_found-IsKnown none w = inr (inl refl)
  retry_found-IsKnown (some d) w = elim (Bool-cases (is_open d.status)) [
    | inl e ↦ rw e (
        resolve-IsKnown d (length (retries_of d w) + 1) (referenced d w) w
          (retry_by_reason env d (length (retries_of d w) + 1) d.reason_code w)
          (retry_by_reason-IsKnown d (length (retries_of d w) + 1) d.reason_code w))
    | inr e ↦ rw e (inr (inr (inl refl)))
  ]
