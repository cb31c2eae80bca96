-- ===== src/Delivery/Operator/Retry.antt =====
-- backend/app/services/delivery_service.py: `retry_dead_letter` and `retry_many`.
use core_desappsii.Base.{
  ℕ, ◌+◌, ◌-◌, false, Option, none, some, List, [], ◌∷◌, ◌++◌, if◌then◌else◌, length, filterb,
}
use core_desappsii.Errors.{Result, ok, err, not_found, conflict}
use core_desappsii.Model.Events.{DeadLetter, retried, RetryAudit, manual, success, failure}
use core_desappsii.World.{Env, World, now, tick, save_dead_letter, add_audit}
use core_desappsii.Repositories.Events.{get_dead_letter, retries_of}
use core_desappsii.Delivery.Letters.{RetryOutcome, BulkRetryOutcome}
use core_desappsii.Delivery.Operator.Outcomes.{is_open}
use core_desappsii.Delivery.Operator.Choice.{current_actor, retry_by_reason}

module _ (env : Env) where
  -- The audit that `retry_dead_letter` adds.
  unfoldable pub manual_audit : DeadLetter → RetryOutcome → ℕ → RetryAudit
  manual_audit d o attempt_number = record {
    id = none;
    dead_letter_id = d.id;
    delivery_id = d.delivery_id;
    event_id = d.event_id;
    mode = manual;
    actor = current_actor env;
    attempt_number = attempt_number;
    result = if o.is_success then success else failure;
    error = if o.is_success then none else some o.message;
    target_module = d.target_module;
  }

  unfoldable pub resolved_letter : DeadLetter → RetryOutcome → World → DeadLetter
  resolved_letter d o w = record d {
    status = retried;
    resolved_at = some (now env w);
    resolved_by = some (current_actor env);
    resolution_notes = some o.message;
  }

  -- The end of `retry_dead_letter`: the audit, and the resolution if the retry went well.
  unfoldable pub resolve :
      DeadLetter → ℕ → Result RetryOutcome × World → Result RetryOutcome × World
  unfolding manual_audit resolved_letter save_dead_letter
  resolve d attempt_number (err e, w) = (err e, w)
  resolve d attempt_number (ok o, w) =
      let w = add_audit (manual_audit d o attempt_number) w in
      if o.is_success
      then (ok o, save_dead_letter (resolved_letter d o w) (tick env w))
      else (ok o, w)

  unfoldable pub retry_found : Option DeadLetter → World → Result RetryOutcome × World
  unfolding retry_by_reason resolve
  retry_found none w = (err not_found, w)
  retry_found (some d) w =
      if is_open d.status
      then (let attempt_number = length (retries_of d w) + 1 in
          resolve d attempt_number (retry_by_reason env d attempt_number d.reason_code w))
      else (err conflict, w)

  -- `retry_dead_letter`
  unfoldable pub retry_dead_letter : ℕ → World → Result RetryOutcome × World
  unfolding retry_found
  retry_dead_letter id w = retry_found (get_dead_letter id w) w

  -- The handler of `retry_many`: NotFoundError and ConflictError become a failed outcome, whose message
  -- is that of the error and is left out here; anything else goes on up.
  abbrev pub caught : ℕ → Result RetryOutcome → Result RetryOutcome
  caught id (ok o) = ok o
  caught id (err not_found) =
      ok (record { dead_letter_id = id; is_success = false; message = []; attempt_number = 0 })
  caught id (err conflict) =
      ok (record { dead_letter_id = id; is_success = false; message = []; attempt_number = 0 })
  caught id (err e) = err e

  -- One round of the loop of `retry_many`, at the result of the retry; `go_on` is the rest of the loop.
  abbrev pub after_retry :
      (List RetryOutcome → World → Result (List RetryOutcome) × World)
      → List RetryOutcome
      → Result RetryOutcome
      → World
      → Result (List RetryOutcome) × World
  after_retry go_on results (ok o) w = go_on (results ++ o ∷ []) w
  after_retry go_on results (err e) w = (err e, w)

  -- The loop of `retry_many`.
  unfoldable pub retry_each :
      List ℕ → List RetryOutcome → World → Result (List RetryOutcome) × World
  unfolding retry_dead_letter
  retry_each [] results w = (ok results, w)
  retry_each (id ∷ ids) results w =
      after_retry (retry_each ids) results (caught id (retry_dead_letter id w).0)
        (retry_dead_letter id w).1

  unfoldable pub summarise : List RetryOutcome → BulkRetryOutcome
  summarise results =
      let succeeded = length (filterb (λ o. o.is_success) results) in
      record {
        total = length results;
        succeeded = succeeded;
        failed = length results - succeeded;
        results = results;
      }

  abbrev pub answer : Result (List RetryOutcome) × World → Result BulkRetryOutcome × World
  answer (ok results, w) = (ok (summarise results), w)
  answer (err e, w) = (err e, w)

  -- `retry_many`
  unfoldable pub retry_many : List ℕ → World → Result BulkRetryOutcome × World
  unfolding retry_each summarise
  retry_many ids w = answer (retry_each ids [] w)
