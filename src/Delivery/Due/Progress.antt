-- ===== src/Delivery/Due/Progress.antt =====
-- What one scan of the due retries completes, and what it leaves.
use core_desappsii.Base.{
  ℕ, ◌+◌, ◌≤◌, ◌≡◌, refl, ◌∙◌, ap, inl, inr, true, Option, none, some, List, [], ◌∷◌, arith, length,
  length-add_row, length-update_rows, length-take, Bool-cases, Option-cases, same_id, filterb,
}
use core_desappsii.Text.{Text}
use core_desappsii.Json.{Json}
use core_desappsii.Errors.{ok}
use core_desappsii.Model.Events.{EventLog, Delivery, delivered, dead, attempts_exhausted}
use core_desappsii.Messaging.Broker.{OutboundMessage, BrokerError}
use core_desappsii.World.{Env, World, now, tick, send, save_delivery}
use core_desappsii.Repositories.Events.{due_for_retry, sort_by_due, is_due}
use core_desappsii.Hub.Outcome.{seconds, describe_error}
use core_desappsii.Delivery.Retries.{exhaust, exhausted_letter}
use core_desappsii.Delivery.Due.{
  due_message, due_failed, due_sent, due_answer, process_one, log_of, process_each,
  process_due_retries,
}

-- Between two worlds, n messages were sent, no delivery was lost and no dead letter was removed.
abbrev pub IsPass : ℕ → World → World → Type 0
IsPass n before after =
    (length after.sent ≡ length before.sent + n)
    × (length after.deliveries ≡ length before.deliveries)
    × (length before.dead_letters ≤ length after.dead_letters)

abbrev IsAnswered : World → Option BrokerError × World → Type 0
IsAnswered before (none, after) = IsPass 1 before after
IsAnswered before (some exc, after) = IsPass 0 before after

length-save_delivery :
    (d : Delivery) (w : World) → length (save_delivery d w).deliveries ≡ length w.deliveries
unfolding save_delivery
length-save_delivery d w = length-update_rows (λ r. same_id r.id d.id) (λ _. d) w.deliveries

module _ (env : Env) where
  send-IsAnswered : (m : OutboundMessage) (w : World) → IsAnswered w (send env m w)
  send-IsAnswered m w = elim (Option-cases (env.publish w.publishes m)) [
    | inl (exc, e) ↦ rw (e, send) (omega arith, refl, omega arith)
    | inr e ↦ rw (e, send) (length-add_row m w.sent, refl, omega arith)
  ]

  save_delivery-IsPass :
      (d : Delivery) (n : ℕ) (w w' : World) → IsPass n w w' → IsPass n w (save_delivery d w')
  unfolding save_delivery
  save_delivery-IsPass d n w w' (sent, rows, letters) =
      (sent, length-save_delivery d w' ∙ rows, letters)

  exhaust-IsPass :
      (d : Delivery) (l : EventLog) (j : Json) (t : Text) (n : ℕ) (w w' : World)
      → IsPass n w w'
      → IsPass n w (exhaust env d l j t w').1
  unfolding exhaust save_delivery
  exhaust-IsPass d l j t n w w' pass =
      let d' = record d { status = dead; next_retry_at = none } in
      let (sent, rows, letters) = save_delivery-IsPass d' n w w' pass in
      (
        sent,
        rows,
        omega (arith, letters, length-add_row (exhausted_letter env d' l j t) w'.dead_letters),
      )

  due_failed-IsPass :
      (started : ℕ) (d : Delivery) (l : EventLog) (exc : BrokerError) (w w' : World)
      → IsPass 0 w w'
      → IsPass 0 w (due_failed env started d l exc w')
  unfolding due_failed
  due_failed-IsPass started d l exc w w' pass =
      let d' = record d { last_error = some (describe_error exc) } in
      elim (Bool-cases (attempts_exhausted d')) [
        | inl e ↦ rw e (exhaust-IsPass d' l l.envelope exc.text 0 w w' pass)
        | inr e ↦ rw e (
            save_delivery-IsPass
              (record d' {
                next_retry_at = some (started + seconds (env.retry_policy.delay_for d.attempts));
              })
              0 w w' pass)
      ]

  due_sent-IsPass :
      (d : Delivery) (l : EventLog) (w w' : World)
      → IsPass 1 w w'
      → IsPass 1 w (due_sent env d l w')
  unfolding due_sent save_delivery
  due_sent-IsPass d l w w' pass =
      let d' = record d {
        status = delivered;
        delivered_at = some (now env w');
        next_retry_at = none;
      } in
      save_delivery-IsPass d' 1 w w' pass

  due_answer-IsPass :
      (started : ℕ) (d : Delivery) (l : EventLog) (p : Option BrokerError × World) (w : World)
      → IsAnswered w p
      → IsPass (due_answer env started d l p).0 w (due_answer env started d l p).1
  due_answer-IsPass started d l (none, w') w pass = due_sent-IsPass d l w w' pass
  due_answer-IsPass started d l (some exc, w') w pass = due_failed-IsPass started d l exc w w' pass

  due_answer-one :
      (started : ℕ) (d : Delivery) (l : EventLog) (p : Option BrokerError × World)
      → (due_answer env started d l p).0 ≤ 1
  due_answer-one started d l (none, w) = omega arith
  due_answer-one started d l (some exc, w) = omega arith

  process_one-IsPass :
      (started : ℕ) (d : Delivery) (o : Option EventLog) (w : World)
      → IsPass (process_one env started d o w).0 w (process_one env started d o w).1
        × ((process_one env started d o w).0 ≤ 1)
  unfolding process_one
  process_one-IsPass started d none w = ((omega arith, refl, omega arith), omega arith)
  process_one-IsPass started d (some l) w =
      let d' = record d { attempts = d.attempts + 1 } in
      let p = send env (due_message env d' l) w in
      (
        due_answer-IsPass started d' l p w (send-IsAnswered (due_message env d' l) w),
        due_answer-one started d' l p,
      )

  process_each-IsPass :
      (started : ℕ) (ds : List Delivery) (processed : ℕ) (w : World)
      → (n : ℕ) × ((process_each env started ds processed w).0 ≡ processed + n)
        × (n ≤ length ds)
        × IsPass n w (process_each env started ds processed w).1
  unfolding process_each
  process_each-IsPass started [] processed w =
      (0, omega arith, omega arith, (omega arith, refl, omega arith))
  process_each-IsPass started (d ∷ ds) processed w =
      let ((sent, rows, letters), one) =
        process_one-IsPass started d (log_of env d.event_log_id w) w in
      let k = (process_one env started d (log_of env d.event_log_id w) w).0 in
      let w' = (process_one env started d (log_of env d.event_log_id w) w).1 in
      let (n, total, few, (sent', rows', letters')) =
        process_each-IsPass started ds (processed + k) w' in
      (
        k + n,
        omega (arith, total),
        omega (arith, one, few),
        (omega (arith, sent, sent'), rows' ∙ rows, omega (arith, letters, letters')),
      )

  length-due_for_retry : (t limit : ℕ) (w : World) → length (due_for_retry t limit w) ≤ limit
  unfolding due_for_retry
  length-due_for_retry t limit w =
      omega (arith, length-take limit (sort_by_due (filterb (is_due t) w.deliveries)))

  -- A scan of the due retries on a healthy broker reports exactly the number of messages it got through,
  -- which is at most its limit; whatever the broker answers to each, no delivery row is lost and no dead
  -- letter is removed.
  pub process_due_retries-progress :
      (limit : ℕ) (w : World)
      → env.healthy ≡ true
      → (n : ℕ) × ((process_due_retries env limit w).0 ≡ ok n)
        × (n ≤ limit)
        × IsPass n w (process_due_retries env limit w).1
  unfolding process_due_retries
  process_due_retries-progress limit w h = rw h (
      let started = now env w in
      let ds = due_for_retry started limit (tick env w) in
      let (n, total, few, pass) = process_each-IsPass started ds 0 (tick env w) in
      (
        n,
        ap ok (omega (arith, total)),
        omega (arith, few, length-due_for_retry started limit (tick env w)),
        pass,
      ))
