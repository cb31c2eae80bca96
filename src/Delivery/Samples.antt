-- ===== src/Delivery/Samples.antt =====
-- Deliveries that a consumer rejects, dead letters that an operator resolves, and a scan of what is due.
use core_desappsii.Base.{
  All, ℕ, ◌+◌, ◌≡◌, ◌≤◌, ◌⊎◌, refl, true, false, Option, none, some, [], ◌∷◌, arith, length,
  count_rows,
}
use core_desappsii.Text.{Text, lit, text_eq, strip}
use core_desappsii.Json.{Json, obj, end, field, str, number}
use core_desappsii.Errors.{Error, Result, is_ok, ok, err, conflict, attribute_error}
use core_desappsii.Model.Events.{
  delivered, Delivery, retrying, dead, DeadLetter, opened, retried, delivery_failed,
}
use core_desappsii.RetryPolicy.{default_retry_policy}
use core_desappsii.Messaging.Topology.{default_settings}
use core_desappsii.Messaging.Broker.{InboundMessage}
use core_desappsii.World.{World, empty_world}
use core_desappsii.Repositories.Events.{is_due}
use core_desappsii.Hub.Intake.{build_log}
use core_desappsii.Hub.Samples.{sample_env, sample_log}
use core_desappsii.Delivery.Letters.{BulkRetryOutcome}
use core_desappsii.Delivery.Rejected.{handle_rejection, handle_dlq_message}
use core_desappsii.Delivery.Retries.{exhaust}
use core_desappsii.Delivery.Rejections.{
  handle_rejection-is_ok, handle_rejection-lost, rejections, rejections-retry, rejections-dies,
}
use core_desappsii.Delivery.Attempts.{IsAwaiting, IsAt}
use core_desappsii.Delivery.Operator.Retry.{retry_dead_letter, retry_many}
use core_desappsii.Delivery.Operator.Discard.{discard_dead_letter}
use core_desappsii.Delivery.Operator.Resolution.{
  IsAudited, HasStatus, retry_dead_letter-once, retry_dead_letter-IsAudited,
}
use core_desappsii.Delivery.Operator.Bulk.{IsStopped, retry_many_lem}
use core_desappsii.Delivery.Due.{process_due_retries}
use core_desappsii.Delivery.Due.Progress.{IsPass, process_due_retries-progress}
use core_desappsii.Delivery.Due.Completed.{IsScanned}
use core_desappsii.Delivery.Due.Drained.{process_due_retries-drained}

abbrev waiting : ℕ → Delivery
waiting attempts = record {
  id = some 50;
  event_log_id = some 1000;
  subscription_id = some 21;
  target_module = lit "obras";
  queue_name = lit "q.obras";
  event_type = lit "debtOverdue";
  status = retrying;
  attempts = attempts;
  max_attempts = 4;
  last_error = none;
  next_retry_at = some 0;
  delivered_at = none;
}

abbrev lost_letter : Option Text → DeadLetter
lost_letter target_module = record {
  id = some 60;
  event_log_id = none;
  delivery_id = none;
  event_id = none;
  event_type = none;
  source_module = none;
  target_module = target_module;
  reason_code = delivery_failed;
  reason = [];
  details = [];
  raw_payload = some sample_body;
  raw_body = none;
  attempts = 1;
  status = opened;
  resolved_at = none;
  resolved_by = none;
  resolution_notes = none;
}
  where
    sample_body : Json
    sample_body = obj (field (lit "eventType") (str (lit "debtOverdue")) end)

abbrev pub busy_world : ℕ → Option Text → World
busy_world attempts target_module = record empty_world {
  event_logs = sample_log ∷ [];
  deliveries = waiting attempts ∷ [];
  dead_letters = lost_letter target_module ∷ [];
}

program : Unit {0}
unfolding handle_dlq_message handle_rejection rejections retry_dead_letter retry_many
    discard_dead_letter process_due_retries build_log exhaust text_eq lit strip default_settings
    default_retry_policy
program = tt

-- A body that is no object, with attempts left: the handler itself fails, and no retry is published.
abbrev stray_message : InboundMessage
stray_message = record {
  queue = lit "q.dlq";
  routing_key = lit "q.obras";
  loaded = some (number 3);
  text = lit "3";
  event_id_header = some (5 ∷ []);
  target_header = some (lit "obras");
  error_header = none;
  attempt_header = some 1;
}

stray :
    ((handle_dlq_message (sample_env false) stray_message (busy_world 1 none)).0
      ≡ err attribute_error)
    × ((handle_dlq_message (sample_env false) stray_message (busy_world 1 none)).1.sent ≡ [])
unfolding program
stray = (refl, refl)

-- A dead letter with no delivery and no module is published to a queue that nobody declared, and closed.
no_queue : HasStatus 60 retried (retry_dead_letter (sample_env false) 60 (busy_world 1 none)).1
unfolding program
no_queue = (_, refl, refl)

rejections-retry_example :
    let before =
      rejections (sample_env true) 1 50 sample_log (obj end) (lit "no") (busy_world 1 none) in
    let after =
      rejections (sample_env true) 2 50 sample_log (obj end) (lit "no") (busy_world 1 none) in
    IsAt 50 3 4 retrying after
    × (after.dead_letters ≡ lost_letter none ∷ [])
    × IsAwaiting (sample_env true) 50 2 (obj end) before after
rejections-retry_example =
    rejections-retry (sample_env true) 1 50 (waiting 1) sample_log (obj end) (lit "no")
      (busy_world 1 none) refl refl refl (omega arith)

rejections-dies_example :
    IsAt 50 4 4 dead
      (rejections (sample_env true) 4 50 sample_log (obj end) (lit "no") (busy_world 1 none))
    × (length
          (rejections
            (sample_env true)
            4
            50
            sample_log
            (obj end)
            (lit "no")
            (busy_world 1 none)).dead_letters
        ≡ 2)
rejections-dies_example =
    rejections-dies (sample_env true) 3 50 (waiting 1) sample_log (obj end) (lit "no")
      (busy_world 1 none) refl refl refl refl

handle_rejection-is_ok_example :
    is_ok
      (handle_rejection
        (sample_env false)
        (waiting 1)
        sample_log
        (number 3)
        (lit "no")
        (busy_world 1 none)).0
    ≡ false
unfolding program
handle_rejection-is_ok_example =
    handle_rejection-is_ok (sample_env false) (waiting 1) sample_log (number 3) (lit "no")
      (busy_world 1 none)

handle_rejection-lost_example :
    ((handle_rejection
        (sample_env false)
        (waiting 1)
        sample_log
        (number 3)
        (lit "no")
        (busy_world 1 none)).1.sent
      ≡ [])
    × ((handle_rejection
          (sample_env false)
          (waiting 1)
          sample_log
          (number 3)
          (lit "no")
          (busy_world 1 none)).1.dead_letters
        ≡ lost_letter none ∷ [])
    × ((handle_rejection
          (sample_env false)
          (waiting 1)
          sample_log
          (number 3)
          (lit "no")
          (busy_world 1 none)).1.audits
        ≡ [])
unfolding program
handle_rejection-lost_example =
    handle_rejection-lost (sample_env false) (waiting 1) sample_log (number 3) (lit "no")
      (busy_world 1 none) refl

retry_dead_letter-once_example :
    HasStatus 60 retried (retry_dead_letter (sample_env false) 60 (busy_world 1 none)).1
    × (retry_dead_letter
          (sample_env false)
          60
          (retry_dead_letter (sample_env false) 60 (busy_world 1 none)).1
        ≡ (err conflict, (retry_dead_letter (sample_env false) 60 (busy_world 1 none)).1))
    × (discard_dead_letter
          (sample_env false)
          60
          (lit "visto")
          (retry_dead_letter (sample_env false) 60 (busy_world 1 none)).1
        ≡ (err conflict, (retry_dead_letter (sample_env false) 60 (busy_world 1 none)).1))
unfolding program
retry_dead_letter-once_example =
    retry_dead_letter-once (sample_env false) 60
      (record {
        dead_letter_id = 60;
        is_success = true;
        message = lit "Mensaje republicado en 'q.None'.";
        attempt_number = 1;
      })
      (busy_world 1 none) (lit "visto") refl refl

retry_dead_letter-IsAudited_example :
    IsAudited
      (sample_env true)
      (lost_letter none)
      (busy_world 1 none)
      (retry_dead_letter (sample_env true) 60 (busy_world 1 none))
retry_dead_letter-IsAudited_example =
    retry_dead_letter-IsAudited (sample_env true) 60 (lost_letter none) (busy_world 1 none) refl

retry_many_lem_example :
    (((b : BulkRetryOutcome) × ((retry_many (sample_env true) (60 ∷ 61 ∷ []) (busy_world 1 none)).0
          ≡ ok b)
        × (b.total ≡ 2)
        × (b.succeeded + b.failed ≡ 2))
      ⊎ ((e : Error) × ((retry_many (sample_env true) (60 ∷ 61 ∷ []) (busy_world 1 none)).0 ≡ err e)
          × IsStopped (sample_env true) (60 ∷ 61 ∷ []) (busy_world 1 none) e))
    × (length (retry_many (sample_env true) (60 ∷ 61 ∷ []) (busy_world 1 none)).1.dead_letters ≡ 1)
retry_many_lem_example = retry_many_lem (sample_env true) (60 ∷ 61 ∷ []) (busy_world 1 none)

process_due_retries-progress_example :
    (n : ℕ) × ((process_due_retries (sample_env true) 10 (busy_world 1 none)).0 ≡ ok n)
    × (n ≤ 10)
    × IsPass n (busy_world 1 none) (process_due_retries (sample_env true) 10 (busy_world 1 none)).1
process_due_retries-progress_example =
    process_due_retries-progress (sample_env true) 10 (busy_world 1 none) refl

-- One delivery that is due, and one that was delivered before.
abbrev two_deliveries : World
two_deliveries = record (busy_world 1 none) {
  deliveries = waiting 1 ∷ record (waiting 2) { id = some 51; status = delivered } ∷ [];
}

process_due_retries-drained_example :
    let result = process_due_retries (sample_env false) 10 two_deliveries in
    ◌≡◌ {A = Result ℕ} result.0 (ok 1)
    × (count_rows (is_due 0) result.1.deliveries ≡ 0)
    × All (IsScanned 0 result.1) two_deliveries.deliveries
process_due_retries-drained_example =
    process_due_retries-drained (sample_env false) 10 two_deliveries refl (λ n m. refl)
      ((refl, refl), ((refl, refl), tt)) (λ i. ground arith) (omega arith)
