-- ===== src/Delivery/Operator/Steps.antt =====
-- What the three ways of retrying a dead letter keep.
use core_desappsii.Base.{ℕ, ◌≡◌, refl, inl, inr, Option, none, some, arith, Bool-cases}
use core_desappsii.Json.{Json, truthy}
use core_desappsii.Errors.{Result, ok, err}
use core_desappsii.Model.Events.{
  EventLog, Delivery, DeadLetter, Reason, schema_violation, malformed_message, delivery_failed,
}
use core_desappsii.Envelope.{EventEnvelope}
use core_desappsii.Messaging.Broker.{BrokerError, OutboundMessage}
use core_desappsii.World.{Env, World, send, save_delivery}
use core_desappsii.Repositories.Events.{get_log}
use core_desappsii.Validation.{Violation}
use core_desappsii.Hub.Reprocess.{
  reprocess_judged, reprocess_verdict, reprocess, reprocess_read, model_validate,
}
use core_desappsii.Delivery.Letters.{RetryOutcome}
use core_desappsii.Delivery.Operator.Choice.{
  of_reprocess, reprocess_log, retry_by_reprocessing, restart_delivery, delivery_of, republished,
  republish_message, queue_of, retry_by_republishing, retry_by_reason,
}
use core_desappsii.Delivery.Operator.Kept.{
  IsSame, IsSame-IsKept, IsKept, IsKept-refl, reprocess_envelope-IsKept,
}

-- A step that raises changes nothing; one that returns keeps the dead letters and the audits.
abbrev pub IsStep : World → Result RetryOutcome × World → Type 0
IsStep before (ok o, after) = IsKept before after
IsStep before (err e, after) = after ≡ before

module _ (env : Env) where
  reprocess_judged-IsStep :
      (d : DeadLetter) (n : ℕ) (log : EventLog) (e : EventEnvelope) (r : Result (Option Violation))
      (w : World)
      → IsStep w (of_reprocess env d n (reprocess_judged env log e r w) w)
  reprocess_judged-IsStep d n log e (err exc) w = refl
  reprocess_judged-IsStep d n log e (ok v) w = reprocess_envelope-IsKept env log e w

  reprocess_read-IsStep :
      (d : DeadLetter) (n : ℕ) (log : EventLog) (o : Option EventEnvelope) (w : World)
      → IsStep w (of_reprocess env d n (reprocess_read env log o w) w)
  reprocess_read-IsStep d n log none w = refl
  reprocess_read-IsStep d n log (some e) w =
      reprocess_judged-IsStep d n log e (reprocess_verdict env e w) w

  reprocess_log-IsStep :
      (d : DeadLetter) (n : ℕ) (o : Option EventLog) (w : World)
      → IsStep w (reprocess_log env d n o w)
  unfolding reprocess
  reprocess_log-IsStep d n none w = IsKept-refl w
  reprocess_log-IsStep d n (some log) w =
      reprocess_read-IsStep d n log (model_validate env log.envelope) w

  retry_by_reprocessing-IsStep :
      (d : DeadLetter) (n : ℕ) (o : Option ℕ) (w : World)
      → IsStep w (retry_by_reprocessing env d n o w)
  unfolding retry_by_reprocessing
  retry_by_reprocessing-IsStep d n none w = IsKept-refl w
  retry_by_reprocessing-IsStep d n (some id) w = reprocess_log-IsStep d n (get_log id w) w

  restart_delivery-IsKept :
      (o : Option Delivery) (w w' : World) → IsKept w w' → IsKept w (restart_delivery env o w')
  unfolding restart_delivery save_delivery
  restart_delivery-IsKept none w w' kept = kept
  restart_delivery-IsKept (some d) w w' kept = kept

  republished-IsKept :
      (d : DeadLetter) (n : ℕ) (o : Option Delivery) (answer : Option BrokerError × World)
      (w : World)
      → IsKept w answer.1
      → IsKept w (republished env d n o answer).1
  republished-IsKept d n o (none, w') w kept = restart_delivery-IsKept o w w' kept
  republished-IsKept d n o (some exc, w') w kept = kept

  send-IsSame : (m : OutboundMessage) (w : World) → IsSame w (send env m w).1
  send-IsSame m w = ground arith

  send-IsKept : (m : OutboundMessage) (w : World) → IsKept w (send env m w).1
  send-IsKept m w = IsSame-IsKept env w (send env m w).1 (send-IsSame m w)

  retry_by_republishing-IsKept :
      (d : DeadLetter) (n : ℕ) (o : Option Json) (w : World)
      → IsKept w (retry_by_republishing env d n o w).1
  unfolding retry_by_republishing
  retry_by_republishing-IsKept d n none w = IsKept-refl w
  retry_by_republishing-IsKept d n (some j) w = elim (Bool-cases (truthy j)) [
    | inl e ↦ rw e (
        let o = delivery_of env d.delivery_id w in
        republished-IsKept d n o (send env (republish_message env d j (queue_of env d o)) w) w
          (send-IsKept (republish_message env d j (queue_of env d o)) w))
    | inr e ↦ rw e (IsKept-refl w)
  ]

  pub retry_by_reason-IsStep :
      (d : DeadLetter) (n : ℕ) (reason : Reason) (w : World)
      → IsStep w (retry_by_reason env d n reason w)
  unfolding retry_by_reason
  retry_by_reason-IsStep d n malformed_message w = refl
  retry_by_reason-IsStep d n schema_violation w = retry_by_reprocessing-IsStep d n d.event_log_id w
  retry_by_reason-IsStep d n delivery_failed w = retry_by_republishing-IsKept d n d.raw_payload w
