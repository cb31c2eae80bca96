-- ===== src/Delivery/Operator/Discard.antt =====
-- backend/app/services/delivery_service.py: `discard_dead_letter`.
use core_desappsii.Base.{ℕ, ◌+◌, Option, none, some, ◌++◌, if◌then◌else◌, take, length, is_empty}
use core_desappsii.Text.{Text, lit, strip}
use core_desappsii.Errors.{Result, ok, err, not_found, conflict}
use core_desappsii.Model.Events.{
  Delivery, DeliveryStatus, DeadLetter, DeadLetterStatus, RetryAudit, manual, failure,
}
use core_desappsii.World.{Env, World, now, tick, save_delivery, save_dead_letter, add_audit}
use core_desappsii.Repositories.Events.{get_dead_letter, retries_of}
use core_desappsii.Delivery.Operator.Outcomes.{is_open}
use core_desappsii.Delivery.Operator.Choice.{current_actor, delivery_of}

module _ (env : Env) where
  unfoldable pub discard_delivery : Option Delivery → World → World
  unfolding save_delivery
  discard_delivery none w = w
  discard_delivery (some delivery) w =
      save_delivery (record delivery { status = DeliveryStatus.discarded; next_retry_at = none }) w

  -- `discard_dead_letter` past its guards.
  unfoldable pub discard : DeadLetter → Text → World → DeadLetter × World
  unfolding discard_delivery save_dead_letter
  discard d reason w =
      let d' = record d {
        status = DeadLetterStatus.discarded;
        resolved_at = some (now env w);
        resolved_by = some (current_actor env);
        resolution_notes = some (take 2000 (strip reason));
      } in
      let attempt_number = length (retries_of d w) + 1 in
      let audit : RetryAudit = record {
        id = none;
        dead_letter_id = d.id;
        delivery_id = d.delivery_id;
        event_id = d.event_id;
        mode = manual;
        actor = current_actor env;
        attempt_number = attempt_number;
        result = failure;
        error = some (lit "Descartado manualmente: " ++ take 500 (strip reason));
        target_module = d.target_module;
      } in
      let w = save_dead_letter d' (tick env w) in
      (d', add_audit audit (discard_delivery (delivery_of env d.delivery_id w) w))

  unfoldable pub discard_found : Option DeadLetter → Text → World → Result DeadLetter × World
  unfolding discard
  discard_found none reason w = (err not_found, w)
  discard_found (some d) reason w =
      if is_open d.status
      then (let (d', w) = discard d reason w in (ok d', w))
      else (err conflict, w)

  -- `discard_dead_letter`
  unfoldable pub discard_dead_letter : ℕ → Text → World → Result DeadLetter × World
  unfolding discard_found
  discard_dead_letter id reason w =
      if is_empty (strip reason)
      then (err conflict, w)
      else discard_found (get_dead_letter id w) reason w
