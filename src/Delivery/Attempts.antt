-- ===== src/Delivery/Attempts.antt =====
-- One rejection of a delivery on record: the attempt that it schedules, or the end of the delivery.
use core_desappsii.Base.{
  Option-cases, inl, inr, ◌⊎◌, ap, List, ℕ, ◌+◌, ◌≡◌, refl, ◌∙◌, Bool, true, false, Option, none,
  some, [], ◌∷◌, ◌++◌, arith, same_id, ==_refl, find_one, update_rows, find_one-update_rows_self,
  subst, sym,
}
use core_desappsii.Text.{Text}
use core_desappsii.Json.{Json, is_dict, obj, null, bool, number, str, arr}
use core_desappsii.Model.Events.{EventLog, Delivery, DeliveryStatus, retrying, dead}
use core_desappsii.Messaging.Broker.{OutboundMessage, BrokerError}
use core_desappsii.World.{Env, World, save_delivery, send, now, tick}
use core_desappsii.Repositories.Events.{get_delivery}
use core_desappsii.Hub.Outcome.{seconds}
use core_desappsii.Delivery.Rejected.{retry_or_exhaust}
use core_desappsii.Delivery.Retries.{
  schedule_retry, after_publish_retry, exhausted_letter, retry_message,
}

-- The row of the delivery with its attempts, its status and the limit that it always had.
abbrev pub IsAt : ℕ → ℕ → ℕ → DeliveryStatus → World → Type 0
IsAt id attempts max_attempts status w =
    (d : Delivery) × (get_delivery id w ≡ some d)
    × (d.id ≡ some id)
    × (d.attempts ≡ attempts)
    × (d.max_attempts ≡ max_attempts)
    × (d.status ≡ status)

pub get_delivery-save :
    (id : ℕ) (d d' : Delivery) (w : World)
    → get_delivery id w ≡ some d
    → d'.id ≡ some id
    → get_delivery id (save_delivery d' w) ≡ some d'
unfolding save_delivery
get_delivery-save id d d' w found named =
    subst
      (λ k.
        find_one (λ r. same_id r.id (some id))
          (update_rows (λ r. same_id r.id k) (λ _. d') w.deliveries)
        ≡ some d')
      (sym named)
      (find_one-update_rows_self (λ r. same_id r.id (some id)) w.deliveries d d' found
        (rw (named, ==_refl)))

-- The next attempt is on its way: the broker took the retry message of the n-th attempt, last of all and
-- with its delay, or it took none and the delivery waits for the scan, for as long.
abbrev pub IsAwaiting : Env → (id n : ℕ) → Json → (before after : World) → Type 0
IsAwaiting env id n body before after =
    let delay = env.retry_policy.delay_for n in
    (d : Delivery) × (get_delivery id after ≡ some d)
    × (((d.next_retry_at ≡ none)
          × (after.sent ≡ before.sent ++ retry_message env d body delay n ∷ []))
        ⊎ ((d.next_retry_at ≡ some (now env before + seconds delay)) × (after.sent ≡ before.sent)))

-- After one rejection: how many attempts there were, whether a dead letter was opened, and what the
-- next attempt waits for.
abbrev pub IsRetried : Env → ℕ → Delivery → Json → World → World → Type 0
IsRetried env id d body before after =
    IsAt id (d.attempts + 1) d.max_attempts retrying after
    × (after.dead_letters ≡ before.dead_letters)
    × IsAwaiting env id d.attempts body before after

module _ (env : Env) where
  after_publish_retry-IsAt :
      (id : ℕ) (d d0 : Delivery) (o : Option EventLog) (n : ℕ) (t : Text) (w : World)
      (answer : Option BrokerError)
      → get_delivery id w ≡ some d0
      → d.id ≡ some id
      → d.status ≡ retrying
      → IsAt id d.attempts d.max_attempts retrying (after_publish_retry env d o n t (answer, w))
        × ((after_publish_retry env d o n t (answer, w)).dead_letters ≡ w.dead_letters)
  unfolding after_publish_retry
  after_publish_retry-IsAt id d d0 o n t w none found named status = (
    (
      _,
      get_delivery-save id d0 (record d { next_retry_at = none }) w found named,
      named,
      refl,
      refl,
      status,
    ),
    refl,
  )
  after_publish_retry-IsAt id d d0 o n t w (some exc) found named status =
      ((_, get_delivery-save id d0 d w found named, named, refl, refl, status), refl)

  send-keeps :
      (m : OutboundMessage) (w : World)
      → ((send env m w).1.deliveries ≡ w.deliveries)
        × ((send env m w).1.dead_letters ≡ w.dead_letters)
  send-keeps m w = ground arith

  after_publish_retry-IsAwaiting :
      (id n : ℕ) (d d0 : Delivery) (o : Option EventLog) (body : Json) (t : Text) (before w : World)
      → get_delivery id w ≡ some d0
      → d.id ≡ some id
      → d.next_retry_at ≡ some (now env before + seconds (env.retry_policy.delay_for n))
      → w.sent ≡ before.sent
      → IsAwaiting env id n body before (
          after_publish_retry env d o n t
            (send env (retry_message env d body (env.retry_policy.delay_for n) n) w))
  unfolding after_publish_retry retry_message
  after_publish_retry-IsAwaiting id n d d0 o body t before w found named wait same =
      let m = retry_message env d body (env.retry_policy.delay_for n) n in
      elim (Option-cases (env.publish w.publishes m)) [
        | inl (exc, e) ↦ rw (e, send) (d, get_delivery-save id d0 d w found named, inr (wait, same))
        | inr e ↦
            rw (e, send)
              (
                record d { next_retry_at = none },
                get_delivery-save id d0 (record d { next_retry_at = none }) w found named,
                inl (refl, ap (λ (ms : List OutboundMessage). ms ++ m ∷ []) same),
              )
      ]

  schedule_retry-IsRetried :
      (id : ℕ) (d d0 : Delivery) (o : Option EventLog) (body : Json) (t : Text) (w : World)
      → get_delivery id w ≡ some d0
      → d.id ≡ some id
      → is_dict body ≡ true
      → IsRetried env id d body w (schedule_retry env d o body t w).1
  unfolding schedule_retry
  schedule_retry-IsRetried id d d0 o (obj fs) t w found named dict =
      let n = d.attempts in
      let delay = env.retry_policy.delay_for n in
      let d' = record d {
        attempts = n + 1;
        status = retrying;
        next_retry_at = some (now env w + seconds delay);
      } in
      let m = retry_message env d' (obj fs) delay n in
      let (rows, letters) = send-keeps m (tick env w) in
      let (at, kept) =
        after_publish_retry-IsAt id d' d0 o n t (send env m (tick env w)).1
          (send env m (tick env w)).0 (rw rows found) named refl in
      (
        at,
        kept ∙ letters,
        after_publish_retry-IsAwaiting id n d' d0 o (obj fs) t w (tick env w) found named refl refl,
      )
  schedule_retry-IsRetried id d d0 o null t w found named dict = absurd (cc dict)
  schedule_retry-IsRetried id d d0 o (bool b) t w found named dict = absurd (cc dict)
  schedule_retry-IsRetried id d d0 o (number n) t w found named dict = absurd (cc dict)
  schedule_retry-IsRetried id d d0 o (str s) t w found named dict = absurd (cc dict)
  schedule_retry-IsRetried id d d0 o (arr xs) t w found named dict = absurd (cc dict)

  pub retry_or_exhaust-IsRetried :
      (b : Bool) (id : ℕ) (d d0 : Delivery) (l : EventLog) (body : Json) (t : Text) (w : World)
      → get_delivery id w ≡ some d0
      → d.id ≡ some id
      → is_dict body ≡ true
      → b ≡ false
      → IsRetried env id d body w (retry_or_exhaust env b d l body t w).1
  unfolding retry_or_exhaust
  retry_or_exhaust-IsRetried true id d d0 l body t w found named dict more = absurd (cc more)
  retry_or_exhaust-IsRetried false id d d0 l body t w found named dict more =
      schedule_retry-IsRetried id d d0 (some l) body t w found named dict

  pub retry_or_exhaust-dies :
      (b : Bool) (id : ℕ) (d d0 : Delivery) (l : EventLog) (body : Json) (t : Text) (w : World)
      → get_delivery id w ≡ some d0
      → d.id ≡ some id
      → b ≡ true
      → IsAt id d.attempts d.max_attempts dead (retry_or_exhaust env b d l body t w).1
        × ((retry_or_exhaust env b d l body t w).1.dead_letters
            ≡ w.dead_letters ++ exhausted_letter env d l body t ∷ [])
  unfolding retry_or_exhaust
  retry_or_exhaust-dies false id d d0 l body t w found named out = absurd (cc out)
  retry_or_exhaust-dies true id d d0 l body t w found named out =
      let d' = record d { status = dead; next_retry_at = none } in
      ((_, get_delivery-save id d0 d' w found named, named, refl, refl, refl), refl)
