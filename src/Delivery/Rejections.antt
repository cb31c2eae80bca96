-- ===== src/Delivery/Rejections.antt =====
-- A consumer that rejects one delivery again and again: the attempts are counted, and run out.
use core_desappsii.Base.{
  subst, ◌||◌, leb, ℕ, zero, suc, ◌+◌, ◌≤◌, ◌<◌, ◌≡◌, refl, ◌∙◌, ap, Bool, true, false, Option,
  none, some, List, arith, length, length-add_row, take,
}
use core_desappsii.Text.{Text}
use core_desappsii.Json.{Json, is_dict, obj, null, bool, number, str, arr}
use core_desappsii.Errors.{is_ok}
use core_desappsii.Model.Events.{EventLog, Delivery, retrying, dead, DeadLetter}
use core_desappsii.World.{Env, World}
use core_desappsii.Repositories.Events.{get_delivery}
use core_desappsii.Delivery.Rejected.{handle_rejection, retry_or_exhaust}
use core_desappsii.Delivery.Retries.{schedule_retry, exhausted_letter}
use core_desappsii.Delivery.Attempts.{
  IsAwaiting, IsAt, IsRetried, retry_or_exhaust-IsRetried, retry_or_exhaust-dies,
}

module _ (env : Env) where
  -- The consumer rejects the delivery `id` n times, with one body and one error. Each time the delivery
  -- is read from the table.
  abbrev rejected_once : EventLog → Json → Text → Option Delivery → World → World
  rejected_once l body t none w = w
  rejected_once l body t (some d) w = (handle_rejection env d l body t w).1

  unfoldable pub rejections : ℕ → ℕ → EventLog → Json → Text → World → World
  rejections zero id l body t w = w
  rejections (suc n) id l body t w =
      rejections n id l body t (rejected_once l body t (get_delivery id w) w)

  one_more :
      (id : ℕ) (d : Delivery) (l : EventLog) (body : Json) (t : Text) (w : World)
      → get_delivery id w ≡ some d
      → d.id ≡ some id
      → is_dict body ≡ true
      → d.attempts < d.max_attempts
      → IsRetried env id d body w (rejected_once l body t (get_delivery id w) w)
  unfolding handle_rejection
  one_more id d l body t w found named dict more = rw found (
      retry_or_exhaust-IsRetried env _ id (record d { last_error = some (take 2000 t) }) d l body t
        w found named dict (ground arith))

  last_one :
      (id : ℕ) (d : Delivery) (l : EventLog) (body : Json) (t : Text) (w : World)
      → get_delivery id w ≡ some d
      → d.id ≡ some id
      → d.max_attempts ≤ d.attempts
      → IsAt id d.attempts d.max_attempts dead (rejected_once l body t (get_delivery id w) w)
        × (length (rejected_once l body t (get_delivery id w) w).dead_letters
            ≡ length w.dead_letters + 1)
  unfolding handle_rejection
  last_one id d l body t w found named out =
      let d' = record d { last_error = some (take 2000 t) } in
      let (at, letters) =
        retry_or_exhaust-dies env _ id d' d l body t w found named (ground arith) in
      rw found (
        at,
        ap (λ (ds : List DeadLetter). length ds) letters
            ∙ length-add_row (exhausted_letter env d' l body t) w.dead_letters,
      )

  pub rejections-retry :
      (n id : ℕ) (d : Delivery) (l : EventLog) (body : Json) (t : Text) (w : World)
      → get_delivery id w ≡ some d
      → d.id ≡ some id
      → is_dict body ≡ true
      → d.attempts + suc n ≤ d.max_attempts
      → IsAt id (d.attempts + suc n) d.max_attempts retrying (rejections (suc n) id l body t w)
        × ((rejections (suc n) id l body t w).dead_letters ≡ w.dead_letters)
        × IsAwaiting env id
            (d.attempts + n)
            body
            (rejections n id l body t w)
            (rejections (suc n) id l body t w)
  unfolding rejections
  rejections-retry zero id d l body t w found named dict left =
      let ((d1, f1, n1, a1, m1, s1), letters, awaits) =
        one_more id d l body t w found named dict (omega arith) in
      ((d1, f1, n1, omega arith, m1, s1), letters, subst_attempts (omega arith) awaits)
    where
      subst_attempts :
          d.attempts ≡ d.attempts + 0
          → IsAwaiting env id d.attempts body w (rejections 1 id l body t w)
          → IsAwaiting env id (d.attempts + 0) body w (rejections 1 id l body t w)
      subst_attempts e h = subst (λ k. IsAwaiting env id k body w (rejections 1 id l body t w)) e h
  rejections-retry (suc n) id d l body t w found named dict left =
      let ((d1, f1, n1, a1, m1, s1), letters, _) =
        one_more id d l body t w found named dict (omega arith) in
      let w1 = rejected_once l body t (get_delivery id w) w in
      let ((d2, f2, n2, a2, m2, s2), letters2, awaits) =
        rejections-retry n id d1 l body t w1 f1 n1 dict (omega arith) in
      let counted : d1.attempts + n ≡ d.attempts + suc n = omega arith in
      (
        (d2, f2, n2, omega arith, m2 ∙ m1, s2),
        letters2 ∙ letters,
        subst
            (λ k.
              IsAwaiting env id k body (rejections n id l body t w1)
                (rejections (suc n) id l body t w1))
            counted awaits,
      )

  -- A delivery on record with k attempts left dies at the (k+1)-th rejection of a message that is a JSON object,
  -- whatever the broker answers: its attempts stand at the limit, it is dead, and exactly one dead letter
  -- was opened on the way.
  pub rejections-dies :
      (k id : ℕ) (d : Delivery) (l : EventLog) (body : Json) (t : Text) (w : World)
      → get_delivery id w ≡ some d
      → d.id ≡ some id
      → is_dict body ≡ true
      → d.attempts + k ≡ d.max_attempts
      → IsAt id d.max_attempts d.max_attempts dead (rejections (suc k) id l body t w)
        × (length (rejections (suc k) id l body t w).dead_letters ≡ length w.dead_letters + 1)
  unfolding rejections
  rejections-dies zero id d l body t w found named dict left =
      let ((d1, f1, n1, a1, m1, s1), letters) =
        last_one id d l body t w found named (omega arith) in
      ((d1, f1, n1, omega arith, m1, s1), letters)
  rejections-dies (suc k) id d l body t w found named dict left =
      let ((d1, f1, n1, a1, m1, s1), letters, _) =
        one_more id d l body t w found named dict (omega arith) in
      let ((d2, f2, n2, a2, m2, s2), letters2) =
        rejections-dies k id d1 l body t (rejected_once l body t (get_delivery id w) w) f1 n1 dict
          (omega arith) in
      (
        (d2, f2, n2, a2 ∙ m1, m2 ∙ m1, s2),
        omega (arith, letters2, ap (λ (ds : List DeadLetter). length ds) letters),
      )

  retry_or_exhaust-fails :
      (b : Bool) (d : Delivery) (l : EventLog) (body : Json) (t : Text) (w : World)
      → (is_ok (retry_or_exhaust env b d l body t w).0 ≡ b || is_dict body)
        × (is_ok (retry_or_exhaust env b d l body t w).0 ≡ false
            → ((retry_or_exhaust env b d l body t w).1.sent ≡ w.sent)
              × ((retry_or_exhaust env b d l body t w).1.dead_letters ≡ w.dead_letters)
              × ((retry_or_exhaust env b d l body t w).1.audits ≡ w.audits))
  unfolding retry_or_exhaust schedule_retry
  retry_or_exhaust-fails true d l body t w = (refl, λ h. absurd (cc h))
  retry_or_exhaust-fails false d l (obj fs) t w = (refl, λ h. absurd (cc h))
  retry_or_exhaust-fails false d l null t w = (refl, λ h. (refl, refl, refl))
  retry_or_exhaust-fails false d l (bool b) t w = (refl, λ h. (refl, refl, refl))
  retry_or_exhaust-fails false d l (number n) t w = (refl, λ h. (refl, refl, refl))
  retry_or_exhaust-fails false d l (str s) t w = (refl, λ h. (refl, refl, refl))
  retry_or_exhaust-fails false d l (arr xs) t w = (refl, λ h. (refl, refl, refl))

  -- The handling of a rejected delivery raises exactly when attempts are left and the body of the message
  -- is not a JSON object, whatever the broker answers.
  pub handle_rejection-is_ok :
      (d : Delivery) (l : EventLog) (body : Json) (t : Text) (w : World)
      → is_ok (handle_rejection env d l body t w).0 ≡ leb d.max_attempts d.attempts || is_dict body
  unfolding handle_rejection
  handle_rejection-is_ok d l body t w =
      (retry_or_exhaust-fails (leb d.max_attempts d.attempts)
        (record d { last_error = some (take 2000 t) }) l body t w).0

  -- Where the handling of a rejected delivery raises, the message is gone: none was published, no dead
  -- letter was opened and no audit written.
  pub handle_rejection-lost :
      (d : Delivery) (l : EventLog) (body : Json) (t : Text) (w : World)
      → is_ok (handle_rejection env d l body t w).0 ≡ false
      → ((handle_rejection env d l body t w).1.sent ≡ w.sent)
        × ((handle_rejection env d l body t w).1.dead_letters ≡ w.dead_letters)
        × ((handle_rejection env d l body t w).1.audits ≡ w.audits)
  unfolding handle_rejection
  handle_rejection-lost d l body t w =
      (retry_or_exhaust-fails (leb d.max_attempts d.attempts)
        (record d { last_error = some (take 2000 t) }) l body t w).1
