-- ===== src/Delivery/Due/Sent.antt =====
-- One round of the scan, with a broker that takes the message.
use core_desappsii.Base.{
  ℕ, ◌+◌, ◌≡◌, refl, ap, ◌∙◌, true, Option, none, some, List, [], ◌∷◌, ◌++◌, All, is_some,
  Option-cases, inl, inr,
}
use core_desappsii.Base.Keys.{All-each}
use core_desappsii.Model.Events.{Delivery}
use core_desappsii.Messaging.Broker.{OutboundMessage}
use core_desappsii.World.{Env, World, send, save_delivery}
use core_desappsii.Delivery.Due.{due_message, due_sent, process_one, log_of}

-- The delivery has an identifier, and its event is in the log.
abbrev pub IsStored : Env → World → Delivery → Type 0
IsStored env w d = (is_some d.id ≡ true) × (is_some (log_of env d.event_log_id w) ≡ true)

module _ (env : Env) where
  log_of-event_logs :
      (o : Option ℕ) (v w : World) → v.event_logs ≡ w.event_logs → log_of env o v ≡ log_of env o w
  log_of-event_logs none v w e = refl
  log_of-event_logs (some id) v w e = rw e refl

  pub IsStored-event_logs :
      (ds : List Delivery) (v w : World)
      → v.event_logs ≡ w.event_logs
      → All (IsStored env w) ds
      → All (IsStored env v) ds
  IsStored-event_logs ds v w e h =
      All-each ds (λ d s. (s.0, ap is_some (log_of-event_logs d.event_log_id v w e) ∙ s.1)) h

  pub send_up :
      (m : OutboundMessage) (w : World)
      → env.publish w.publishes m ≡ none
      → send env m w ≡ (none, record w { sent = w.sent ++ m ∷ []; publishes = w.publishes + 1 })
  send_up m w up = rw (up, send) refl

  pub process_one-event_logs :
      (started : ℕ) (d : Delivery) (w : World)
      → ((n : ℕ) (m : OutboundMessage) → env.publish n m ≡ none)
      → IsStored env w d
      → (process_one env started d (log_of env d.event_log_id w) w).1.event_logs ≡ w.event_logs
  unfolding process_one due_sent save_delivery
  process_one-event_logs started d w up stored = elim (Option-cases (log_of env d.event_log_id w)) [
    | inr e ↦ absurd (cc (stored.1, e))
    | inl (log, e) ↦
        let d' = record d { attempts = d.attempts + 1 } in
        rw (e, send_up (due_message env d' log) w (up w.publishes (due_message env d' log))) refl
  ]
