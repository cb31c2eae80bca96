-- ===== src/Delivery/Due/Rows.antt =====
-- What one round of the scan does to the row of a delivery, and to the rows of the others.
use core_desappsii.Base.{
  ℕ, ◌+◌, ◌≡◌, refl, sym, ap, subst, Bool, true, false, none, some, List, [], ◌∷◌, ◌++◌, same_id,
  is_some, find_one, update_rows, ◌==◌, Bool-cases, Option-cases, inl, inr, if◌then◌else◌,
}
use core_desappsii.Base.Selections.{same_id-eq}
use core_desappsii.Model.Events.{Delivery, delivered}
use core_desappsii.Messaging.Broker.{OutboundMessage}
use core_desappsii.World.{Env, World, now, save_delivery}
use core_desappsii.Repositories.Events.{get_delivery}
use core_desappsii.Delivery.Attempts.{get_delivery-save}
use core_desappsii.Delivery.Due.{due_message, due_sent, process_one, log_of}
use core_desappsii.Delivery.Due.Sent.{IsStored, send_up}

-- The rows with the identifier.
abbrev pub has_id : ℕ → Delivery → Bool
has_id id r = same_id r.id (some id)

-- The delivery went out: one more attempt, delivered at some time, no wait any more.
abbrev pub IsCompleted : ℕ → Delivery → World → Type 0
IsCompleted id d after =
    (d' : Delivery) × (get_delivery id after ≡ some d')
    × (d'.status ≡ delivered)
    × (d'.attempts ≡ d.attempts + 1)
    × (d'.next_retry_at ≡ none)
    × (is_some d'.delivered_at ≡ true)
    × (d'.target_module ≡ d.target_module)

abbrev sent_row : Delivery → ℕ → Delivery
sent_row d t = record d {
  attempts = d.attempts + 1;
  status = delivered;
  delivered_at = some t;
  next_retry_at = none;
}

abbrev sent_world : OutboundMessage → World → World
sent_world m w = record w { sent = w.sent ++ m ∷ []; publishes = w.publishes + 1 }

-- Saving a delivery leaves the rows with other identifiers.
find_one-update_rows_other :
    (id other : ℕ) (new : Delivery) (rows : List Delivery)
    → (other == id) ≡ false
    → new.id ≡ some other
    → find_one (has_id id) (update_rows (has_id other) (λ _. new) rows) ≡ find_one (has_id id) rows
find_one-update_rows_other id other new [] differ named = refl
find_one-update_rows_other id other new (r ∷ rows) differ named =
    elim (Bool-cases (has_id other r)) [
      | inl e ↦
          let same : r.id ≡ some other = same_id-eq r.id other e in
          rw (e, named)
            (rw (same, differ) (find_one-update_rows_other id other new rows differ named))
      | inr e ↦ rw e (
          ap (λ o. if has_id id r then some r else o)
            (find_one-update_rows_other id other new rows differ named))
    ]

get_delivery-save_other :
    (id other : ℕ) (new : Delivery) (w : World)
    → (other == id) ≡ false
    → new.id ≡ some other
    → get_delivery id (save_delivery new w) ≡ get_delivery id w
unfolding save_delivery
get_delivery-save_other id other new w differ named =
    subst
      (λ k.
        find_one (has_id id) (update_rows (λ r. same_id r.id k) (λ _. new) w.deliveries)
        ≡ get_delivery id w)
      (sym named) (find_one-update_rows_other id other new w.deliveries differ named)

module _ (env : Env) where
  pub process_one_other :
      (id other started : ℕ) (d : Delivery) (w : World)
      → ((n : ℕ) (m : OutboundMessage) → env.publish n m ≡ none)
      → IsStored env w d
      → d.id ≡ some other
      → (other == id) ≡ false
      → get_delivery id (process_one env started d (log_of env d.event_log_id w) w).1
        ≡ get_delivery id w
  unfolding process_one due_sent
  process_one_other id other started d w up stored named differ =
      elim (Option-cases (log_of env d.event_log_id w)) [
        | inr e ↦ absurd (cc (stored.1, e))
        | inl (log, e) ↦
            let d' = record d { attempts = d.attempts + 1 } in
            let w1 = sent_world (due_message env d' log) w in
            rw (e, send_up env (due_message env d' log) w (up w.publishes (due_message env d' log)))
              (get_delivery-save_other id other (sent_row d (now env w1)) w differ named)
      ]

  pub process_one_own :
      (id started : ℕ) (d d0 : Delivery) (w : World)
      → ((n : ℕ) (m : OutboundMessage) → env.publish n m ≡ none)
      → IsStored env w d
      → d.id ≡ some id
      → get_delivery id w ≡ some d0
      → IsCompleted id d (process_one env started d (log_of env d.event_log_id w) w).1
  unfolding process_one due_sent
  process_one_own id started d d0 w up stored named there =
      elim (Option-cases (log_of env d.event_log_id w)) [
        | inr e ↦ absurd (cc (stored.1, e))
        | inl (log, e) ↦
            let d' = record d { attempts = d.attempts + 1 } in
            let w1 = sent_world (due_message env d' log) w in
            rw (e, send_up env (due_message env d' log) w (up w.publishes (due_message env d' log)))
              (
                sent_row d (now env w1),
                get_delivery-save id d0 (sent_row d (now env w1)) w there named,
                refl,
                refl,
                refl,
                refl,
                refl,
              )
      ]
