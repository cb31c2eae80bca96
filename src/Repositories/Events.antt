-- ===== src/Repositories/Events.antt =====
-- backend/app/repositories/event_repository.py: the log, deliveries, dead letters, and their queries.
use core_desappsii.Base.{
  ℕ, Bool, true, false, ◌&&◌, Option, none, some, List, [], ◌∷◌, leb, ◌==◌, if◌then◌else◌, same_id,
  find_one, filterb, take, is_some,
}
use core_desappsii.Text.{Text, text_eq}
use core_desappsii.Model.Events.{
  EventLog, Delivery, DeliveryStatus, retrying, DeadLetter, RetryAudit,
}
use core_desappsii.World.{World}

-- `EventLogRepository.get_by_event_id`
abbrev pub get_by_event_id : ℕ → World → Option EventLog
get_by_event_id event_id w = find_one (λ l. l.event_id == event_id) w.event_logs

-- `get` and `get_with_deliveries`
abbrev pub get_log : ℕ → World → Option EventLog
get_log id w = find_one (λ l. same_id l.id (some id)) w.event_logs

-- `list_for_event`, and the relationship `event.deliveries`.
abbrev pub list_for_event : Option ℕ → World → List Delivery
list_for_event log_id w = filterb (λ d. same_id d.event_log_id log_id) w.deliveries

-- `find_for_event_and_module`
abbrev pub find_for_event_and_module : Option ℕ → Text → World → Option Delivery
find_for_event_and_module log_id target_module w =
    find_one (λ d. same_id d.event_log_id log_id && text_eq d.target_module target_module)
      w.deliveries

-- `delivery_repo.get`
abbrev pub get_delivery : ℕ → World → Option Delivery
get_delivery id w = find_one (λ d. same_id d.id (some id)) w.deliveries

-- `get_with_retries`: the row, and below the audits that point at it, `dead_letter.retries`.
abbrev pub get_dead_letter : ℕ → World → Option DeadLetter
get_dead_letter id w = find_one (λ d. same_id d.id (some id)) w.dead_letters

-- `dead_letter.retries`, read from the table: the rows of the audits that have an identifier. The program
-- reads it once in a session for each dead letter.
abbrev pub retries_of : DeadLetter → World → List RetryAudit
retries_of d w = filterb (λ a. is_some a.id && same_id a.dead_letter_id d.id) w.audits

abbrev pub is_retrying : DeliveryStatus → Bool
is_retrying retrying = true
is_retrying DeliveryStatus.pending = false
is_retrying DeliveryStatus.delivered = false
is_retrying DeliveryStatus.dead = false
is_retrying DeliveryStatus.discarded = false

-- The condition `next_retry_at is not None and next_retry_at <= now`.
abbrev pub is_past : ℕ → Option ℕ → Bool
is_past now none = false
is_past now (some t) = leb t now

abbrev pub is_due : ℕ → Delivery → Bool
is_due now d = is_retrying d.status && is_past now d.next_retry_at

-- `order_by(next_retry_at)`, by insertion.
abbrev pub due_at : Delivery → ℕ
due_at d = elim d.next_retry_at [ none ↦ 0 | some t ↦ t ]

unfoldable pub insert_by_due : Delivery → List Delivery → List Delivery
insert_by_due d [] = d ∷ []
insert_by_due d (x ∷ xs) = if leb (due_at d) (due_at x) then d ∷ x ∷ xs else x ∷ insert_by_due d xs

unfoldable pub sort_by_due : List Delivery → List Delivery
unfolding insert_by_due
sort_by_due [] = []
sort_by_due (d ∷ ds) = insert_by_due d (sort_by_due ds)

unfoldable pub due_for_retry : (now limit : ℕ) → World → List Delivery
unfolding sort_by_due
due_for_retry now limit w = take limit (sort_by_due (filterb (is_due now) w.deliveries))
