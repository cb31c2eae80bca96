-- ===== src/Repositories/Search.antt =====
-- backend/app/repositories/event_repository.py: the searches of the dashboard, with the scope that
-- limits a module to its own traffic. `ilike` is the operator of the database, of a column and a
-- pattern. Where rows have the same time, the order of the source is open.
pub mod Scope
use core_desappsii.Base.{
  ℕ, Bool, true, false, ◌&&◌, ◌||◌, Option, none, some, List, [], ◌∷◌, ◌++◌, leb, ◌==◌,
  if◌then◌else◌, is_empty, any, filterb, same_id,
}
use core_desappsii.Base.Integers.{ℤ}
use core_desappsii.Text.{Text, lit, strip, text_eq, option_text_eq}
use core_desappsii.Model.Events.{
  EventStatus, routed, no_subscribers, rejected, duplicate, DeadLetterStatus, opened, retried,
  Reason, schema_violation, malformed_message, delivery_failed, EventLog, Delivery, DeadLetter,
}
use core_desappsii.World.{World}
use core_desappsii.Repositories.Paging.{Page, paginate}

-- `if value: stmt = stmt.where(...)`: the empty text filters nothing.
abbrev pub if_text : (Text → Bool) → Option Text → Bool
if_text test none = true
if_text test (some t) = if is_empty t then true else test t

abbrev pub if_given {ℓ} : {A : Type ℓ} → (A → Bool) → Option A → Bool
if_given test none = true
if_given test (some a) = test a

-- The value of a nullable column and a text.
abbrev pub column_is : Option Text → Text → Bool
column_is none t = false
column_is (some c) t = text_eq c t

-- The log of an event is a module's when it published the event or has a delivery of it.
unfoldable pub is_visible : World → Text → EventLog → Bool
is_visible w scope l =
    text_eq l.source_module scope
    || any (λ d. same_id d.event_log_id l.id && text_eq d.target_module scope) w.deliveries

-- `EventLogRepository._scoped`
unfoldable pub in_scope : World → Option Text → EventLog → Bool
unfolding is_visible
in_scope w scope l = if_text (λ s. is_visible w s l) scope

abbrev pub event_status_is : EventStatus → EventStatus → Bool
event_status_is a b = status_number a == status_number b
  where
    status_number : EventStatus → ℕ
    status_number routed = 0
    status_number no_subscribers = 1
    status_number rejected = 2
    status_number duplicate = 3

-- The arguments of `EventLogRepository.search`, but for the page.
pub record LogQuery : Type 0 where
  pub module_scope : Option Text
  pub query : Option Text
  pub event_type : Option Text
  pub source_module : Option Text
  pub target_module : Option Text
  pub status : Option EventStatus
  pub correlation_id : Option ℕ
  pub since : Option ℕ
  pub until : Option ℕ

-- `f"%{query.strip()}%"`
unfoldable pub pattern_of : Text → Text
unfolding strip
pattern_of query = lit "%" ++ strip query ++ lit "%"

-- `order_by(EventLog.received_at.desc())`
unfoldable pub insert_log : EventLog → List EventLog → List EventLog
insert_log l [] = l ∷ []
insert_log l (x ∷ xs) = if leb x.received_at l.received_at then l ∷ x ∷ xs else x ∷ insert_log l xs

unfoldable pub newest_first : List EventLog → List EventLog
unfolding insert_log
newest_first [] = []
newest_first (l ∷ ls) = insert_log l (newest_first ls)

module _ (ilike : Text → Text → Bool) where
  -- The `where` of `EventLogRepository.search`.
  unfoldable pub is_match : World → LogQuery → EventLog → Bool
  unfolding in_scope pattern_of
  is_match w q l =
      in_scope w q.module_scope l
      && (if_text (λ t. ilike l.event_type (pattern_of t) || ilike l.source_module (pattern_of t))
            q.query
          && (if_text (text_eq l.event_type) q.event_type
              && (if_text (text_eq l.source_module) q.source_module
                  && (if_text
                        (λ t.
                          any (λ d. same_id d.event_log_id l.id && text_eq d.target_module t)
                            w.deliveries)
                        q.target_module
                      && (if_given (event_status_is l.status) q.status
                          && (if_given
                                (λ i. elim l.correlation_id [ none ↦ false | some c ↦ c == i ])
                                q.correlation_id
                              && (if_given (λ t. leb t l.received_at) q.since
                                  && if_given (λ t. leb l.received_at t) q.until)))))))

  -- `EventLogRepository.search`
  unfoldable pub search_logs : LogQuery → (page size : ℤ) → World → Page EventLog
  unfolding is_match newest_first paginate
  search_logs q page size w =
      paginate (newest_first (filterb (is_match w q) w.event_logs)) page size

-- `DeadLetterRepository._scoped`
unfoldable pub letter_in_scope : Option Text → DeadLetter → Bool
letter_in_scope scope d =
    if_text (λ s. column_is d.source_module s || column_is d.target_module s) scope

abbrev pub letter_status_is : DeadLetterStatus → DeadLetterStatus → Bool
letter_status_is a b = number_of a == number_of b
  where
    number_of : DeadLetterStatus → ℕ
    number_of opened = 0
    number_of retried = 1
    number_of DeadLetterStatus.discarded = 2

-- The texts of the `REASON_…` constants.
unfoldable pub reason_text : Reason → Text
reason_text schema_violation = lit "SCHEMA_VIOLATION"
reason_text malformed_message = lit "MALFORMED_MESSAGE"
reason_text delivery_failed = lit "DELIVERY_FAILED"
