-- ===== src/Delivery/Rejected.antt =====
-- backend/app/services/delivery_service.py: `handle_dlq_message`.
use core_desappsii.Base.{
  ℕ, Bool, true, false, Option, none, some, [], ◌++◌, if◌then◌else◌, take, is_empty, or_else, ◌==◌,
}
use core_desappsii.Text.{Text, lit}
use core_desappsii.Json.{Json, get, as_text, is_dict}
use core_desappsii.Errors.{Result, ok, err}
use core_desappsii.Model.Events.{
  EventLog, Delivery, DeadLetter, malformed_message, delivery_failed, attempts_exhausted,
}
use core_desappsii.Messaging.Broker.{InboundMessage, attempt}
use core_desappsii.World.{Env, World, add_dead_letter}
use core_desappsii.Repositories.Events.{get_by_event_id, find_for_event_and_module}
use core_desappsii.Hub.Intake.{record_malformed}
use core_desappsii.Delivery.Letters.{open_dead_letter, parse_id}
use core_desappsii.Delivery.Retries.{schedule_retry, exhaust}

module _ (env : Env) where
  abbrev nothing_opened : Result (Unit {0}) × World → Result (Option DeadLetter) × World
  nothing_opened (r, w) = (elim r [ ok _ ↦ ok none | err e ↦ err e ], w)

  abbrev opened_letter : DeadLetter × World → Result (Option DeadLetter) × World
  opened_letter (dead_letter, w) = (ok (some dead_letter), w)

  -- The end of `handle_dlq_message`, at the test `delivery.attempts_exhausted`.
  unfoldable pub retry_or_exhaust :
      Bool → Delivery → EventLog → Json → Text → World → Result (Option DeadLetter) × World
  unfolding exhaust schedule_retry
  retry_or_exhaust true delivery event_log body last_error w =
      opened_letter (exhaust env delivery event_log body last_error w)
  retry_or_exhaust false delivery event_log body last_error w =
      nothing_opened (schedule_retry env delivery (some event_log) body last_error w)

  -- The correlated part of `handle_dlq_message`: nothing where a retry was scheduled.
  unfoldable pub handle_rejection :
      Delivery → EventLog → Json → Text → World → Result (Option DeadLetter) × World
  unfolding retry_or_exhaust
  handle_rejection delivery event_log body last_error w =
      let delivery = record delivery { last_error = some (take 2000 last_error) } in
      retry_or_exhaust (attempts_exhausted delivery) delivery event_log body last_error w

  -- The part of `handle_dlq_message` for a message with no delivery on record.
  unfoldable pub uncorrelated_letter :
      Option EventLog → Option ℕ → Json → Option Text → Text → ℕ → DeadLetter
  unfolding open_dead_letter
  uncorrelated_letter event_log event_id body target_module last_error attempts =
      open_dead_letter event_log none event_id (as_text (get (lit "eventType") body))
        (as_text (get (lit "sourceModule") body)) target_module
        (elim event_log [ none ↦ malformed_message | some l ↦ delivery_failed ])
        (lit "No se pudo correlacionar el mensaje con una entrega registrada. Detalle: "
          ++ last_error)
        (if is_dict body then some body else none) (if attempts == 0 then 1 else attempts)

  -- The delivery that the message is about: the log must be there and the header must name a module.
  unfoldable pub correlate : Option EventLog → Option Text → World → Option (EventLog × Delivery)
  correlate none target_module w = none
  correlate (some l) none w = none
  correlate (some l) (some target) w =
      if is_empty target
      then none
      else elim (find_for_event_and_module l.id target w) [ none ↦ none | some d ↦ some (l, d) ]

  -- The event that the message names: by its header, or else by a text `eventId` of its body.
  unfoldable pub message_event_id : InboundMessage → Json → Option ℕ
  message_event_id message body = elim (parse_id env message.event_id_header) [
    | some id ↦ some id
    | none ↦ parse_id env (as_text (get (lit "eventId") body))
  ]

  abbrev log_of : Option ℕ → World → Option EventLog
  log_of none w = none
  log_of (some id) w = get_by_event_id id w

  unfoldable pub handle_found :
      InboundMessage
      → Json
      → Text
      → Option (EventLog × Delivery)
      → World
      → Result (Option DeadLetter) × World
  unfolding handle_rejection uncorrelated_letter message_event_id
  handle_found message body last_error (some (l, d)) w = handle_rejection d l body last_error w
  handle_found message body last_error none w =
      let event_id = message_event_id message body in
      let dead_letter =
        uncorrelated_letter (log_of event_id w) event_id body message.target_header last_error
          (attempt message) in
      (ok (some dead_letter), add_dead_letter dead_letter w)

  -- `headers.get(HEADER_ERROR) or "..."`
  unfoldable pub last_error_of : InboundMessage → Text
  last_error_of message =
      let error = or_else message.error_header [] in
      if is_empty error then lit "El consumidor rechazo el mensaje." else error

  unfoldable pub handle_body :
      InboundMessage → Option Json → World → Result (Option DeadLetter) × World
  unfolding handle_found correlate last_error_of
  handle_body message none w =
      let (dead_letter, w) = record_malformed env message.text message.queue w in
      (ok (some dead_letter), w)
  handle_body message (some body) w =
      handle_found message body (last_error_of message)
        (correlate (log_of (message_event_id message body) w) message.target_header w) w

  -- `handle_dlq_message`
  unfoldable pub handle_dlq_message : InboundMessage → World → Result (Option DeadLetter) × World
  unfolding handle_body record_malformed
  handle_dlq_message message w = handle_body message message.loaded w
