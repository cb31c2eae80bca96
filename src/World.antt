-- ===== src/World.antt =====
-- The state that the services share, and what they take from outside. The session's tables are lists
-- of rows; the clock, the identifiers, the broker, pydantic and jsonschema are the fields of `Env`.
use core_desappsii.Base.{
  ℕ, ◌+◌, ◌/◌, ◌-◌, Bool, not, Option, none, some, List, [], ◌∷◌, ◌++◌, same_id, update_rows,
  add_row, is_some, if◌then◌else◌, length, filterb,
}
use core_desappsii.Text.{Text}
use core_desappsii.Json.{Json}
use core_desappsii.Model.Events.{EventLog, Delivery, DeadLetter, RetryAudit}
use core_desappsii.Model.Registry.{ModuleAccount, EventType, Subscription, Publication}
use core_desappsii.RetryPolicy.{RetryPolicy}
use core_desappsii.Messaging.Broker.{OutboundMessage, BrokerError}
use core_desappsii.Messaging.Topology.{Settings, Topology}
use core_desappsii.Validation.{SchemaError}
use core_desappsii.Envelope.{EventEnvelope}

-- `uuid4 n` is the n-th identifier generated and `utcnow n` the n-th reading of the clock.
-- `publish n m` is the broker's answer to the n-th publish, and `declare n t` to the n-th declaration of
-- a topology: nothing, or the exception raised. `check_schema` is jsonschema's check of a schema.
-- `read_fields` and `to_wire` are pydantic's reading and dump of an envelope.
pub record Env : Type 0 where
  pub settings : Settings
  pub retry_policy : RetryPolicy
  pub uuid4 : ℕ → ℕ
  pub utcnow : ℕ → ℕ
  pub publish : ℕ → OutboundMessage → Option BrokerError
  pub healthy : Bool
  pub declare : ℕ → Topology → Option BrokerError
  pub check_schema : Json → Bool
  pub read_fields : Json → Option EventEnvelope
  pub to_wire : EventEnvelope → Json
  pub evaluates : Json → Json → Bool
  pub iter_errors : Json → Json → List SchemaError
  pub uuid_text : ℕ → Text
  pub parse_uuid : Text → Option ℕ
  pub trace_id : Text
  pub actor : Option Text

-- `sent` holds the messages that the broker took, and `declared` the topologies, oldest first.
-- `publishes`, `declares`, `readings` and `uuids`
-- count the calls made so far.
pub record World : Type 0 where
  pub event_logs : List EventLog
  pub deliveries : List Delivery
  pub dead_letters : List DeadLetter
  pub audits : List RetryAudit
  pub modules : List ModuleAccount
  pub event_types : List EventType
  pub subscriptions : List Subscription
  pub publications : List Publication
  pub sent : List OutboundMessage
  pub declared : List Topology
  pub publishes : ℕ
  pub declares : ℕ
  pub readings : ℕ
  pub uuids : ℕ

abbrev pub empty_world : World
empty_world = record {
  event_logs = [];
  deliveries = [];
  dead_letters = [];
  audits = [];
  modules = [];
  event_types = [];
  subscriptions = [];
  publications = [];
  sent = [];
  declared = [];
  publishes = 0;
  declares = 0;
  readings = 0;
  uuids = 0;
}

module _ (env : Env) where
  -- `utcnow()`
  abbrev pub now : World → ℕ
  now w = env.utcnow w.readings

  abbrev pub tick : World → World
  tick w = record w { readings = w.readings + 1 }

  -- `broker.publish(message)`
  abbrev pub send : OutboundMessage → World → Option BrokerError × World
  send m w = elim (env.publish w.publishes m) [
    | none ↦ (none, record w { sent = w.sent ++ m ∷ []; publishes = w.publishes + 1 })
    | some exc ↦ (some exc, record w { publishes = w.publishes + 1 })
  ]

  -- The rows that wait for an identifier take one each.
  unfoldable pub number_rows {ℓ} : {A : Type ℓ} → (A → Bool) → (ℕ → A → A) → ℕ → List A → List A
  number_rows pending assign n [] = []
  number_rows pending assign n (x ∷ xs) =
      (if pending x then assign (env.uuid4 n) x else x)
      ∷ number_rows pending assign (if pending x then n + 1 else n) xs

  -- `session.flush()`: `default=uuid.uuid4` runs for the new rows.
  unfoldable pub flush : World → World
  unfolding number_rows
  flush w =
      let new_delivery = λ (d : Delivery). not (is_some d.id) in
      let new_letter = λ (d : DeadLetter). not (is_some d.id) in
      let new_audit = λ (a : RetryAudit). not (is_some a.id) in
      let after_deliveries = w.uuids + length (filterb new_delivery w.deliveries) in
      let after_letters = after_deliveries + length (filterb new_letter w.dead_letters) in
      record w {
        deliveries =
            number_rows new_delivery (λ i d. record d { id = some i }) w.uuids w.deliveries;
        dead_letters =
            number_rows new_letter (λ i d. record d { id = some i }) after_deliveries
              w.dead_letters;
        audits = number_rows new_audit (λ i a. record a { id = some i }) after_letters w.audits;
        uuids = after_letters + length (filterb new_audit w.audits);
      }

  -- `event_log_repo.add(log)` and `flush()`: the object has its identifier afterwards.
  unfoldable pub add_log : EventLog → World → EventLog × World
  unfolding flush
  add_log log w =
      let log' = record log { id = some (env.uuid4 w.uuids) } in
      (log', flush (record w { event_logs = add_row log' w.event_logs; uuids = w.uuids + 1 }))

-- Writes to the attributes of an object that the session holds.
unfoldable pub save_log : EventLog → World → World
save_log log w = record w {
  event_logs = update_rows (λ r. same_id r.id log.id) (λ _. log) w.event_logs;
}

unfoldable pub save_delivery : Delivery → World → World
save_delivery d w = record w {
  deliveries = update_rows (λ r. same_id r.id d.id) (λ _. d) w.deliveries;
}

unfoldable pub save_dead_letter : DeadLetter → World → World
save_dead_letter d w = record w {
  dead_letters = update_rows (λ r. same_id r.id d.id) (λ _. d) w.dead_letters;
}

-- `repo.add(row)`, with no flush.
abbrev pub add_delivery : Delivery → World → World
add_delivery d w = record w { deliveries = add_row d w.deliveries }

abbrev pub add_dead_letter : DeadLetter → World → World
add_dead_letter d w = record w { dead_letters = add_row d w.dead_letters }

abbrev pub add_audit : RetryAudit → World → World
add_audit a w = record w { audits = add_row a w.audits }

-- The milliseconds between two readings, `max(int(...), 0)`.
abbrev pub elapsed_ms : (started now : ℕ) → ℕ
elapsed_ms started now = (now - started) / 1000
