-- ===== src/Hub/Samples.antt =====
-- A small registry, a broker that is up or down, and what the hub does with one event there.
use core_desappsii.Base.{
  All, ℕ, ◌+◌, ◌≡◌, refl, Bool, true, false, Option, none, some, [], ◌∷◌, ◌++◌, length, All, List,
  not, count_rows, arith, if◌then◌else◌, ltb,
}
use core_desappsii.Text.{Text, lit, text_eq, show, strip}
use core_desappsii.Json.{Json, obj, end, field, str}
use core_desappsii.Model.Events.{EventLog, IngestionChannel, rejected, no_subscribers, amqp, http}
use core_desappsii.Model.Registry.{ModuleAccount, EventType, Subscription}
use core_desappsii.RetryPolicy.{default_retry_policy}
use core_desappsii.Messaging.Broker.{BrokerError}
use core_desappsii.Messaging.Topology.{default_settings}
use core_desappsii.Validation.{Violation, report_details, violation_of}
use core_desappsii.Envelope.{EventEnvelope}
use core_desappsii.Repositories.Registry.{active_for_event_type}
use core_desappsii.World.{Env, World, empty_world}
use core_desappsii.Hub.Intake.{ingest, ingest_new, build_log}
use core_desappsii.Hub.Routing.{route}
use core_desappsii.Hub.Reprocess.{model_validate}
use core_desappsii.Hub.Rejection.{HasStatus, IsKept, ingest_new-status, ingest_new-rejected}
use core_desappsii.Hub.Evidence.{ingest_new-appends, ingest-ingest}
use core_desappsii.Hub.Messages.{IsFor, targets, route-sent}
use core_desappsii.Messaging.Broker.{OutboundMessage}
use core_desappsii.Hub.Messages.{IsFor, targets, route-sent}
use core_desappsii.Hub.Routes.{count, route-mentions}
use core_desappsii.Hub.Settled.{route-settled}
use core_desappsii.Hub.Numbered.{AreSettled, IsRecorded}
use core_desappsii.Hub.Runs.{ingest_all, seen_flags, ingest_all-refines}

abbrev timeout : BrokerError
timeout = record { class_name = lit "ConnectionError"; text = lit "timeout" }

-- A broker that is down for the first publish, when `down` says so. A schema refuses empty data.
abbrev pub sample_env : Bool → Env
sample_env down = record {
  settings = default_settings;
  retry_policy = default_retry_policy default_settings.retry_delays;
  uuid4 = λ n. 1000 + n;
  utcnow = λ n. n;
  publish = λ n m. if down then (if ltb 0 n then none else some timeout) else none;
  healthy = true;
  declare = λ n t. if down then some timeout else none;
  check_schema = λ j. true;
  read_fields = λ j. none;
  to_wire = λ e. str e.event_type;
  evaluates = λ schema payload. true;
  iter_errors = λ schema payload.
      record {
        absolute_path = [];
        validator = lit "required";
        validator_value = lit "id" ∷ [];
        instance_value = payload;
        message = lit "falta";
      }
      ∷ [];
  uuid_text = λ n. n ∷ [];
  parse_uuid = λ s. elim s [ [] ↦ none | n ∷ ns ↦ some n ];
  trace_id = lit "t";
  actor = some (lit "ana");
}

abbrev pub sample_module : ℕ → Text → ModuleAccount
sample_module id name = record {
  id = id;
  name = name;
  display_name = name;
  team = [];
  description = [];
  contact_email = none;
  secret_hash = none;
  is_admin = false;
  active = true;
  queue_name = none;
  last_login_at = none;
  last_publish_at = none;
}

abbrev pub sample_type : Option Json → EventType
sample_type schema = record {
  id = 7;
  name = lit "debtOverdue";
  description = [];
  owner_module = some (lit "rentas");
  discovered = false;
  json_schema = schema;
  first_seen_at = none;
  last_seen_at = none;
  total_received = 0;
}

abbrev pub sample_subscription : ℕ → ℕ → Subscription
sample_subscription id module_id = record {
  id = id;
  module_id = module_id;
  event_type_id = 7;
  max_attempts = 4;
  active = true;
}

abbrev pub sample_world : Option Json → World
sample_world schema = record empty_world {
  modules = sample_module 1 (lit "obras") ∷ sample_module 2 (lit "rentas") ∷ [];
  event_types = sample_type schema ∷ [];
  subscriptions = sample_subscription 21 1 ∷ sample_subscription 22 2 ∷ [];
}

abbrev pub sample_event : EventEnvelope
sample_event = record {
  event_id = 5;
  event_type = lit "debtOverdue";
  event_version = lit "1.0";
  occurred_at = record { instant = 3; has_offset = true };
  source_module = lit "rentas";
  correlation_id = none;
  causation_id = none;
  payload = obj end;
}

abbrev pub sample_log : EventLog
sample_log = record (build_log (sample_env true) sample_event amqp 0) { id = some 1000 }

abbrev pub sample_schema : Json
sample_schema = obj (field (lit "type") (str (lit "object")) end)

program : Unit {0}
unfolding ingest route model_validate violation_of strip lit text_eq default_settings
    default_retry_policy
program = tt

-- With the broker down for the first publish, one module is deferred and the other served.
one_deferred :
    ((ingest (sample_env true) sample_event amqp (sample_world none)).0.routed_to
      ≡ lit "rentas" ∷ [])
    × ((ingest (sample_env true) sample_event amqp (sample_world none)).0.deferred_to
        ≡ lit "obras" ∷ [])
    × ((ingest (sample_env true) sample_event amqp (sample_world (some sample_schema))).0.status
        ≡ rejected)
    × ((ingest (sample_env true) sample_event amqp empty_world).0.status ≡ no_subscribers)
unfolding program
one_deferred = (refl, refl, refl, refl)

ingest-ingest_example :
    ((ingest
        (sample_env true)
        sample_event
        http
        (ingest (sample_env true) sample_event amqp (sample_world none)).1).0.is_duplicate
      ≡ true)
    × ((ingest
          (sample_env true)
          sample_event
          http
          (ingest (sample_env true) sample_event amqp (sample_world none)).1).1
        ≡ record (ingest (sample_env true) sample_event amqp (sample_world none)).1 {
          readings =
              (ingest (sample_env true) sample_event amqp (sample_world none)).1.readings + 1;
        })
ingest-ingest_example =
    ingest-ingest (sample_env true) sample_event sample_event amqp http (sample_world none) tt refl

ingest_new-appends_example :
    ((ingest_new (sample_env true) sample_event amqp 0 (sample_world none)).1.event_logs
      ≡ (ingest_new (sample_env true) sample_event amqp 0 (sample_world none)).0.event_log ∷ [])
    × ((ingest_new (sample_env true) sample_event amqp 0 (sample_world none)).0.event_log.event_id
        ≡ 5)
    × ((ingest_new (sample_env true) sample_event amqp 0 (sample_world none)).0.event_log.envelope
        ≡ str (lit "debtOverdue"))
ingest_new-appends_example =
    ingest_new-appends (sample_env true) sample_event amqp 0 (sample_world none) tt

ingest_new-status_example :
    let result =
      ingest_new (sample_env true) sample_event amqp 0 (sample_world (some sample_schema)) in
    HasStatus rejected result.0 × (result.1.event_logs ≡ result.0.event_log ∷ [])
unfolding program
ingest_new-status_example =
    ingest_new-status (sample_env true) sample_event amqp 0 (sample_world (some sample_schema)) tt

-- What the sample schema says of the sample event.
abbrev sample_violation : Violation
sample_violation = record {
  message =
      lit "El `data` no cumple el schema declarado para este tipo de evento ("
      ++ (show 1 ++ lit " error(es)).");
  details = report_details ((sample_env true).iter_errors sample_schema (obj end));
}

ingest_new-rejected_example :
    IsKept
      (sample_env true)
      sample_event
      sample_violation
      (sample_world (some sample_schema))
      (ingest_new (sample_env true) sample_event amqp 0 (sample_world (some sample_schema)))
unfolding program
ingest_new-rejected_example =
    ingest_new-rejected (sample_env true) sample_event amqp 0 (sample_world (some sample_schema))
      sample_violation refl

route-mentions_example :
    count
        (lit "obras")
        (route (sample_env true) sample_log sample_event (sample_world none)).0.routed_to
      + count
          (lit "obras")
          (route (sample_env true) sample_log sample_event (sample_world none)).0.deferred_to
      + count
          (lit "obras")
          (route (sample_env true) sample_log sample_event (sample_world none)).0.already_delivered
    ≡ 1
unfolding program
route-mentions_example =
    route-mentions (sample_env true) sample_log sample_event (sample_world none) (lit "obras")

route-sent_example :
    let result = route (sample_env false) sample_log sample_event (sample_world none) in
    (ms : List OutboundMessage) × (result.1.sent ≡ ms)
    × (result.0.routed_to ≡ targets ms)
    × All
        (IsFor
          (sample_env false)
          sample_event
          (active_for_event_type sample_event.event_type (sample_world none)))
        ms
unfolding program
route-sent_example = route-sent (sample_env false) sample_log sample_event (sample_world none)

route-settled_example :
    AreSettled
      (some 1000)
      (route (sample_env true) sample_log sample_event (sample_world none)).1.deliveries
    × All
        (IsRecorded
          (some 1000)
          (route (sample_env true) sample_log sample_event (sample_world none)).1.deliveries)
        (active_for_event_type sample_event.event_type (sample_world none))
route-settled_example =
    route-settled (sample_env true) sample_log sample_event (sample_world none) 1000 refl refl

abbrev twice : List (EventEnvelope × IngestionChannel)
twice = (sample_event, amqp) ∷ (sample_event, http) ∷ []

ingest_all-refines_example :
    ((ingest_all (sample_env true) twice (sample_world none)).0 ≡ false ∷ true ∷ [])
    × (length (ingest_all (sample_env true) twice (sample_world none)).1.event_logs
        ≡ 0 + count_rows not (ingest_all (sample_env true) twice (sample_world none)).0)
unfolding seen_flags
ingest_all-refines_example =
    ingest_all-refines (sample_env true) twice (sample_world none) (λ m n e. omega (arith, e)) tt
