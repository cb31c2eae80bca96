-- ===== src/Worker/Samples.antt =====
-- One message of the inbox, delivered twice, and one that is no envelope.
use core_desappsii.Base.{◌+◌, ◌≡◌, refl, false, some, none, [], length}
use core_desappsii.Text.{lit, strip, lower, text_eq}
use core_desappsii.Json.{obj, end}
use core_desappsii.Messaging.Broker.{InboundMessage}
use core_desappsii.Messaging.Topology.{default_settings}
use core_desappsii.RetryPolicy.{default_retry_policy}
use core_desappsii.Envelope.{validate_envelope}
use core_desappsii.World.{Env}
use core_desappsii.Validation.{validate_data}
use core_desappsii.Hub.Samples.{sample_schema, sample_env, sample_event, sample_world}
use core_desappsii.Worker.{read_envelope, handle_inbox}
use core_desappsii.Worker.Intake.{
  IsAccounted, IsQuiet, handle_inbox-IsAccounted, handle_inbox-handle_inbox,
}

abbrev reading_env : Env
reading_env = record (sample_env false) { read_fields = λ j. some sample_event }

abbrev posted : InboundMessage
posted = record {
  queue = lit "core.inbox";
  routing_key = [];
  loaded = some (obj end);
  text = lit "{}";
  event_id_header = none;
  target_header = none;
  error_header = none;
  attempt_header = none;
}

program : Unit {0}
unfolding handle_inbox read_envelope validate_envelope validate_data strip lower lit text_eq
    default_settings default_retry_policy
program = tt

-- The event goes to the two modules, once each, although the message comes twice.
served_once :
    length
      (handle_inbox reading_env posted (handle_inbox reading_env posted (sample_world none))).sent
    ≡ 2
unfolding program
served_once = refl

-- A schema at which jsonschema breaks off: the event is not in the log, and no letter is open.
abbrev broken_env : Env
broken_env = record reading_env { evaluates = λ schema payload. false }

unrecorded :
    length (handle_inbox broken_env posted (sample_world (some sample_schema))).event_logs
      + length (handle_inbox broken_env posted (sample_world (some sample_schema))).dead_letters
    ≡ 0
unfolding program
unrecorded = refl

handle_inbox-IsAccounted_example :
    IsAccounted reading_env posted
      (some sample_event)
      (sample_world none)
      (handle_inbox reading_env posted (sample_world none))
unfolding program
handle_inbox-IsAccounted_example =
    handle_inbox-IsAccounted reading_env posted (sample_world none) tt

handle_inbox-handle_inbox_example :
    IsQuiet
      (handle_inbox reading_env posted (sample_world none))
      (handle_inbox reading_env posted (handle_inbox reading_env posted (sample_world none)))
unfolding program
handle_inbox-handle_inbox_example =
    handle_inbox-handle_inbox reading_env posted posted sample_event (sample_world none) tt refl
      refl
