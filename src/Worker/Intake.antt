-- ===== src/Worker/Intake.antt =====
-- What reaches the inbox leaves evidence, and what reaches it twice counts once.
use core_desappsii.Base.{
  ℕ, ◌⊎◌, inl, inr, false, sym, subst, arith, ◌≡◌, refl, ap, ◌∙◌, true, Option, none, some, [], ◌∷◌,
  ◌++◌, take, is_some,
}
use core_desappsii.Model.Events.{EventLog, DeadLetter, opened, malformed_message, amqp}
use core_desappsii.Model.Registry.{ModuleAccount, EventType}
use core_desappsii.Messaging.Broker.{InboundMessage}
use core_desappsii.Envelope.{EventEnvelope}
use core_desappsii.Text.{Text}
use core_desappsii.Errors.{Error, Result, ok, err, is_ok}
use core_desappsii.Validation.{Violation}
use core_desappsii.World.{Env, World, now, tick}
use core_desappsii.Repositories.Events.{get_by_event_id}
use core_desappsii.Repositories.Registry.{
  get_module_by_name, get_type_by_name, get_or_create, discovered_type, seen_again,
}
use core_desappsii.Hub.Intake.{
  ingest, ingest_at, ingest_verdict, ingest_judged, ingest_or_raise, record_malformed,
}
use core_desappsii.Hub.Reprocess.{schema_of}
use core_desappsii.Hub.Evidence.{IsFresh, seen-ingest_at, duplicate_at}
use core_desappsii.Worker.{
  roll_back, commit, read_envelope, touch_module, after_ingest, handle_read, handle_inbox,
}

-- The event log, the deliveries, the dead letters, the audits and the messages sent are the same.
abbrev pub IsQuiet : World → World → Type 0
IsQuiet before after =
    (after.event_logs ≡ before.event_logs)
    × (after.deliveries ≡ before.deliveries)
    × (after.dead_letters ≡ before.dead_letters)
    × (after.audits ≡ before.audits)
    × (after.sent ≡ before.sent)

-- A message that was not understood is kept as an open dead letter with its body. The event of one that
-- was is in the log, unless jsonschema breaks off at its data: then nothing is kept.
abbrev pub IsAccounted : Env → InboundMessage → Option EventEnvelope → World → World → Type 0
IsAccounted env m none before after =
    (d : DeadLetter) × (after.dead_letters ≡ before.dead_letters ++ d ∷ [])
    × (d.reason_code ≡ malformed_message)
    × (d.status ≡ opened)
    × (d.raw_body ≡ some (take 20000 m.text))
IsAccounted env m (some e) before after =
    let verdict = ingest_verdict env e (get_by_event_id e.event_id before) before in
    ((is_ok verdict ≡ true) × (is_some (get_by_event_id e.event_id after) ≡ true))
    ⊎ ((is_ok verdict ≡ false) × IsQuiet before after)

module _ (env : Env) where
  touch_module-IsQuiet : (o : Option ModuleAccount) (w : World) → IsQuiet w (touch_module env o w)
  unfolding touch_module
  touch_module-IsQuiet none w = (refl, refl, refl, refl, refl)
  touch_module-IsQuiet (some m) w = (refl, refl, refl, refl, refl)

  -- The handling of an envelope, at what `validate_data` says.
  abbrev judged : EventEnvelope → Result (Option Violation) → World → World
  judged e r w = commit w (after_ingest env e (ingest_judged env e amqp r w))

  seen-judged :
      (e : EventEnvelope) (v : Option Violation) (w : World)
      → IsFresh env w
      → is_some (get_by_event_id e.event_id (judged e (ok v) w)) ≡ true
  unfolding commit after_ingest ingest
  seen-judged e v w fresh =
      let after = (ingest_at env e amqp (get_by_event_id e.event_id w) w).1 in
      let (rows, _, _, _, _) =
        touch_module-IsQuiet (get_module_by_name e.source_module after) after in
      rw rows (seen-ingest_at env e amqp (get_by_event_id e.event_id w) w fresh refl)

  get_or_create-sent :
      (name source : Text) (seen_at : ℕ) (w : World)
      → (get_or_create env name source seen_at w).2.sent ≡ w.sent
  unfolding get_or_create
  get_or_create-sent name source seen_at w = ground arith

  raised-IsQuiet : (e : EventEnvelope) (exc : Error) (w : World) → IsQuiet w (judged e (err exc) w)
  unfolding commit roll_back after_ingest
  raised-IsQuiet e exc w = (
    refl,
    refl,
    refl,
    refl,
    get_or_create-sent e.event_type e.source_module (now env w) (tick env w),
  )

  judged-IsAccounted :
      (m : InboundMessage) (e : EventEnvelope) (r : Result (Option Violation)) (w : World)
      → IsFresh env w
      → ((is_ok r ≡ true) × (is_some (get_by_event_id e.event_id (judged e r w)) ≡ true))
        ⊎ ((is_ok r ≡ false) × IsQuiet w (judged e r w))
  judged-IsAccounted m e (ok v) w fresh = inl (refl, seen-judged e v w fresh)
  judged-IsAccounted m e (err exc) w fresh = inr (refl, raised-IsQuiet e exc w)

  handled-IsAccounted :
      (m : InboundMessage) (o : Option EventEnvelope) (w : World)
      → IsFresh env w
      → IsAccounted env m o w (commit w (handle_read env m o w))
  unfolding commit handle_read record_malformed ingest_or_raise
  handled-IsAccounted m none w fresh = (_, refl, refl, refl, refl)
  handled-IsAccounted m (some e) w fresh =
      judged-IsAccounted m e (ingest_verdict env e (get_by_event_id e.event_id w) w) w fresh

  -- Every message of the inbox leaves evidence, in a world whose log has no identifier still to be
  -- generated, and whatever the broker answers, but for one case: if its body is an envelope, the event is
  -- in the log afterwards, unless jsonschema itself breaks off at the schema of a new event, where the
  -- handler raises and the log, the deliveries, the dead letters, the audits and the messages sent stay
  -- as they were; if it is none, exactly one dead letter is added, open, malformed, with the start of the
  -- body.
  pub handle_inbox-IsAccounted :
      (m : InboundMessage) (w : World)
      → IsFresh env w
      → IsAccounted env m (read_envelope env m.loaded) w (handle_inbox env m w)
  unfolding handle_inbox
  handle_inbox-IsAccounted m w fresh = handled-IsAccounted m (read_envelope env m.loaded) w fresh

  duplicate-IsQuiet :
      (e : EventEnvelope) (v : Option Violation) (w : World)
      → is_some (get_by_event_id e.event_id w) ≡ true
      → IsQuiet w (judged e (ok v) w)
  unfolding commit after_ingest ingest
  duplicate-IsQuiet e v w seen =
      let after = (ingest_at env e amqp (get_by_event_id e.event_id w) w).1 in
      let (_, same) = duplicate_at env e amqp (get_by_event_id e.event_id w) w seen in
      let (logs, deliveries, letters, audits, sent) =
        touch_module-IsQuiet (get_module_by_name e.source_module after) after in
      (
        logs ∙ ap (λ (v : World). v.event_logs) same,
        deliveries ∙ ap (λ (v : World). v.deliveries) same,
        letters ∙ ap (λ (v : World). v.dead_letters) same,
        audits ∙ ap (λ (v : World). v.audits) same,
        sent ∙ ap (λ (v : World). v.sent) same,
      )

  -- An event that is in the log is not validated again.
  seen-IsQuiet :
      (e : EventEnvelope) (o : Option EventLog) (w : World)
      → get_by_event_id e.event_id w ≡ o
      → is_some o ≡ true
      → IsQuiet w (judged e (ingest_verdict env e o w) w)
  unfolding ingest_verdict
  seen-IsQuiet e none w found seen = absurd (cc seen)
  seen-IsQuiet e (some x) w found seen = duplicate-IsQuiet e none w (ap is_some found ∙ seen)

  get_or_create-schema :
      (name source : Text) (seen_at : ℕ) (w : World)
      → (get_or_create env name source seen_at w).0.json_schema
        ≡ schema_of env (get_type_by_name name w)
  unfolding get_or_create discovered_type seen_again
  get_or_create-schema name source seen_at w = go (get_type_by_name name w) refl
    where
      go :
          (o : Option EventType)
          → get_type_by_name name w ≡ o
          → (get_or_create env name source seen_at w).0.json_schema ≡ schema_of env o
      go none e = rw (e, get_or_create) refl
      go (some t) e = rw (e, get_or_create) refl

  -- What `validate_data` says depends on the registry and the log alone.
  ingest_verdict-same :
      (e : EventEnvelope) (o : Option EventLog) (v w : World)
      → v.event_types ≡ w.event_types
      → ◌≡◌ {A = Result (Option Violation)} (ingest_verdict env e o v) (ingest_verdict env e o w)
  unfolding ingest_verdict get_type_by_name
  ingest_verdict-same e (some x) v w same = refl
  ingest_verdict-same e none v w same =
      rw
        (
          get_or_create-schema e.event_type e.source_module (now env v) (tick env v),
          get_or_create-schema e.event_type e.source_module (now env w) (tick env w),
          same,
        )
        refl

  -- The two handlings of one envelope, at what `validate_data` says first.
  judged-judged :
      (e : EventEnvelope) (r : Result (Option Violation)) (w : World)
      → IsFresh env w
      → ◌≡◌ {A = Result (Option Violation)}
          (ingest_verdict env e (get_by_event_id e.event_id w) w)
          r
      → let after = judged e r w in
        IsQuiet after
          (judged e (ingest_verdict env e (get_by_event_id e.event_id after) after) after)
  unfolding commit roll_back after_ingest
  judged-judged e (ok v) w fresh said =
      let after = judged e (ok v) w in
      seen-IsQuiet e (get_by_event_id e.event_id after) after refl (seen-judged e v w fresh)
  judged-judged e (err exc) w fresh said =
      let after = judged e (err exc) w in
      subst (λ r. IsQuiet after (judged e r after))
        (sym (ingest_verdict-same e (get_by_event_id e.event_id w) after w refl ∙ said))
        (raised-IsQuiet e exc after)

  -- A message of the inbox that the broker delivers again, after it was handled in a world whose log has
  -- no identifier still to be generated, leaves the log, the deliveries, the dead letters, the audits and
  -- the messages sent as they were, if both times its body was read as one envelope.
  pub handle_inbox-handle_inbox :
      (m again : InboundMessage) (e : EventEnvelope) (w : World)
      → IsFresh env w
      → read_envelope env m.loaded ≡ some e
      → read_envelope env again.loaded ≡ some e
      → IsQuiet (handle_inbox env m w) (handle_inbox env again (handle_inbox env m w))
  unfolding handle_inbox handle_read ingest_or_raise
  handle_inbox-handle_inbox m again e w fresh first second =
      rw (first, second)
        (judged-judged e (ingest_verdict env e (get_by_event_id e.event_id w) w) w fresh refl)
