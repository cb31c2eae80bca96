-- ===== src/Hub/Evidence.antt =====
-- The event log across `ingest`: what was there stays, and a new event leaves its evidence.
use core_desappsii.Base.{
  ℕ, ◌≤◌, ◌≡◌, refl, ap, ◌∙◌, Bool, true, false, Option, none, some, List, [], ◌∷◌, ◌++◌, arith,
  All, ◌==◌, same_id, update_rows, find_one, is_some, ==_refl,
}
use core_desappsii.Model.Events.{EventLog, IngestionChannel}
use core_desappsii.Text.{Text}
use core_desappsii.Envelope.{EventEnvelope}
use core_desappsii.Validation.{Violation, violation_of}
use core_desappsii.World.{Env, World, add_log, now, tick}
use core_desappsii.Repositories.Events.{get_by_event_id}
use core_desappsii.Repositories.Registry.{Loaded, get_or_create, active_for_event_type}
use core_desappsii.Hub.Routing.{route_to}
use core_desappsii.Hub.Intake.{reject, accept, settle, build_log, ingest_new, ingest_at, ingest}
use core_desappsii.Hub.LogRows.{route_to-writes}

-- No row of the log has an identifier that is still to be generated.
abbrev pub IsFresh : Env → World → Type 0
IsFresh env w =
    All (λ l. (n : ℕ) → w.uuids ≤ n → same_id l.id (some (env.uuid4 n)) ≡ false) w.event_logs

-- Saving a row whose identifier only the last row has.
save_last :
    (ls : List EventLog) (id : ℕ) (old new : EventLog)
    → All (λ l. same_id l.id (some id) ≡ false) ls
    → old.id ≡ some id
    → update_rows (λ r. same_id r.id (some id)) (λ _. new) (ls ++ old ∷ []) ≡ ls ++ new ∷ []
save_last [] id old new h p = rw (p, ==_refl)
save_last (l ∷ ls) id old new h p =
    rw h.0 (ap (λ (t : List EventLog). l ∷ t) (save_last ls id old new h.1 p))

save_in :
    (rows ls : List EventLog) (k : Option ℕ) (id : ℕ) (old new : EventLog)
    → rows ≡ ls ++ old ∷ []
    → All (λ l. same_id l.id (some id) ≡ false) ls
    → k ≡ some id
    → old.id ≡ some id
    → update_rows (λ r. same_id r.id k) (λ _. new) rows ≡ ls ++ new ∷ []
save_in rows ls k id old new e h q p = rw (e, q) (save_last ls id old new h p)

module _ (env : Env) where
  -- Routing a row that was added last writes that row and no other.
  route_to-last :
      (log : EventLog) (e : EventEnvelope) (ss : List Loaded) (w : World) (ls : List EventLog)
      (id : ℕ)
      → w.event_logs ≡ ls ++ log ∷ []
      → log.id ≡ some id
      → All (λ l. same_id l.id (some id) ≡ false) ls
      → (route_to env log e ss w).1.event_logs ≡ ls ++ (route_to env log e ss w).0.event_log ∷ []
  route_to-last log e ss w ls id at_end named fresh =
      (route_to-writes env log e ss w).0
      ∙ save_in w.event_logs ls log.id id log (route_to env log e ss w).0.event_log at_end fresh
          named named

  -- `accept` adds one row to the log, with the event's identity and evidence.
  accept-appends :
      (e : EventEnvelope) (log : EventLog) (started : ℕ) (discovered : Bool) (w : World)
      → All (λ l. same_id l.id (some (env.uuid4 w.uuids)) ≡ false) w.event_logs
      → ((accept env e log started discovered w).1.event_logs
          ≡ w.event_logs ++ (accept env e log started discovered w).0.event_log ∷ [])
        × ((accept env e log started discovered w).0.event_log.event_id ≡ log.event_id)
        × ((accept env e log started discovered w).0.event_log.envelope ≡ log.envelope)
  unfolding accept
  accept-appends e log started discovered w fresh =
      let id = env.uuid4 w.uuids in
      let log1 = (add_log env log w).0 in
      let w1 = (add_log env log w).1 in
      let ss = active_for_event_type e.event_type w1 in
      let (_, same, event, evidence) = route_to-writes env log1 e ss w1 in
      let routed_log = (route_to env log1 e ss w1).0.event_log in
      (
        save_in (route_to env log1 e ss w1).1.event_logs w.event_logs routed_log.id id routed_log _
            (route_to-last log1 e ss w1 w.event_logs id refl refl fresh) fresh same same,
        event,
        evidence,
      )

  reject-appends :
      (log : EventLog) (v : Violation) (started : ℕ) (discovered : Bool) (w : World)
      → let result = reject env log v started discovered w in
        (result.1.event_logs ≡ w.event_logs ++ result.0.event_log ∷ [])
        × (result.0.event_log.event_id ≡ log.event_id)
        × (result.0.event_log.envelope ≡ log.envelope)
  unfolding reject
  reject-appends log v started discovered w = (refl, refl, refl)

  pub get_or_create-keeps :
      (name source : Text) (seen_at : ℕ) (w : World)
      → ((get_or_create env name source seen_at w).2.event_logs ≡ w.event_logs)
        × (w.uuids ≤ (get_or_create env name source seen_at w).2.uuids)
  unfolding get_or_create
  get_or_create-keeps name source seen_at w = ground arith

  fresh_now :
      (ls : List EventLog) (low n : ℕ)
      → All (λ l. (k : ℕ) → low ≤ k → same_id l.id (some (env.uuid4 k)) ≡ false) ls
      → low ≤ n
      → All (λ l. same_id l.id (some (env.uuid4 n)) ≡ false) ls
  fresh_now [] low n h le = tt
  fresh_now (l ∷ ls) low n h le = (h.0 n le, fresh_now ls low n h.1 le)

  settle-appends :
      (e : EventEnvelope) (log : EventLog) (started : ℕ) (discovered : Bool) (o : Option Violation)
      (w : World)
      → All (λ l. same_id l.id (some (env.uuid4 w.uuids)) ≡ false) w.event_logs
      → ((settle env e log started discovered o w).1.event_logs
          ≡ w.event_logs ++ (settle env e log started discovered o w).0.event_log ∷ [])
        × ((settle env e log started discovered o w).0.event_log.event_id ≡ log.event_id)
        × ((settle env e log started discovered o w).0.event_log.envelope ≡ log.envelope)
  unfolding settle
  settle-appends e log started discovered (some v) w fresh =
      reject-appends log v started discovered w
  settle-appends e log started discovered none w fresh =
      accept-appends e log started discovered w fresh

  -- Ingesting an event that was not seen before, in a world whose log has no identifier still to be
  -- generated, appends exactly one row to the log, the one that the result names, with the event's
  -- identity and its envelope as it came; every earlier row stays as it was. That holds whether the
  -- event is routed, has no subscribers or is rejected, and whatever the broker answers, if jsonschema
  -- yields its errors.
  pub ingest_new-appends :
      (e : EventEnvelope) (channel : IngestionChannel) (started : ℕ) (w : World)
      → IsFresh env w
      → ((ingest_new env e channel started w).1.event_logs
          ≡ w.event_logs ++ (ingest_new env e channel started w).0.event_log ∷ [])
        × ((ingest_new env e channel started w).0.event_log.event_id ≡ e.event_id)
        × ((ingest_new env e channel started w).0.event_log.envelope ≡ env.to_wire e)
  unfolding ingest_new
  ingest_new-appends e channel started w fresh =
      let made = get_or_create env e.event_type e.source_module started w in
      let (kept, grown) = get_or_create-keeps e.event_type e.source_module started w in
      let (rows, event, evidence) =
        settle-appends e (build_log env e channel started) started made.1
          (violation_of env.iter_errors made.0.json_schema e.payload) made.2
          (rw kept (fresh_now w.event_logs w.uuids made.2.uuids fresh grown)) in
      (
        rows
            ∙ ap
                (λ (ls : List EventLog).
                  ls ++ (ingest_new env e channel started w).0.event_log ∷ [])
                kept,
        event,
        evidence,
      )

  found_last :
      (ls : List EventLog) (l : EventLog) (i : ℕ)
      → l.event_id ≡ i
      → is_some (find_one (λ r. r.event_id == i) (ls ++ l ∷ [])) ≡ true
  found_last [] l i h = ground arith
  found_last (x ∷ xs) l i h = ground (arith, found_last xs l i h)

  pub seen-ingest_at :
      (e : EventEnvelope) (channel : IngestionChannel) (o : Option EventLog) (w : World)
      → IsFresh env w
      → get_by_event_id e.event_id w ≡ o
      → is_some (get_by_event_id e.event_id (ingest_at env e channel o w).1) ≡ true
  unfolding ingest_at
  seen-ingest_at e channel (some x) w fresh found = rw found
  seen-ingest_at e channel none w fresh found =
      let (rows, event, _) = ingest_new-appends e channel (now env w) (tick env w) fresh in
      rw rows (found_last w.event_logs _ e.event_id event)

  pub duplicate_at :
      (e : EventEnvelope) (channel : IngestionChannel) (o : Option EventLog) (w : World)
      → is_some o ≡ true
      → ((ingest_at env e channel o w).0.is_duplicate ≡ true)
        × ((ingest_at env e channel o w).1 ≡ tick env w)
  unfolding ingest_at
  duplicate_at e channel (some x) w h = (refl, refl)
  duplicate_at e channel none w h = cc

  -- A second ingest of one event identity, by whatever channel and with whatever content, after a first
  -- one in a world whose log has no identifier still to be generated, gives a duplicate, and changes no
  -- table and sends no message: only the clock was read once more. jsonschema yields its errors at the
  -- first one.
  pub ingest-ingest :
      (first second : EventEnvelope) (channel channel' : IngestionChannel) (w : World)
      → IsFresh env w
      → second.event_id ≡ first.event_id
      → let after = (ingest env first channel w).1 in
        ((ingest env second channel' after).0.is_duplicate ≡ true)
        × ((ingest env second channel' after).1 ≡ tick env after)
  unfolding ingest
  ingest-ingest first second channel channel' w fresh same =
      let o = get_by_event_id first.event_id w in
      let after = (ingest_at env first channel o w).1 in
      duplicate_at second channel' (get_by_event_id second.event_id after) after
        (rw same (seen-ingest_at first channel o w fresh refl))
