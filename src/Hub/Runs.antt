-- ===== src/Hub/Runs.antt =====
-- A sequence of ingests, against a set of the identities seen: what idempotence means for a whole run.
use core_desappsii.Base.{
  ℕ, ◌+◌, ◌≡◌, refl, ap, sym, ◌∙◌, subst, Bool, true, ◌||◌, not, Option, none, some, List, [], ◌∷◌,
  ◌++◌, arith, ◌==◌, ==-eq, find_one, is_some, any, map, Bool-cases, inl, inr, length, count_rows,
  length-append, if◌then◌else◌,
}
use core_desappsii.Model.Events.{EventLog, IngestionChannel}
use core_desappsii.Envelope.{EventEnvelope}
use core_desappsii.World.{Env, World, now, tick}
use core_desappsii.Repositories.Events.{get_by_event_id}
use core_desappsii.Hub.Intake.{ingest_new, ingest, ingest_at}
use core_desappsii.Hub.Evidence.{IsFresh, ingest_new-appends}
use core_desappsii.Hub.Added.{IsInjective, ingest_new-IsAdded, IsAdded-IsFresh}

-- One ingest after the other: whether each was called a duplicate, and the world at the end.
unfoldable pub ingest_all :
    Env → List (EventEnvelope × IngestionChannel) → World → List Bool × World
unfolding ingest
ingest_all env [] w = ([], w)
ingest_all env ((e, channel) ∷ rest) w =
    let (result, w') = ingest env e channel w in
    let (flags, w'') = ingest_all env rest w' in (result.is_duplicate ∷ flags, w'')

-- The promise: an identity is a duplicate if it was seen before, and is seen from then on.
unfoldable pub seen_flags : List ℕ → List ℕ → List Bool
seen_flags [] seen = []
seen_flags (i ∷ is) seen = any (λ j. j == i) seen ∷ seen_flags is (i ∷ seen)

-- An identity is in the log exactly when it is in the list.
abbrev pub Sees : World → List ℕ → Type 0
Sees w seen = (i : ℕ) → is_some (get_by_event_id i w) ≡ any (λ j. j == i) seen

module _ (env : Env) where
  is_some-find_one-append :
      (ls : List EventLog) (l : EventLog) (i j : ℕ)
      → l.event_id ≡ j
      → is_some (find_one (λ r. r.event_id == i) (ls ++ l ∷ []))
        ≡ (j == i || is_some (find_one (λ r. r.event_id == i) ls))
  is_some-find_one-append [] l i j e = ground arith
  is_some-find_one-append (x ∷ xs) l i j e = ground (arith, is_some-find_one-append xs l i j e)

  -- What one ingest does to the set of identities seen.
  abbrev Simulates : EventEnvelope → World → List ℕ → Bool → World → Type 0
  Simulates e w seen flag after =
      (flag ≡ any (λ j. j == e.event_id) seen)
      × IsFresh env after
      × Sees after (e.event_id ∷ seen)
      × (length after.event_logs ≡ length w.event_logs + (if flag then 0 else 1))

  ingest_at-Simulates :
      (e : EventEnvelope) (channel : IngestionChannel) (o : Option EventLog) (w : World)
      (seen : List ℕ)
      → IsInjective env.uuid4
      → IsFresh env w
      → Sees w seen
      → get_by_event_id e.event_id w ≡ o
      → Simulates e w seen
          (ingest_at env e channel o w).0.is_duplicate
          (ingest_at env e channel o w).1
  unfolding ingest_at
  ingest_at-Simulates e channel (some x) w seen injective fresh sees found =
      let known : any (λ j. j == e.event_id) seen ≡ true =
        sym (sees e.event_id) ∙ ap is_some found in
      (
        sym known,
        fresh,
        λ i. elim (Bool-cases (e.event_id == i)) [
          | inl same ↦
              rw same (sees i ∙ subst (λ n. any (λ j. j == n) seen ≡ true) (==-eq _ _ same) known)
          | inr other ↦ rw other (sees i)
        ],
        omega arith,
      )
  ingest_at-Simulates e channel none w seen injective fresh sees found =
      let result = ingest_new env e channel (now env w) (tick env w) in
      let added = ingest_new-IsAdded env e channel (now env w) (tick env w) in
      let (rows, event, _) = ingest_new-appends env e channel (now env w) (tick env w) fresh in
      let flag = added.4 in
      (
        flag ∙ sym (sym (sees e.event_id) ∙ ap is_some found),
        IsAdded-IsFresh env w result.1 result.0.event_log result.0.is_duplicate injective added rows
            fresh,
        λ i. rw rows (
            is_some-find_one-append w.event_logs result.0.event_log i e.event_id event
            ∙ ap (λ b. e.event_id == i || b) (sees i)),
        rw (rows, flag) (length-append w.event_logs (result.0.event_log ∷ [])),
      )

  ingest_all-Simulates :
      (es : List (EventEnvelope × IngestionChannel)) (w : World) (seen : List ℕ)
      → IsInjective env.uuid4
      → IsFresh env w
      → Sees w seen
      → ((ingest_all env es w).0 ≡ seen_flags (map (λ e. e.0.event_id) es) seen)
        × (length (ingest_all env es w).1.event_logs
            ≡ length w.event_logs + count_rows not (ingest_all env es w).0)
  unfolding ingest_all ingest seen_flags
  ingest_all-Simulates [] w seen injective fresh sees = (refl, omega arith)
  ingest_all-Simulates ((e, channel) ∷ rest) w seen injective fresh sees =
      let (flag, fresh', sees', rows) =
        ingest_at-Simulates e channel (get_by_event_id e.event_id w) w seen injective fresh sees
          refl in
      let (flags, total) =
        ingest_all-Simulates rest (ingest env e channel w).1 (e.event_id ∷ seen) injective fresh'
          sees' in
      (rw (flag, flags) refl, ground (arith, rows, total))

Sees-event_ids : (w : World) → Sees w (map (λ l. l.event_id) w.event_logs)
Sees-event_ids w i = go w.event_logs
  where
    go :
        (ls : List EventLog)
        → is_some (find_one (λ l. l.event_id == i) ls)
          ≡ any (λ j. j == i) (map (λ l. l.event_id) ls)
    go [] = refl
    go (l ∷ ls) = ground (arith, go ls)

-- Any sequence of ingests refines a set of identities that begins with those in the log: an event is
-- called a duplicate exactly when its identity is in the set, and is in the set from then on. The log
-- grows by one row for each that is no duplicate. The identifiers generated differ from each other
-- and, at the start, from those in the log; events may be routed, rejected or without subscribers,
-- and the broker may fail, while jsonschema yields its errors each time.
pub ingest_all-refines :
    (env : Env) (es : List (EventEnvelope × IngestionChannel)) (w : World)
    → IsInjective env.uuid4
    → IsFresh env w
    → ((ingest_all env es w).0
        ≡ seen_flags (map (λ e. e.0.event_id) es) (map (λ l. l.event_id) w.event_logs))
      × (length (ingest_all env es w).1.event_logs
          ≡ length w.event_logs + count_rows not (ingest_all env es w).0)
ingest_all-refines env es w injective fresh =
    ingest_all-Simulates env es w (map (λ l. l.event_id) w.event_logs) injective fresh
      (Sees-event_ids w)
