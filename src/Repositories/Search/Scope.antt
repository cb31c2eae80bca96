-- ===== src/Repositories/Search/Scope.antt =====
-- A module that searches the log sees its own traffic and nothing else.
use core_desappsii.Base.{
  ◌≤◌, sym, ◌≡◌, refl, ◌∙◌, Bool, true, false, ◌&&◌, Option, some, List, [], ◌∷◌, All, is_empty,
  leb, arith, filterb, length, count_rows, if◌then◌else◌, ◌+◌,
}
use core_desappsii.Base.Integers.{ℤ}
use core_desappsii.Base.Keys.{All-each}
use core_desappsii.Base.Selections.{All-drop, All-take, filterb-All, length-filterb_mono}
use core_desappsii.Text.{Text}
use core_desappsii.Model.Events.{EventLog}
use core_desappsii.World.{World}
use core_desappsii.Repositories.Paging.{paginate}
use core_desappsii.Repositories.Search.{
  LogQuery, is_match, is_visible, in_scope, insert_log, newest_first, search_logs,
}

module _ {κ} (P : EventLog → Type κ) where
  All-insert_log : (l : EventLog) (ls : List EventLog) → P l → All P ls → All P (insert_log l ls)
  unfolding insert_log
  All-insert_log l [] k h = (k, h)
  All-insert_log l (x ∷ xs) k h = go (leb x.received_at l.received_at) (All-insert_log l xs k h.1)
    where
      go :
          (b : Bool)
          → All P (insert_log l xs)
          → All P (if b then l ∷ x ∷ xs else x ∷ insert_log l xs)
      go true rest = (k, h)
      go false rest = (h.0, rest)

  All-newest_first : (ls : List EventLog) → All P ls → All P (newest_first ls)
  unfolding newest_first
  All-newest_first [] h = h
  All-newest_first (l ∷ ls) h = All-insert_log l (newest_first ls) h.0 (All-newest_first ls h.1)

length-insert_log : (l : EventLog) (ls : List EventLog) → length (insert_log l ls) ≡ length ls + 1
unfolding insert_log
length-insert_log l [] = refl
length-insert_log l (x ∷ xs) = ground (arith, length-insert_log l xs)

length-newest_first : (ls : List EventLog) → length (newest_first ls) ≡ length ls
unfolding newest_first
length-newest_first [] = refl
length-newest_first (l ∷ ls) =
    omega (arith, length-insert_log l (newest_first ls), length-newest_first ls)

in_scope_named :
    (w : World) (scope : Option Text) (name : Text) (l : EventLog)
    → scope ≡ some name
    → is_empty name ≡ false
    → in_scope w scope l ≡ is_visible w name l
unfolding in_scope
in_scope_named w scope name l e named = rw (e, named) refl

and_left : (a b : Bool) → (a && b) ≡ true → a ≡ true
and_left a b h = ground arith

match-is_visible :
    (ilike : Text → Text → Bool) (w : World) (q : LogQuery) (scope : Text) (l : EventLog)
    → q.module_scope ≡ some scope
    → is_empty scope ≡ false
    → is_match ilike w q l ≡ true
    → is_visible w scope l ≡ true
unfolding is_match
match-is_visible ilike w q scope l e named h =
    sym (in_scope_named w q.module_scope scope l e named)
    ∙ and_left (in_scope w q.module_scope l) _ h

-- Whatever the filters and the page, a search of the log in the scope of a module shows only events
-- that the module published or has a delivery of, and its total counts no others.
pub search_logs-is_visible :
    (ilike : Text → Text → Bool) (q : LogQuery) (scope : Text) (page size : ℤ) (w : World)
    → q.module_scope ≡ some scope
    → is_empty scope ≡ false
    → let result = search_logs ilike q page size w in
      All (λ l. is_visible w scope l ≡ true) result.items
      × (result.total ≤ count_rows (is_visible w scope) w.event_logs)
unfolding search_logs paginate
search_logs-is_visible ilike q scope page size w e named =
    let found = filterb (is_match ilike w q) w.event_logs in
    let visible = λ (l : EventLog). is_visible w scope l ≡ true in
    (
      All-take visible _ _ (
          All-drop visible _ (newest_first found) (
            All-newest_first visible found (
              All-each found (λ l. match-is_visible ilike w q scope l e named)
                (filterb-All (is_match ilike w q) w.event_logs)))),
      omega (
        arith,
        length-newest_first found,
        length-filterb_mono (is_match ilike w q) (is_visible w scope) w.event_logs
            (λ l. match-is_visible ilike w q scope l e named),
      ),
    )
