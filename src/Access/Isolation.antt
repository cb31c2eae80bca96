-- ===== src/Access/Isolation.antt =====
-- A caller that is no administrator sees the events of its own module.
use core_desappsii.Base.{
  ℕ, ◌≤◌, ◌≡◌, refl, ap, Bool, true, false, ◌||◌, ◌&&◌, Option, none, some, List, [], ◌∷◌, arith,
  All, any, filterb, is_empty, same_id, count_rows, Bool-cases, if◌then◌else◌, inl, inr,
}
use core_desappsii.Base.Integers.{ℤ}
use core_desappsii.Text.{Text, text_eq}
use core_desappsii.Errors.{Result, ok, err, not_found}
use core_desappsii.Model.Events.{EventLog, Delivery}
use core_desappsii.World.{World}
use core_desappsii.Repositories.Events.{get_by_event_id}
use core_desappsii.Repositories.Search.{LogQuery, is_visible}
use core_desappsii.Repositories.Search.Scope.{search_logs-is_visible}
use core_desappsii.Access.{
  Claims, Caller, scope, caller_of, identified, caller_claimed, get_caller, list_events, visible_to,
  event_found, get_event,
}

any-filterb :
    (p q : Delivery → Bool) (ds : List Delivery) → any p (filterb q ds) ≡ any (λ d. q d && p d) ds
any-filterb p q [] = refl
any-filterb p q (d ∷ ds) = ground (arith, any-filterb p q ds)

-- What a single event shows agrees with the scope of the searches.
visible_to_lem : (w : World) (l : EventLog) (m : Text) → visible_to w l m ≡ is_visible w m l
unfolding visible_to is_visible
visible_to_lem w l m =
    ap (λ b. text_eq l.source_module m || b)
      (any-filterb (λ d. text_eq d.target_module m) (λ d. same_id d.event_log_id l.id) w.deliveries)

identified-named :
    (c : Caller) (o : Option Text) (claims : Claims)
    → ◌≡◌ {A = Result Caller} (identified o claims) (ok c)
    → is_empty c.module_name ≡ false
unfolding identified caller_of
identified-named c none claims h = absurd (cc h)
identified-named c (some name) claims h = elim (Bool-cases (is_empty name)) [
  | inl e ↦ absurd (cc (rw e at h))
  | inr e ↦
      let same : c ≡ caller_of name claims = named_by (caller_of name claims) (rw e at h) in
      rw same e
]
  where
    named_by : (d : Caller) → ◌≡◌ {A = Result Caller} (ok d) (ok c) → c ≡ d
    named_by d k = cc k

claimed-named :
    (c : Caller) (r : Result Claims)
    → ◌≡◌ {A = Result Caller} (caller_claimed r) (ok c)
    → is_empty c.module_name ≡ false
unfolding caller_claimed
claimed-named c (err e) h = absurd (cc h)
claimed-named c (ok claims) h = identified-named c claims.module_name claims h

-- A caller always has a module.
get_caller-named :
    (decode_token : Text → Result Claims) (o : Option Text) (c : Caller)
    → ◌≡◌ {A = Result Caller} (get_caller decode_token o) (ok c)
    → is_empty c.module_name ≡ false
unfolding get_caller
get_caller-named decode_token none c h = absurd (cc h)
get_caller-named decode_token (some token) c h = elim (Bool-cases (is_empty token)) [
  | inl e ↦ absurd (cc (rw e at h))
  | inr e ↦ claimed-named c (decode_token token) (rw e at h)
]

-- The event, if the module may see it, as if there were no other.
abbrev pub only_visible : World → Text → Option EventLog → Result EventLog
only_visible w m none = err not_found
only_visible w m (some l) = if is_visible w m l then ok l else err not_found

event_found_lem :
    (c : Caller) (o : Option EventLog) (w : World)
    → c.is_admin ≡ false
    → is_empty c.module_name ≡ false
    → ◌≡◌ {A = Result EventLog} (event_found c o w) (only_visible w c.module_name o)
unfolding event_found scope
event_found_lem c none w common named = refl
event_found_lem c (some event) w common named =
    rw (common, named, visible_to_lem w event c.module_name) refl

-- Whoever calls with a token of a module that is no administrator sees only events that the module
-- published or has a delivery of: in every page of a listing of events with whatever filters, in its
-- total, and one event at a time by its identity, where any other is answered as if it did not exist.
pub get_caller-isolation :
    (decode_token : Text → Result Claims) (ilike : Text → Text → Bool) (token : Option Text)
    (c : Caller) (q : LogQuery) (page size : ℤ) (event_id : ℕ) (w : World)
    → ◌≡◌ {A = Result Caller} (get_caller decode_token token) (ok c)
    → c.is_admin ≡ false
    → let result = list_events ilike c q page size w in
      All (λ l. is_visible w c.module_name l ≡ true) result.items
      × (result.total ≤ count_rows (is_visible w c.module_name) w.event_logs)
      × ◌≡◌ {A = Result EventLog}
          (get_event c event_id w)
          (only_visible w c.module_name (get_by_event_id event_id w))
unfolding list_events get_event scope
get_caller-isolation decode_token ilike token c q page size event_id w called common =
    let named = get_caller-named decode_token token c called in
    let (items, total) =
      search_logs-is_visible ilike (record q { module_scope = scope c }) c.module_name page size w
        (rw common refl) named in
    (items, total, event_found_lem c (get_by_event_id event_id w) w common named)
