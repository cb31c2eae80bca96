-- ===== src/Repositories/Registry.antt =====
-- backend/app/repositories/registry_repository.py: modules, event types, subscriptions, publications.
use core_desappsii.Base.{
  ℕ, ◌+◌, Bool, true, false, ◌&&◌, Option, none, some, List, [], ◌∷◌, ◌++◌, map, ◌==◌, find_one,
  update_rows, add_row, filterb,
}
use core_desappsii.Text.{Text, text_eq, strip, lower}
use core_desappsii.Model.Registry.{
  ModuleAccount, EventType, Subscription, Publication, effective_queue_name,
}
use core_desappsii.Messaging.Topology.Dedupe.{sorted_set}
use core_desappsii.World.{Env, World}

-- `ModuleRepository.get_by_name`
unfoldable pub get_module_by_name : Text → World → Option ModuleAccount
get_module_by_name name w = find_one (λ m. text_eq m.name (lower (strip name))) w.modules

-- `EventTypeRepository.get_by_name`
unfoldable pub get_type_by_name : Text → World → Option EventType
get_type_by_name name w = find_one (λ t. text_eq t.name (strip name)) w.event_types

abbrev pub save_event_type : EventType → World → World
save_event_type t w = record w {
  event_types = update_rows (λ r. r.id == t.id) (λ _. t) w.event_types;
}

-- The attribute writes of `get_or_create` on a type that is there.
unfoldable pub seen_again : ℕ → EventType → EventType
seen_again seen_at t = record t {
  last_seen_at = some seen_at;
  total_received = t.total_received + 1;
  first_seen_at = elim t.first_seen_at [ none ↦ some seen_at | some t0 ↦ some t0 ];
}

unfoldable pub discovered_type : ℕ → Text → Text → ℕ → EventType
discovered_type id name source_module seen_at = record {
  id = id;
  name = strip name;
  description = [];
  owner_module = some source_module;
  discovered = true;
  json_schema = none;
  first_seen_at = some seen_at;
  last_seen_at = some seen_at;
  total_received = 1;
}

-- `EventTypeRepository.get_or_create`: the type, whether it is new, and the world after it. The
-- `flush` of the source is only the assignment of the identifier: nothing else is pending there.
unfoldable pub get_or_create : Env → Text → Text → ℕ → World → EventType × Bool × World
unfolding get_type_by_name seen_again discovered_type
get_or_create env name source_module seen_at w = elim (get_type_by_name name w) [
  | some existing ↦ let t = seen_again seen_at existing in (t, false, save_event_type t w)
  | none ↦
      let t = discovered_type (env.uuid4 w.uuids) name source_module seen_at in
      (t, true, record w { event_types = add_row t w.event_types; uuids = w.uuids + 1 })
]

-- A subscription with the module and the type that it joins.
pub record Loaded : Type 0 where
  pub subscription : Subscription
  pub module_row : ModuleAccount
  pub event_type_row : EventType

-- `Subscription.target_queue`
abbrev pub target_queue : Loaded → Text
target_queue l = effective_queue_name l.module_row

-- The inner joins of `_loaded`, for one row.
unfoldable pub load_subscription : List ModuleAccount → List EventType → Subscription → List Loaded
load_subscription modules event_types s = elim (find_one (λ m. m.id == s.module_id) modules) [
  | none ↦ []
  | some m ↦ elim (find_one (λ t. t.id == s.event_type_id) event_types) [
    | none ↦ []
    | some t ↦ record { subscription = s; module_row = m; event_type_row = t } ∷ []
  ]
]

unfoldable pub load_subscriptions :
    List ModuleAccount → List EventType → List Subscription → List Loaded
unfolding load_subscription
load_subscriptions modules event_types [] = []
load_subscriptions modules event_types (s ∷ ss) =
    load_subscription modules event_types s ++ load_subscriptions modules event_types ss

-- The `where` of `active_for_event_type`.
abbrev pub is_active_for : Text → Loaded → Bool
is_active_for name l =
    text_eq l.event_type_row.name name && (l.subscription.active && l.module_row.active)

-- `SubscriptionRepository.active_for_event_type`
unfoldable pub active_for_event_type : Text → World → List Loaded
unfolding load_subscriptions
active_for_event_type name w =
    filterb (is_active_for name) (load_subscriptions w.modules w.event_types w.subscriptions)

-- `SubscriptionRepository.active_queue_names`
unfoldable pub active_queue_names : World → List Text
unfolding load_subscriptions sorted_set
active_queue_names w = sorted_set (
    map target_queue (
      filterb (λ l. l.subscription.active && l.module_row.active)
        (load_subscriptions w.modules w.event_types w.subscriptions)))

-- The two `find_pair`.
abbrev pub find_subscription_pair : (module_id event_type_id : ℕ) → World → Option Subscription
find_subscription_pair module_id event_type_id w =
    find_one (λ s. s.module_id == module_id && s.event_type_id == event_type_id) w.subscriptions

abbrev pub find_publication_pair : (module_id event_type_id : ℕ) → World → Option Publication
find_publication_pair module_id event_type_id w =
    find_one (λ p. p.module_id == module_id && p.event_type_id == event_type_id) w.publications
