-- ===== src/Stats/Alerts.antt =====
-- backend/app/services/stats_service.py, `integration_alerts` and what it reads of
-- backend/app/repositories/registry_repository.py: the mismatches between modules. An alert holds the
-- entries of the source's dict, and those of a pair of names where it has them. Texts are ordered by
-- code points, in the queries too.
pub mod Names
pub mod Report
pub mod Warnings
pub mod Pairs
use core_desappsii.Base.{
  ℕ, Bool, true, false, ◌&&◌, ◌||◌, not, Option, none, some, List, [], ◌∷◌, ◌++◌, map, ltb, leb,
  ◌==◌, if◌then◌else◌, is_empty, find_one, length, or_else,
}
use core_desappsii.Base.Counts.{group_count, get_count, group_lists, get_list}
use core_desappsii.Text.{Text, lit, text_eq, text_le, show}
use core_desappsii.Model.Registry.{ModuleAccount, EventType, Subscription, Publication}
use core_desappsii.Repositories.Registry.{load_subscriptions, Loaded}
use core_desappsii.Stats.Words.{sorted, is_near_duplicate}
use core_desappsii.World.{World}

pub data Severity : Type 0 where
  warning info : Severity

pub data Kind : Type 0 where
  no_subscribers undeclared_type never_received no_producer_declared : Kind
  no_consumer_declared similar_names : Kind

-- The entries that only a pair of similar names has.
pub record Counterpart : Type 0 where
  pub counterpart : Text
  pub published_by : List Text
  pub consumed_by : List Text
  pub counterpart_published_by : List Text
  pub counterpart_consumed_by : List Text

pub record Alert : Type 0 where
  pub severity : Severity
  pub kind : Kind
  pub event_type : Text
  pub detail : Text
  pub pair : Option Counterpart

-- `event_type_repo.list_ordered()`
unfoldable pub insert_type : EventType → List EventType → List EventType
insert_type t [] = t ∷ []
insert_type t (x ∷ xs) = if text_le t.name x.name then t ∷ x ∷ xs else x ∷ insert_type t xs

unfoldable pub types_ordered : List EventType → List EventType
unfolding insert_type
types_ordered [] = []
types_ordered (t ∷ ts) = insert_type t (types_ordered ts)

-- The names of the types of the active subscriptions, whose groups `counts_by_event_type` counts.
unfoldable pub subscribed_name : List EventType → Subscription → List Text
subscribed_name types s = elim (find_one (λ t. t.id == s.event_type_id) types) [
  | none ↦ []
  | some t ↦ if s.active then t.name ∷ [] else []
]

unfoldable pub subscribed_names : List EventType → List Subscription → List Text
unfolding subscribed_name
subscribed_names types [] = []
subscribed_names types (s ∷ ss) = subscribed_name types s ++ subscribed_names types ss

-- `SubscriptionRepository.counts_by_event_type`
unfoldable pub counts_by_event_type : World → List (Text × ℕ)
unfolding subscribed_names group_count
counts_by_event_type w = group_count text_eq (subscribed_names w.event_types w.subscriptions)

-- The name of the type and of the module of an active publication of `publication_repo.list_all()`.
unfoldable pub published_name :
    List ModuleAccount → List EventType → Publication → List (Text × Text)
published_name modules types p = elim (find_one (λ m. m.id == p.module_id) modules) [
  | none ↦ []
  | some m ↦ elim (find_one (λ t. t.id == p.event_type_id) types) [
    | none ↦ []
    | some t ↦ if p.active then (t.name, m.name) ∷ [] else []
  ]
]

unfoldable pub published_names :
    List ModuleAccount → List EventType → List Publication → List (Text × Text)
unfolding published_name
published_names modules types [] = []
published_names modules types (p ∷ ps) =
    published_name modules types p ++ published_names modules types ps

unfoldable pub producers_by_type : World → List (Text × List Text)
unfolding published_names group_lists
producers_by_type w =
    group_lists text_eq (published_names w.modules w.event_types w.publications) []

-- The loop over `subscription_repo.list_all()` that keeps the active ones.
unfoldable pub consumed_names : List Loaded → List (Text × Text)
consumed_names [] = []
consumed_names (l ∷ ls) =
    if l.subscription.active
    then (l.event_type_row.name, l.module_row.name) ∷ consumed_names ls
    else consumed_names ls

unfoldable pub consumers_by_type : World → List (Text × List Text)
unfolding consumed_names group_lists load_subscriptions
consumers_by_type w =
    group_lists text_eq
      (consumed_names (load_subscriptions w.modules w.event_types w.subscriptions)) []

abbrev pub alert_if : Bool → Severity → Kind → Text → Text → List Alert
alert_if test severity kind event_type detail =
    if test
    then record {
      severity = severity;
      kind = kind;
      event_type = event_type;
      detail = detail;
      pair = none;
    }
      ∷ []
    else []

-- `event_type.owner_module or 'desconocido'`
unfoldable pub owner_or_unknown : Option Text → Text
owner_or_unknown none = lit "desconocido"
owner_or_unknown (some owner) = if is_empty owner then lit "desconocido" else owner

-- The body of the loop over the types: what it appends for one of them.
unfoldable pub alerts_of : (subscribers producers : ℕ) → EventType → List Alert
unfolding owner_or_unknown
alerts_of subscribers producers t =
    alert_if (ltb 0 t.total_received && subscribers == 0) Severity.warning Kind.no_subscribers
      t.name
      (lit "Se recibieron "
        ++ show t.total_received
        ++ lit " evento(s) de '"
        ++ t.name
        ++ lit "' y ningun modulo esta suscripto. Puede faltar la suscripcion, o el nombre no "
        ++ lit "coincide con el que espera el consumidor.")
    ++ alert_if (t.discovered && ltb 0 t.total_received) Severity.info Kind.undeclared_type t.name (
        lit "'"
        ++ t.name
        ++ lit "' se auto-registro al aparecer por el hub (origen: "
        ++ owner_or_unknown t.owner_module
        ++ lit "). Nadie lo habia declarado.")
    ++ alert_if (ltb 0 subscribers && (t.total_received == 0 && ltb 0 producers)) Severity.info
        Kind.never_received t.name
        (show subscribers
          ++ lit " modulo(s) esperan '"
          ++ t.name
          ++ lit "' y "
          ++ show producers
          ++ lit " lo declara(n) como publicado, pero todavia no llego ninguno.")
    ++ alert_if (ltb 0 subscribers && (t.total_received == 0 && producers == 0)) Severity.warning
        Kind.no_producer_declared t.name
        (show subscribers
          ++ lit " modulo(s) esperan '"
          ++ t.name
          ++ lit "' y ningun modulo declara publicarlo. Puede ser un nombre desalineado, o un "
          ++ lit "productor que todavia no lo declaro.")
    ++ alert_if (ltb 0 producers && (subscribers == 0 && t.total_received == 0)) Severity.warning
        Kind.no_consumer_declared t.name
        (lit "'"
          ++ t.name
          ++ lit "' lo publica "
          ++ show producers
          ++ lit
              " modulo(s) y no hay ningun suscriptor. Cuando se publique, no va a llegar a nadie.")

-- `subscriber_counts.get(name, 0)` and `producer_counts.get(name, 0)`
abbrev pub subscriber_count : World → Text → ℕ
subscriber_count w name = get_count text_eq name (counts_by_event_type w)

abbrev pub producer_count : World → Text → ℕ
producer_count w name = length (get_list text_eq name (producers_by_type w))

unfoldable pub type_alerts : World → List EventType → List Alert
unfolding alerts_of
type_alerts w [] = []
type_alerts w (t ∷ ts) =
    alerts_of (subscriber_count w t.name) (producer_count w t.name) t ++ type_alerts w ts
