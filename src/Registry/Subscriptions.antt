-- ===== src/Registry/Subscriptions.antt =====
-- The subscriptions of the registry, and the topology that is declared for them.
use core_desappsii.Base.{
  ℕ, ◌+◌, Bool, true, false, not, Option, none, some, [], ◌∷◌, ◌++◌, ◌==◌, add_row, update_rows,
  find_one, filterb,
}
use core_desappsii.Text.{Text}
use core_desappsii.Errors.{Result, ok, err, not_found, attribute_error, external_unavailable}
use core_desappsii.Model.Registry.{ModuleAccount, EventType, Subscription}
use core_desappsii.Messaging.Broker.{BrokerError}
use core_desappsii.Messaging.Topology.{Topology, full_topology}
use core_desappsii.World.{Env, World}
use core_desappsii.Repositories.Registry.{
  get_type_by_name, active_queue_names, find_subscription_pair,
}
use core_desappsii.Registry.Authority.{and_then, assert_can_act_on}
use core_desappsii.Registry.Modules.{required_module}
use core_desappsii.Registry.EventTypes.{TypeForm, declare_event_type}

-- `declare_event_type(name=..., owner_module=...)`, with the other arguments at their defaults.
abbrev pub default_form : Text → Option Text → TypeForm
default_form name owner_module = record {
  name = name;
  owner_module = owner_module;
  description = [];
  json_schema = none;
}

-- `session.delete` of a subscription.
abbrev pub delete_subscription : ℕ → World → World
delete_subscription id w = record w {
  subscriptions = filterb (λ r. not (r.id == id)) w.subscriptions;
}

-- Attribute writes on the subscription with this identifier.
abbrev pub change_subscription : ℕ → (Subscription → Subscription) → World → World
change_subscription id write w = record w {
  subscriptions = update_rows (λ r. r.id == id) write w.subscriptions;
}

abbrev found_subscription : Option Subscription → Result Subscription
found_subscription none = err not_found
found_subscription (some s) = ok s

-- `subscription_repo.get_required`
abbrev pub required_subscription : ℕ → World → Result Subscription × World
required_subscription id w = (found_subscription (find_one (λ s. s.id == id) w.subscriptions), w)

-- `subscription.module`, which the foreign key lets never be absent.
abbrev owner : Option ModuleAccount → Result ModuleAccount
owner none = err attribute_error
owner (some m) = ok m

abbrev pub module_of : ℕ → World → Result ModuleAccount × World
module_of module_id w = (owner (find_one (λ m. m.id == module_id) w.modules), w)

module _ (env : Env) where
  -- `planned_topology`
  unfoldable pub planned_topology : World → Topology
  unfolding full_topology active_queue_names
  planned_topology w = full_topology env.settings (active_queue_names w)

  abbrev pub declared_answer :
      Bool → Topology → Option BrokerError → World → Result Topology × World
  declared_answer raise_on_error t none w =
      (ok t, record w { declared = w.declared ++ t ∷ []; declares = w.declares + 1 })
  declared_answer true t (some exc) w =
      (err external_unavailable, record w { declares = w.declares + 1 })
  declared_answer false t (some exc) w = (ok t, record w { declares = w.declares + 1 })

  -- `apply_topology`
  unfoldable pub apply_topology : Bool → World → Result Topology × World
  unfolding planned_topology
  apply_topology raise_on_error w =
      let t = planned_topology w in declared_answer raise_on_error t (env.declare w.declares t) w

  -- `event_type_repo.get_by_name`, or else the declaration of the type by the Core itself.
  unfoldable pub type_or_declare :
      Text → Option Text → Option EventType → World → Result EventType × World
  unfolding declare_event_type
  type_or_declare name owner_module (some t) w = (ok t, w)
  type_or_declare name owner_module none w =
      declare_event_type env (default_form name owner_module) none false w

  -- The two ends of `subscribe`, at what `find_pair` found.
  unfoldable pub subscribe_pair :
      ModuleAccount → EventType → ℕ → Option Subscription → World → Result Subscription × World
  unfolding apply_topology
  subscribe_pair m t max_attempts (some existing) w =
      let write = λ (s : Subscription). record s { active = true; max_attempts = max_attempts } in
      and_then (apply_topology false (change_subscription existing.id write w))
        λ _ w. (ok (write existing), w)
  subscribe_pair m t max_attempts none w =
      let s : Subscription = record {
        id = env.uuid4 w.uuids;
        module_id = m.id;
        event_type_id = t.id;
        max_attempts = max_attempts;
        active = true;
      } in
      let w = record w { subscriptions = add_row s w.subscriptions; uuids = w.uuids + 1 } in
      and_then (apply_topology false w) λ _ w. (ok s, w)

  -- `subscribe`
  unfoldable pub subscribe :
      (module_name event_type_name : Text)
      → ℕ
      → Option Text
      → Bool
      → World
      → Result Subscription × World
  unfolding assert_can_act_on required_module type_or_declare subscribe_pair get_type_by_name
  subscribe module_name event_type_name max_attempts actor_module actor_is_admin w =
      and_then (assert_can_act_on module_name actor_module actor_is_admin, w)
        λ _ w. and_then (required_module module_name w) λ m w.
          and_then (type_or_declare event_type_name none (get_type_by_name event_type_name w) w)
            λ t w. subscribe_pair m t max_attempts (find_subscription_pair m.id t.id w) w

  -- `unsubscribe`
  unfoldable pub unsubscribe : ℕ → Option Text → Bool → World → Result (Unit {0}) × World
  unfolding assert_can_act_on
  unsubscribe id actor_module actor_is_admin w = and_then (required_subscription id w) λ s w.
      and_then (module_of s.module_id w) λ m w.
        and_then (assert_can_act_on m.name actor_module actor_is_admin, w)
          λ _ w. (ok tt, delete_subscription s.id w)

  -- `set_subscription_active`
  unfoldable pub set_subscription_active :
      ℕ → Bool → Option Text → Bool → World → Result Subscription × World
  unfolding assert_can_act_on apply_topology
  set_subscription_active id active actor_module actor_is_admin w =
      and_then (required_subscription id w) λ s w. and_then (module_of s.module_id w) λ m w.
        and_then (assert_can_act_on m.name actor_module actor_is_admin, w)
          λ _ w.
            let write = λ (s : Subscription). record s { active = active } in
            and_then (apply_topology false (change_subscription s.id write w))
              λ _ w. (ok (write s), w)
