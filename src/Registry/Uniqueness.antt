-- ===== src/Registry/Uniqueness.antt =====
-- A module has at most one subscription to an event type.
use core_desappsii.Base.{
  ℕ, ◌+◌, ◌≤◌, ◌≡◌, refl, sym, Bool, true, false, not, ◌&&◌, Option, none, some, List, arith, ◌==◌,
  ==-eq, Bool-cases, inl, inr, find_one, add_row, count_rows,
}
use core_desappsii.Base.Keys.{
  count_rows-none, count_rows-add_row, count_rows-update_rows, count_rows-filterb,
}
use core_desappsii.Text.{Text, strip}
use core_desappsii.Errors.{Result, ok, err}
use core_desappsii.Model.Registry.{ModuleAccount, EventType, Subscription}
use core_desappsii.Messaging.Broker.{BrokerError}
use core_desappsii.Messaging.Topology.{Topology}
use core_desappsii.World.{Env, World}
use core_desappsii.Repositories.Registry.{get_type_by_name, find_subscription_pair}
use core_desappsii.Registry.Authority.{
  and_then, claimed_owner, assert_can_act_on, assert_owner_claim, assert_owns_event_type,
}
use core_desappsii.Registry.Modules.{required_module}
use core_desappsii.Registry.EventTypes.{
  TypeForm, assert_valid_schema, declare_found, declare_event_type,
}
use core_desappsii.Registry.Subscriptions.{
  change_subscription, default_form, planned_topology, declared_answer, apply_topology,
  type_or_declare, subscribe_pair, subscribe, unsubscribe, set_subscription_active,
  required_subscription, module_of,
}

abbrev is_pair : (module_id event_type_id : ℕ) → Subscription → Bool
is_pair module_id event_type_id s = s.module_id == module_id && s.event_type_id == event_type_id

-- No module is subscribed twice to one event type.
abbrev pub IsUnique : World → Type 0
IsUnique w = (m t : ℕ) → count_rows (is_pair m t) w.subscriptions ≤ 1

-- A property of worlds that a call and the rest of the method keep.
and_then-keeps {ℓ κ} :
    {A : Type ℓ} {B : Type κ} (p : Result A × World) (rest : A → World → Result B × World)
    → IsUnique p.1
    → ((a : A) (v : World) → IsUnique v → IsUnique (rest a v).1)
    → IsUnique (and_then p rest).1
and_then-keeps (err e, w) rest h keeps = h
and_then-keeps (ok a, w) rest h keeps = keeps a w h

add_row-IsUnique :
    (m t : ℕ) (s : Subscription) (xs : List Subscription)
    → find_one (is_pair s.module_id s.event_type_id) xs ≡ none
    → count_rows (is_pair m t) xs ≤ 1
    → count_rows (is_pair m t) (add_row s xs) ≤ 1
add_row-IsUnique m t s xs fresh h = elim (Bool-cases (is_pair m t s)) [
  | inl e ↦
      let (same_m, same_t) = same_pair e in
      omega (
        arith,
        rw e at (count_rows-add_row (is_pair m t) xs s),
        count_rows-none (is_pair m t) xs (rw (sym same_m, sym same_t) fresh),
      )
  | inr e ↦ omega (arith, rw e at (count_rows-add_row (is_pair m t) xs s), h)
]
  where
    same_pair : is_pair m t s ≡ true → (s.module_id ≡ m) × (s.event_type_id ≡ t)
    same_pair e = (==-eq s.module_id m (ground arith), ==-eq s.event_type_id t (ground arith))

module _ (env : Env) where
  declared_answer-IsUnique :
      (b : Bool) (t : Topology) (o : Option BrokerError) (w : World)
      → IsUnique w
      → IsUnique (declared_answer env b t o w).1
  declared_answer-IsUnique b t none w h = h
  declared_answer-IsUnique true t (some exc) w h = h
  declared_answer-IsUnique false t (some exc) w h = h

  apply_topology-IsUnique :
      (b : Bool) (w : World) → IsUnique w → IsUnique (apply_topology env b w).1
  unfolding apply_topology
  apply_topology-IsUnique b w h =
      declared_answer-IsUnique b (planned_topology env w)
        (env.declare w.declares (planned_topology env w)) w h

  change_subscription-IsUnique :
      (id : ℕ) (write : Subscription → Subscription) (w : World)
      → ((m t : ℕ) (s : Subscription) → is_pair m t (write s) ≡ is_pair m t s)
      → IsUnique w
      → IsUnique (change_subscription id write w)
  change_subscription-IsUnique id write w kept h m t = omega (
    arith,
    h m t,
    count_rows-update_rows (is_pair m t) (λ r. r.id == id) write w.subscriptions (kept m t),
  )

  applied-IsUnique :
      (s : Subscription) (w : World)
      → IsUnique w
      → IsUnique (and_then (apply_topology env false w) λ _ v. (ok s, v)).1
  applied-IsUnique s w h =
      and_then-keeps (apply_topology env false w) (λ _ v. (ok s, v))
        (apply_topology-IsUnique false w h) λ _ v k. k

  subscribe_pair-IsUnique :
      (m : ModuleAccount) (t : EventType) (n : ℕ) (found : Option Subscription) (w : World)
      → find_subscription_pair m.id t.id w ≡ found
      → IsUnique w
      → IsUnique (subscribe_pair env m t n found w).1
  unfolding subscribe_pair
  subscribe_pair-IsUnique m t n (some existing) w same h =
      let write = λ (s : Subscription). record s { active = true; max_attempts = n } in
      applied-IsUnique (write existing) (change_subscription existing.id write w)
        (change_subscription-IsUnique existing.id write w (λ a b s. refl) h)
  subscribe_pair-IsUnique m t n none w same h =
      let s : Subscription = record {
        id = env.uuid4 w.uuids;
        module_id = m.id;
        event_type_id = t.id;
        max_attempts = n;
        active = true;
      } in
      applied-IsUnique s
        (record w { subscriptions = add_row s w.subscriptions; uuids = w.uuids + 1 })
        λ a b. add_row-IsUnique a b s w.subscriptions same (h a b)

  declare_found-IsUnique :
      (form : TypeForm) (actor : Option Text) (admin : Bool) (found : Option EventType) (w : World)
      → IsUnique w
      → IsUnique (declare_found env form actor admin found w).1
  unfolding declare_found
  declare_found-IsUnique form actor admin none w h = h
  declare_found-IsUnique form actor admin (some existing) w h =
      and_then-keeps (assert_owns_event_type existing actor admin, w) _ h λ _ v k. k

  declare_event_type-IsUnique :
      (form : TypeForm) (actor : Option Text) (admin : Bool) (w : World)
      → IsUnique w
      → IsUnique (declare_event_type env form actor admin w).1
  unfolding declare_event_type
  declare_event_type-IsUnique form actor admin w h =
      and_then-keeps (assert_valid_schema env form.json_schema, w) _ h
        λ _ v k.
          and_then-keeps (assert_owner_claim (claimed_owner form.owner_module) actor admin, v) _ k
            λ _ u j.
              declare_found-IsUnique form actor admin (get_type_by_name (strip form.name) u) u j

  type_or_declare-IsUnique :
      (name : Text) (owner : Option Text) (found : Option EventType) (w : World)
      → IsUnique w
      → IsUnique (type_or_declare env name owner found w).1
  unfolding type_or_declare
  type_or_declare-IsUnique name owner (some t) w h = h
  type_or_declare-IsUnique name owner none w h =
      declare_event_type-IsUnique (default_form name owner) none false w h

  subscribe-IsUnique :
      (module_name event_type_name : Text) (n : ℕ) (actor : Option Text) (admin : Bool) (w : World)
      → IsUnique w
      → IsUnique (subscribe env module_name event_type_name n actor admin w).1
  unfolding subscribe required_module
  subscribe-IsUnique module_name event_type_name n actor admin w h =
      and_then-keeps (assert_can_act_on module_name actor admin, w) _ h
        λ _ v k. and_then-keeps (required_module module_name v) _ k λ m u j.
          and_then-keeps
            (type_or_declare env event_type_name none (get_type_by_name event_type_name u) u) _
            (type_or_declare-IsUnique event_type_name none (get_type_by_name event_type_name u) u j)
            λ t x i. subscribe_pair-IsUnique m t n (find_subscription_pair m.id t.id x) x refl i

  unsubscribe-IsUnique :
      (id : ℕ) (actor : Option Text) (admin : Bool) (w : World)
      → IsUnique w
      → IsUnique (unsubscribe env id actor admin w).1
  unfolding unsubscribe
  unsubscribe-IsUnique id actor admin w h = and_then-keeps (required_subscription id w) _ h λ s v k.
      and_then-keeps (module_of s.module_id v) _ k λ m u j.
        and_then-keeps (assert_can_act_on m.name actor admin, u) _ j
          λ _ x i a b. omega (
            arith,
            i a b,
            count_rows-filterb (is_pair a b) (λ r. not (r.id == s.id)) x.subscriptions,
          )

  set_subscription_active-IsUnique :
      (id : ℕ) (active : Bool) (actor : Option Text) (admin : Bool) (w : World)
      → IsUnique w
      → IsUnique (set_subscription_active env id active actor admin w).1
  unfolding set_subscription_active
  set_subscription_active-IsUnique id active actor admin w h =
      and_then-keeps (required_subscription id w) _ h λ s v k.
        and_then-keeps (module_of s.module_id v) _ k λ m u j.
          and_then-keeps (assert_can_act_on m.name actor admin, u) _ j
            λ _ x i.
              let write = λ (r : Subscription). record r { active = active } in
              applied-IsUnique (write s) (change_subscription s.id write x)
                (change_subscription-IsUnique s.id write x (λ a b r. refl) i)

  -- When no module is subscribed twice to one event type, then this still holds after a call of subscribe,
  -- unsubscribe or set_subscription_active with any arguments, by any caller, whether the call succeeds
  -- or not and whatever the broker answers.
  pub subscriptions-IsUnique :
      (module_name event_type_name : Text) (n id : ℕ) (active : Bool) (actor : Option Text)
      (admin : Bool) (w : World)
      → IsUnique w
      → IsUnique (subscribe env module_name event_type_name n actor admin w).1
        × IsUnique (unsubscribe env id actor admin w).1
        × IsUnique (set_subscription_active env id active actor admin w).1
  subscriptions-IsUnique module_name event_type_name n id active actor admin w h = (
    subscribe-IsUnique module_name event_type_name n actor admin w h,
    unsubscribe-IsUnique id actor admin w h,
    set_subscription_active-IsUnique id active actor admin w h,
  )
