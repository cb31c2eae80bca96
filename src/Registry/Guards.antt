-- ===== src/Registry/Guards.antt =====
-- What a module that is not an administrator cannot do to another.
use core_desappsii.Base.{ℕ, ◌≡◌, refl, Bool, false, Option, some, ◌==◌, find_one, is_empty}
use core_desappsii.Text.{Text, strip, text_eq}
use core_desappsii.Json.{Json}
use core_desappsii.Errors.{Result, is_ok, ok, err, forbidden}
use core_desappsii.Model.Registry.{ModuleAccount, EventType, Subscription}
use core_desappsii.World.{Env, World}
use core_desappsii.Repositories.Registry.{get_type_by_name}
use core_desappsii.Registry.Authority.{
  and_then, normalise, claimed_owner, assert_can_act_on, assert_owner_claim, assert_owns_event_type,
}
use core_desappsii.Registry.EventTypes.{
  TypeForm, assert_valid_schema, get_event_type, declare_found, declare_event_type, set_schema,
}
use core_desappsii.Registry.Subscriptions.{subscribe, unsubscribe, set_subscription_active}
use core_desappsii.Registry.Publications.{declare_publication}

assert_can_act_on-forbidden :
    (name actor : Text)
    → text_eq (normalise name) (normalise actor) ≡ false
    → assert_can_act_on name (some actor) false ≡ err forbidden
unfolding assert_can_act_on
assert_can_act_on-forbidden name actor other = rw other refl

assert_owns_event_type-forbidden :
    (t : EventType) (actor owner : Text)
    → t.owner_module ≡ some owner
    → t.discovered ≡ false
    → is_empty (normalise owner) ≡ false
    → text_eq (normalise owner) (normalise actor) ≡ false
    → assert_owns_event_type t (some actor) false ≡ err forbidden
unfolding assert_owns_event_type
assert_owns_event_type-forbidden t actor owner owned declared named other =
    rw (owned, declared, named, other) refl

-- A call that raises leaves the world as it was.
abbrev IsRefused : World → Result EventType × World → Type 0
IsRefused w p = (is_ok p.0 ≡ false) × (p.1 ≡ w)

and_then-IsRefused :
    (r : Result (Unit {0})) (w : World) (rest : World → Result EventType × World)
    → IsRefused w (rest w)
    → IsRefused w (and_then (r, w) λ _ v. rest v)
and_then-IsRefused (err e) w rest h = (refl, refl)
and_then-IsRefused (ok a) w rest h = h

module _ (env : Env) where
  -- A module that is no administrator cannot subscribe another module, nor declare a publication for it:
  -- both calls raise the forbidden error and change nothing. Names are compared after strip and lower.
  pub subscribe-forbidden :
      (name actor event_type : Text) (n : ℕ) (w : World)
      → text_eq (normalise name) (normalise actor) ≡ false
      → (subscribe env name event_type n (some actor) false w ≡ (err forbidden, w))
        × (declare_publication env name event_type (some actor) false w ≡ (err forbidden, w))
  unfolding subscribe declare_publication
  subscribe-forbidden name actor event_type n w other =
      rw (assert_can_act_on-forbidden name actor other) (refl, refl)

  -- A module that is no administrator cannot remove the subscription of another module, nor switch it on
  -- or off: both calls raise the forbidden error and change nothing.
  pub unsubscribe-forbidden :
      (id : ℕ) (s : Subscription) (m : ModuleAccount) (actor : Text) (active : Bool) (w : World)
      → find_one (λ r. r.id == id) w.subscriptions ≡ some s
      → find_one (λ r. r.id == s.module_id) w.modules ≡ some m
      → text_eq (normalise m.name) (normalise actor) ≡ false
      → (unsubscribe env id (some actor) false w ≡ (err forbidden, w))
        × (set_subscription_active env id active (some actor) false w ≡ (err forbidden, w))
  unfolding unsubscribe set_subscription_active
  unsubscribe-forbidden id s m actor active w found owner other =
      rw found (rw owner (rw (assert_can_act_on-forbidden m.name actor other) (refl, refl)))

  declare_found-IsRefused :
      (form : TypeForm) (actor : Text) (t : EventType) (w : World)
      → assert_owns_event_type t (some actor) false ≡ err forbidden
      → IsRefused w (declare_found env form (some actor) false (some t) w)
  unfolding declare_found
  declare_found-IsRefused form actor t w h = rw h (refl, refl)

  -- A type that was declared by a module stays in its hands: another module that is no administrator can
  -- neither set its schema, which raises the forbidden error, nor declare it again with any content, which
  -- raises some error; and neither call changes anything.
  pub set_schema-forbidden :
      (form : TypeForm) (schema : Option Json) (t : EventType) (actor owner : Text) (w : World)
      → get_type_by_name (strip form.name) w ≡ some t
      → t.owner_module ≡ some owner
      → t.discovered ≡ false
      → is_empty (normalise owner) ≡ false
      → text_eq (normalise owner) (normalise actor) ≡ false
      → (set_schema env (strip form.name) schema (some actor) false w ≡ (err forbidden, w))
        × (is_ok (declare_event_type env form (some actor) false w).0 ≡ false)
        × ((declare_event_type env form (some actor) false w).1 ≡ w)
  unfolding set_schema get_event_type declare_event_type
  set_schema-forbidden form schema t actor owner w found owned declared named other =
      let refused = assert_owns_event_type-forbidden t actor owner owned declared named other in
      let (fails, same) =
        and_then-IsRefused (assert_valid_schema env form.json_schema) w
          (λ v.
            and_then (assert_owner_claim (claimed_owner form.owner_module) (some actor) false, v)
              λ _ u.
                declare_found env form (some actor) false (get_type_by_name (strip form.name) u) u)
          (and_then-IsRefused
            (assert_owner_claim (claimed_owner form.owner_module) (some actor) false) w
            (λ u.
              declare_found env form (some actor) false (get_type_by_name (strip form.name) u) u)
            (rw found (declare_found-IsRefused form actor t w refused))) in
      (rw found (rw refused refl), fails, same)
