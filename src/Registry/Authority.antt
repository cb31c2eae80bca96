-- ===== src/Registry/Authority.antt =====
-- Who may act on what, and how a step that may raise goes on.
use core_desappsii.Base.{
  Bool, true, false, ◌||◌, Option, none, some, if◌then◌else◌, is_empty, or_else, [],
}
use core_desappsii.Text.{Text, strip, lower, text_eq}
use core_desappsii.Errors.{Result, ok, err, forbidden}
use core_desappsii.Model.Registry.{EventType}
use core_desappsii.World.{World}

-- The rest of a method after a call: it is skipped where the call raised.
abbrev pub and_then {ℓ κ} :
    {A : Type ℓ} {B : Type κ} → Result A × World → (A → World → Result B × World) → Result B × World
and_then (err e, w) rest = (err e, w)
and_then (ok a, w) rest = rest a w

-- `name.strip().lower()`
unfoldable pub normalise : Text → Text
unfolding strip lower
normalise name = lower (strip name)

-- `x.strip().lower() if x else None`
unfoldable pub claimed_owner : Option Text → Option Text
unfolding normalise
claimed_owner none = none
claimed_owner (some name) = if is_empty name then none else some (normalise name)

abbrev allowed : Bool → Result (Unit {0})
allowed true = ok tt
allowed false = err forbidden

-- `_assert_owner_claim`
unfoldable pub assert_owner_claim :
    (owner_module actor_module : Option Text) → Bool → Result (Unit {0})
unfolding normalise
assert_owner_claim owner_module none actor_is_admin = ok tt
assert_owner_claim none (some actor) actor_is_admin = ok tt
assert_owner_claim (some owner) (some actor) actor_is_admin =
    allowed (actor_is_admin || text_eq owner (normalise actor))

-- `_assert_owns_event_type`
unfoldable pub assert_owns_event_type : EventType → Option Text → Bool → Result (Unit {0})
unfolding normalise
assert_owns_event_type event_type none actor_is_admin = ok tt
assert_owns_event_type event_type (some actor) actor_is_admin =
    let owner = normalise (or_else event_type.owner_module []) in
    allowed (
      actor_is_admin
      || ((is_empty owner || event_type.discovered) || text_eq owner (normalise actor)))

-- `_assert_can_act_on`
unfoldable pub assert_can_act_on : Text → Option Text → Bool → Result (Unit {0})
unfolding normalise
assert_can_act_on module_name none actor_is_admin = ok tt
assert_can_act_on module_name (some actor) actor_is_admin =
    allowed (actor_is_admin || text_eq (normalise module_name) (normalise actor))
