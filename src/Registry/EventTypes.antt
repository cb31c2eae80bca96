-- ===== src/Registry/EventTypes.antt =====
-- The event types of the registry: `get_event_type`, `declare_event_type` and `set_schema`.
use core_desappsii.Base.{
  ℕ, ◌+◌, Bool, false, ◌&&◌, ◌||◌, not, Option, none, some, add_row, is_empty, if◌then◌else◌,
}
use core_desappsii.Text.{Text, strip}
use core_desappsii.Json.{Json, is_dict, option_truthy}
use core_desappsii.Errors.{Result, ok, err, not_found, validation}
use core_desappsii.Model.Registry.{EventType}
use core_desappsii.World.{Env, World}
use core_desappsii.Repositories.Registry.{get_type_by_name, save_event_type}
use core_desappsii.Registry.Authority.{
  and_then, claimed_owner, assert_owner_claim, assert_owns_event_type,
}

abbrev found_type : Option EventType → Result EventType
found_type none = err not_found
found_type (some t) = ok t

-- `get_event_type`
unfoldable pub get_event_type : Text → World → Result EventType × World
unfolding get_type_by_name
get_event_type name w = (found_type (get_type_by_name name w), w)

-- The arguments of `declare_event_type` but for the caller.
pub record TypeForm : Type 0 where
  pub name : Text
  pub owner_module : Option Text
  pub description : Text
  pub json_schema : Option Json

module _ (env : Env) where
  -- `if json_schema: assert_valid_schema(json_schema)`
  unfoldable pub assert_valid_schema : Option Json → Result (Unit {0})
  assert_valid_schema none = ok tt
  assert_valid_schema (some schema) =
      if not (option_truthy (some schema)) || (is_dict schema && env.check_schema schema)
      then ok tt
      else err validation

  -- The attribute writes on a type that is there.
  unfoldable pub declared_type : TypeForm → EventType → EventType
  unfolding claimed_owner
  declared_type form t = record t {
    discovered = false;
    description = if is_empty form.description then t.description else form.description;
    owner_module = elim (claimed_owner form.owner_module) [
      | none ↦ t.owner_module
      | some owner ↦ some owner
    ];
    json_schema = elim form.json_schema [ none ↦ t.json_schema | some schema ↦ some schema ];
  }

  unfoldable pub new_type : ℕ → TypeForm → EventType
  unfolding claimed_owner
  new_type id form = record {
    id = id;
    name = strip form.name;
    description = form.description;
    owner_module = claimed_owner form.owner_module;
    discovered = false;
    json_schema = form.json_schema;
    first_seen_at = none;
    last_seen_at = none;
    total_received = 0;
  }

  -- The end of `declare_event_type`, at what the query by name found.
  unfoldable pub declare_found :
      TypeForm → Option Text → Bool → Option EventType → World → Result EventType × World
  unfolding declared_type new_type assert_owns_event_type
  declare_found form actor_module actor_is_admin none w =
      let t = new_type (env.uuid4 w.uuids) form in
      (ok t, record w { event_types = add_row t w.event_types; uuids = w.uuids + 1 })
  declare_found form actor_module actor_is_admin (some existing) w =
      and_then (assert_owns_event_type existing actor_module actor_is_admin, w)
        λ _ w. let t = declared_type form existing in (ok t, save_event_type t w)

  -- `declare_event_type`
  unfoldable pub declare_event_type :
      TypeForm → Option Text → Bool → World → Result EventType × World
  unfolding assert_valid_schema declare_found assert_owner_claim
  declare_event_type form actor_module actor_is_admin w =
      and_then (assert_valid_schema form.json_schema, w)
        λ _ w.
          and_then
            (assert_owner_claim (claimed_owner form.owner_module) actor_module actor_is_admin, w)
            λ _ w.
              declare_found form actor_module actor_is_admin (get_type_by_name (strip form.name) w)
                w

  -- `set_schema`
  unfoldable pub set_schema :
      Text → Option Json → Option Text → Bool → World → Result EventType × World
  unfolding get_event_type assert_valid_schema assert_owns_event_type
  set_schema name json_schema actor_module actor_is_admin w =
      and_then (get_event_type name w) λ t w.
        and_then (assert_owns_event_type t actor_module actor_is_admin, w)
          λ _ w.
            and_then (assert_valid_schema json_schema, w)
              λ _ w.
                let t' = record t { json_schema = json_schema } in (ok t', save_event_type t' w)
