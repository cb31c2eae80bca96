-- ===== src/Registry/Publications.antt =====
-- The publications of the registry: who declares to send what. They give no permission.
use core_desappsii.Base.{
  ℕ, ◌+◌, Bool, true, not, Option, none, some, ◌==◌, add_row, update_rows, find_one, filterb,
}
use core_desappsii.Text.{Text}
use core_desappsii.Errors.{Result, ok, err, not_found}
use core_desappsii.Model.Registry.{ModuleAccount, EventType, Publication}
use core_desappsii.World.{Env, World}
use core_desappsii.Repositories.Registry.{get_type_by_name, find_publication_pair}
use core_desappsii.Registry.Authority.{and_then, assert_can_act_on}
use core_desappsii.Registry.Modules.{required_module}
use core_desappsii.Registry.Subscriptions.{type_or_declare, module_of}

abbrev found_publication : Option Publication → Result Publication
found_publication none = err not_found
found_publication (some p) = ok p

module _ (env : Env) where
  -- The two ends of `declare_publication`, at what `find_pair` found.
  unfoldable pub publish_pair :
      ModuleAccount → EventType → Option Publication → World → Result Publication × World
  publish_pair m t (some existing) w =
      let p = record existing { active = true } in
      (ok p, record w { publications = update_rows (λ r. r.id == p.id) (λ _. p) w.publications })
  publish_pair m t none w =
      let p : Publication = record {
        id = env.uuid4 w.uuids;
        module_id = m.id;
        event_type_id = t.id;
        active = true;
      } in
      (ok p, record w { publications = add_row p w.publications; uuids = w.uuids + 1 })

  -- `declare_publication`
  unfoldable pub declare_publication :
      (module_name event_type_name : Text) → Option Text → Bool → World → Result Publication × World
  unfolding assert_can_act_on required_module type_or_declare publish_pair get_type_by_name
  declare_publication module_name event_type_name actor_module actor_is_admin w =
      and_then (assert_can_act_on module_name actor_module actor_is_admin, w)
        λ _ w. and_then (required_module module_name w) λ m w.
          and_then
            (type_or_declare env event_type_name (some module_name)
              (get_type_by_name event_type_name w) w)
            λ t w. publish_pair m t (find_publication_pair m.id t.id w) w

  -- `remove_publication`
  unfoldable pub remove_publication : ℕ → Option Text → Bool → World → Result (Unit {0}) × World
  unfolding assert_can_act_on
  remove_publication id actor_module actor_is_admin w =
      and_then (found_publication (find_one (λ p. p.id == id) w.publications), w)
        λ p w. and_then (module_of p.module_id w) λ m w.
          and_then (assert_can_act_on m.name actor_module actor_is_admin, w)
            λ _ w.
              (ok tt, record w { publications = filterb (λ r. not (r.id == p.id)) w.publications })
