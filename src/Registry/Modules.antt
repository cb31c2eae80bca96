-- ===== src/Registry/Modules.antt =====
-- The modules of the registry: `get_module_by_name`, `register_module` and `update_module`.
use core_desappsii.Base.{
  ℕ, ◌+◌, Bool, true, Option, none, some, ◌++◌, ◌==◌, add_row, update_rows, or_else, is_some,
  if◌then◌else◌,
}
use core_desappsii.Text.{Text, lit, strip}
use core_desappsii.Errors.{Result, ok, err, not_found, conflict}
use core_desappsii.Model.Registry.{ModuleAccount}
use core_desappsii.World.{Env, World}
use core_desappsii.Repositories.Registry.{get_module_by_name}
use core_desappsii.Registry.Authority.{normalise, and_then}

abbrev found_module : Option ModuleAccount → Result ModuleAccount
found_module none = err not_found
found_module (some m) = ok m

-- `RegistryService.get_module_by_name`
unfoldable pub required_module : Text → World → Result ModuleAccount × World
unfolding get_module_by_name
required_module name w = (found_module (get_module_by_name name w), w)

-- The arguments of `register_module`.
pub record ModuleForm : Type 0 where
  pub name : Text
  pub display_name : Text
  pub team : Text
  pub description : Text
  pub contact_email : Option Text
  pub is_admin : Bool

unfoldable pub new_module : ℕ → ModuleForm → ModuleAccount
unfolding normalise
new_module id form = record {
  id = id;
  name = normalise form.name;
  display_name = strip form.display_name;
  team = form.team;
  description = form.description;
  contact_email = form.contact_email;
  secret_hash = none;
  is_admin = form.is_admin;
  active = true;
  queue_name = some (lit "q." ++ normalise form.name);
  last_login_at = none;
  last_publish_at = none;
}

-- `register_module`
unfoldable pub register_module : Env → ModuleForm → World → Result ModuleAccount × World
unfolding new_module get_module_by_name
register_module env form w =
    if is_some (get_module_by_name (normalise form.name) w)
    then (err conflict, w)
    else (let m = new_module (env.uuid4 w.uuids) form in
        (ok m, record w { modules = add_row m w.modules; uuids = w.uuids + 1 }))

-- The arguments of `update_module`: nothing leaves the field alone.
pub record ModuleChange : Type 0 where
  pub display_name : Option Text
  pub team : Option Text
  pub description : Option Text
  pub contact_email : Option Text
  pub active : Option Bool

unfoldable pub changed_module : ModuleChange → ModuleAccount → ModuleAccount
changed_module c m = record m {
  display_name = elim c.display_name [ none ↦ m.display_name | some t ↦ strip t ];
  team = or_else c.team m.team;
  description = or_else c.description m.description;
  contact_email = elim c.contact_email [ none ↦ m.contact_email | some t ↦ some t ];
  active = or_else c.active m.active;
}

-- `update_module`
unfoldable pub update_module : Text → ModuleChange → World → Result ModuleAccount × World
unfolding required_module changed_module
update_module module_name change w = and_then (required_module module_name w) λ m w.
    let m' = changed_module change m in
    (ok m', record w { modules = update_rows (λ r. r.id == m.id) (λ _. m') w.modules })
