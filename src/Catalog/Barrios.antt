-- ===== src/Catalog/Barrios.antt =====
-- backend/app/services/catalog_service.py, the neighbourhoods. The relationship `barrio.zona` is the
-- identifier that a flush writes for it.
use core_desappsii.Base.{
  ℕ, ◌+◌, Bool, true, Option, none, some, add_row, update_rows, ◌==◌, is_empty, if◌then◌else◌,
}
use core_desappsii.Text.{Text, strip}
use core_desappsii.Json.{Json}
use core_desappsii.Errors.{Result, ok, err, conflict}
use core_desappsii.Catalog.{
  Zona, Barrio, Catalog, normalizar_codigo, get_barrio, required, set_if, or_empty_dict,
}
use core_desappsii.Catalog.Zonas.{obtener_zona}

-- `obtener_barrio`
unfoldable pub obtener_barrio : Text → Catalog → Result Barrio
unfolding get_barrio
obtener_barrio codigo c = required (get_barrio codigo c)

abbrev pub zona_id_of : Result Zona → Result (Option ℕ)
zona_id_of (err e) = err e
zona_id_of (ok zona) = ok (some zona.id)

-- `await self.obtener_zona(zona) if zona else None`
unfoldable pub zona_or_none : Option Text → Catalog → Result (Option ℕ)
unfolding obtener_zona
zona_or_none none c = ok none
zona_or_none (some zona) c = if is_empty zona then ok none else zona_id_of (obtener_zona zona c)

module _ (uuid4 : ℕ → ℕ) where
  -- `crear_barrio` after the zone is found,
  unfoldable pub add_barrio :
      (codigo nombre : Text) → Option Json → Catalog → Result (Option ℕ) → Result Barrio × Catalog
  unfolding strip
  add_barrio codigo nombre metadatos c (err e) = (err e, c)
  add_barrio codigo nombre metadatos c (ok zona_id) =
      let barrio : Barrio = record {
        id = uuid4 c.uuids;
        codigo = codigo;
        nombre = strip nombre;
        zona_id = zona_id;
        metadatos = or_empty_dict metadatos;
        activo = true;
      } in
      (ok barrio, record c { barrios = add_row barrio c.barrios; uuids = c.uuids + 1 })

  -- after the look-up of the code,
  unfoldable pub crear_barrio_new :
      (codigo nombre : Text)
      → Option Text
      → Option Json
      → Catalog
      → Option Barrio
      → Result Barrio × Catalog
  unfolding add_barrio zona_or_none
  crear_barrio_new codigo nombre zona metadatos c (some barrio) = (err conflict, c)
  crear_barrio_new codigo nombre zona metadatos c none =
      add_barrio codigo nombre metadatos c (zona_or_none zona c)

  -- after `normalizar_codigo`,
  unfoldable pub crear_barrio_checked :
      Text → Option Text → Option Json → Catalog → Result Text → Result Barrio × Catalog
  unfolding crear_barrio_new get_barrio
  crear_barrio_checked nombre zona metadatos c (err e) = (err e, c)
  crear_barrio_checked nombre zona metadatos c (ok codigo) =
      crear_barrio_new codigo nombre zona metadatos c (get_barrio codigo c)

  -- and whole.
  unfoldable pub crear_barrio :
      (codigo nombre : Text) → Option Text → Option Json → Catalog → Result Barrio × Catalog
  unfolding crear_barrio_checked normalizar_codigo
  crear_barrio codigo nombre zona metadatos c =
      crear_barrio_checked nombre zona metadatos c (normalizar_codigo codigo)

-- The attribute writes of `actualizar_barrio`, with the zone when it is given one.
unfoldable pub change_barrio :
    Option Text → Option (Option ℕ) → Option Json → Option Bool → Barrio → Barrio
unfolding strip
change_barrio nombre zona_id metadatos activo b = record b {
  nombre = set_if strip nombre b.nombre;
  zona_id = set_if (λ z. z) zona_id b.zona_id;
  metadatos = set_if (λ j. j) metadatos b.metadatos;
  activo = set_if (λ x. x) activo b.activo;
}

-- The row `barrio` with those writes, kept in the table.
unfoldable pub save_barrio :
    Option Text
    → Option (Option ℕ)
    → Option Json
    → Option Bool
    → Catalog
    → Barrio
    → Result Barrio × Catalog
unfolding change_barrio
save_barrio nombre zona_id metadatos activo c barrio =
    let change = change_barrio nombre zona_id metadatos activo in
    (
      ok (change barrio),
      record c { barrios = update_rows (λ b. b.id == barrio.id) change c.barrios },
    )

-- A zone that is not found raises after the write of the name. The session's rollback undoes it.
unfoldable pub with_zona :
    Option Text
    → Option Json
    → Option Bool
    → Catalog
    → Barrio
    → Result (Option ℕ)
    → Result Barrio × Catalog
unfolding save_barrio
with_zona nombre metadatos activo c barrio (err e) = (err e, c)
with_zona nombre metadatos activo c barrio (ok zona_id) =
    save_barrio nombre (some zona_id) metadatos activo c barrio

unfoldable pub update_barrio :
    (nombre zona : Option Text)
    → Option Json
    → Option Bool
    → Catalog
    → Result Barrio
    → Result Barrio × Catalog
unfolding with_zona save_barrio zona_or_none
update_barrio nombre zona metadatos activo c (err e) = (err e, c)
update_barrio nombre none metadatos activo c (ok barrio) =
    save_barrio nombre none metadatos activo c barrio
update_barrio nombre (some zona) metadatos activo c (ok barrio) =
    with_zona nombre metadatos activo c barrio (zona_or_none (some zona) c)

-- `actualizar_barrio`
unfoldable pub actualizar_barrio :
    Text
    → (nombre zona : Option Text) → Option Json
    → Option Bool
    → Catalog
    → Result Barrio × Catalog
unfolding update_barrio obtener_barrio
actualizar_barrio codigo nombre zona metadatos activo c =
    update_barrio nombre zona metadatos activo c (obtener_barrio codigo c)
