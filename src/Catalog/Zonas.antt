-- ===== src/Catalog/Zonas.antt =====
-- backend/app/services/catalog_service.py, the zones. `uuid4 n` is the n-th identifier generated.
use core_desappsii.Base.{ℕ, ◌+◌, Bool, true, Option, none, some, add_row, update_rows, ◌==◌}
use core_desappsii.Text.{Text, strip}
use core_desappsii.Errors.{Result, ok, err, conflict}
use core_desappsii.Catalog.{Zona, Catalog, normalizar_codigo, get_zona, required, set_if}

-- `obtener_zona`
unfoldable pub obtener_zona : Text → Catalog → Result Zona
unfolding get_zona
obtener_zona codigo c = required (get_zona codigo c)

module _ (uuid4 : ℕ → ℕ) where
  -- `crear_zona` after the look-up of the code,
  unfoldable pub add_zona :
      (codigo nombre descripcion : Text) → Catalog → Option Zona → Result Zona × Catalog
  unfolding strip
  add_zona codigo nombre descripcion c (some zona) = (err conflict, c)
  add_zona codigo nombre descripcion c none =
      let zona : Zona = record {
        id = uuid4 c.uuids;
        codigo = codigo;
        nombre = strip nombre;
        descripcion = strip descripcion;
        activo = true;
      } in
      (ok zona, record c { zonas = add_row zona c.zonas; uuids = c.uuids + 1 })

  -- after `normalizar_codigo`,
  unfoldable pub crear_zona_checked :
      (nombre descripcion : Text) → Catalog → Result Text → Result Zona × Catalog
  unfolding add_zona get_zona
  crear_zona_checked nombre descripcion c (err e) = (err e, c)
  crear_zona_checked nombre descripcion c (ok codigo) =
      add_zona codigo nombre descripcion c (get_zona codigo c)

  -- and whole.
  unfoldable pub crear_zona : (codigo nombre descripcion : Text) → Catalog → Result Zona × Catalog
  unfolding crear_zona_checked normalizar_codigo
  crear_zona codigo nombre descripcion c =
      crear_zona_checked nombre descripcion c (normalizar_codigo codigo)

-- The attribute writes of `actualizar_zona`.
unfoldable pub change_zona : (nombre descripcion : Option Text) → Option Bool → Zona → Zona
unfolding strip
change_zona nombre descripcion activo z = record z {
  nombre = set_if strip nombre z.nombre;
  descripcion = set_if strip descripcion z.descripcion;
  activo = set_if (λ b. b) activo z.activo;
}

unfoldable pub update_zona :
    (nombre descripcion : Option Text) → Option Bool → Catalog → Result Zona → Result Zona × Catalog
unfolding change_zona
update_zona nombre descripcion activo c (err e) = (err e, c)
update_zona nombre descripcion activo c (ok zona) = (
  ok (change_zona nombre descripcion activo zona),
  record c {
    zonas = update_rows (λ z. z.id == zona.id) (change_zona nombre descripcion activo) c.zonas;
  },
)

-- `actualizar_zona`
unfoldable pub actualizar_zona :
    Text → (nombre descripcion : Option Text) → Option Bool → Catalog → Result Zona × Catalog
unfolding update_zona obtener_zona
actualizar_zona codigo nombre descripcion activo c =
    update_zona nombre descripcion activo c (obtener_zona codigo c)
