-- ===== src/Catalog/Items.antt =====
-- backend/app/services/catalog_service.py, the entries of the generic catalogues.
use core_desappsii.Base.{
  ℕ, ◌+◌, Bool, true, ◌||◌, Option, none, some, add_row, update_rows, ◌==◌, if◌then◌else◌,
}
use core_desappsii.Base.Integers.{ℤ}
use core_desappsii.Text.{Text, lit, strip, text_eq}
use core_desappsii.Json.{Json}
use core_desappsii.Errors.{Result, ok, err, conflict, validation}
use core_desappsii.Catalog.{
  ItemDeCatalogo, Catalog, normalizar_codigo, get_item, required, set_if, or_empty_dict,
}

-- `catalogo in CATALOGOS_RESERVADOS`
unfoldable pub is_reserved : Text → Bool
is_reserved catalogo = text_eq catalogo (lit "zonas") || text_eq catalogo (lit "barrios")

-- What a caller gives for a new entry, beside its two codes.
pub record ItemForm : Type 0 where
  pub nombre : Text
  pub descripcion : Text
  pub orden : ℤ
  pub metadatos : Option Json

module _ (uuid4 : ℕ → ℕ) where
  -- `crear_item` after the look-up of the codes,
  unfoldable pub add_item :
      (catalogo codigo : Text)
      → ItemForm
      → Catalog
      → Option ItemDeCatalogo
      → Result ItemDeCatalogo × Catalog
  unfolding strip
  add_item catalogo codigo form c (some item) = (err conflict, c)
  add_item catalogo codigo form c none =
      let item : ItemDeCatalogo = record {
        id = uuid4 c.uuids;
        catalogo = catalogo;
        codigo = codigo;
        nombre = strip form.nombre;
        descripcion = strip form.descripcion;
        orden = form.orden;
        metadatos = or_empty_dict form.metadatos;
        activo = true;
      } in
      (ok item, record c { items = add_row item c.items; uuids = c.uuids + 1 })

  -- after `normalizar_codigo` of the code,
  unfoldable pub crear_item_in :
      Text → ItemForm → Catalog → Result Text → Result ItemDeCatalogo × Catalog
  unfolding add_item get_item
  crear_item_in catalogo form c (err e) = (err e, c)
  crear_item_in catalogo form c (ok codigo) =
      add_item catalogo codigo form c (get_item catalogo codigo c)

  -- after that of the catalogue,
  unfoldable pub crear_item_checked :
      Text → ItemForm → Catalog → Result Text → Result ItemDeCatalogo × Catalog
  unfolding crear_item_in is_reserved normalizar_codigo
  crear_item_checked codigo form c (err e) = (err e, c)
  crear_item_checked codigo form c (ok catalogo) =
      if is_reserved catalogo
      then (err validation, c)
      else crear_item_in catalogo form c (normalizar_codigo codigo)

  -- and whole.
  unfoldable pub crear_item :
      (catalogo codigo : Text) → ItemForm → Catalog → Result ItemDeCatalogo × Catalog
  unfolding crear_item_checked normalizar_codigo
  crear_item catalogo codigo form c = crear_item_checked codigo form c (normalizar_codigo catalogo)

-- The attribute writes of `actualizar_item`.
unfoldable pub change_item :
    (nombre descripcion : Option Text)
    → Option ℤ
    → Option Json
    → Option Bool
    → ItemDeCatalogo
    → ItemDeCatalogo
unfolding strip
change_item nombre descripcion orden metadatos activo i = record i {
  nombre = set_if strip nombre i.nombre;
  descripcion = set_if strip descripcion i.descripcion;
  orden = set_if (λ n. n) orden i.orden;
  metadatos = set_if (λ j. j) metadatos i.metadatos;
  activo = set_if (λ b. b) activo i.activo;
}

unfoldable pub update_item :
    (nombre descripcion : Option Text)
    → Option ℤ
    → Option Json
    → Option Bool
    → Catalog
    → Result ItemDeCatalogo
    → Result ItemDeCatalogo × Catalog
unfolding change_item
update_item nombre descripcion orden metadatos activo c (err e) = (err e, c)
update_item nombre descripcion orden metadatos activo c (ok item) =
    let change = change_item nombre descripcion orden metadatos activo in
    (ok (change item), record c { items = update_rows (λ i. i.id == item.id) change c.items })

-- `actualizar_item`
unfoldable pub actualizar_item :
    (catalogo codigo : Text)
    → (nombre descripcion : Option Text) → Option ℤ
    → Option Json
    → Option Bool
    → Catalog
    → Result ItemDeCatalogo × Catalog
unfolding update_item get_item
actualizar_item catalogo codigo nombre descripcion orden metadatos activo c =
    update_item nombre descripcion orden metadatos activo c (required (get_item catalogo codigo c))
