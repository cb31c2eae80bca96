-- ===== src/Catalog/Kept.antt =====
-- No row of a catalogue is removed, and none changes its identity.
use core_desappsii.Base.{
  ℕ, refl, Bool, Option, none, some, Option-cases, Bool-cases, inl, inr, ◌==◌,
}
use core_desappsii.Base.Prefixes.{Extends, Extends-refl, Extends-add_row, Extends-update_rows}
use core_desappsii.Base.Integers.{ℤ}
use core_desappsii.Text.{Text}
use core_desappsii.Json.{Json}
use core_desappsii.Errors.{Result, ok, err, Result-cases}
use core_desappsii.Catalog.{
  Zona, Barrio, ItemDeCatalogo, Catalog, normalizar_codigo, get_zona, get_barrio, get_item,
  required,
}
use core_desappsii.Catalog.Zonas.{
  crear_zona, crear_zona_checked, add_zona, actualizar_zona, update_zona, change_zona, obtener_zona,
}
use core_desappsii.Catalog.Barrios.{
  crear_barrio, crear_barrio_checked, crear_barrio_new, add_barrio, actualizar_barrio,
  update_barrio, with_zona, save_barrio, change_barrio, zona_or_none, obtener_barrio,
}
use core_desappsii.Catalog.Items.{
  crear_item, crear_item_checked, crear_item_in, add_item, actualizar_item, update_item,
  change_item, is_reserved, ItemForm,
}
use core_desappsii.Catalog.Reach as Reach
use core_desappsii.Catalog.Reach.{Step}

abbrev zona_identity : Zona → ℕ × Text
zona_identity z = (z.id, z.codigo)

abbrev barrio_identity : Barrio → ℕ × Text
barrio_identity b = (b.id, b.codigo)

abbrev item_identity : ItemDeCatalogo → ℕ × Text × Text
item_identity i = (i.id, i.catalogo, i.codigo)

-- Every row of `c` is in `d`, at its place, with its identifier and its codes.
pub record IsKept (c d : Catalog) : Type 0 where
  pub zonas : Extends zona_identity c.zonas d.zonas
  pub barrios : Extends barrio_identity c.barrios d.barrios
  pub items : Extends item_identity c.items d.items

IsKept-refl : (c : Catalog) → IsKept c c
IsKept-refl c = record {
  zonas = Extends-refl zona_identity c.zonas;
  barrios = Extends-refl barrio_identity c.barrios;
  items = Extends-refl item_identity c.items;
}

module _ (uuid4 : ℕ → ℕ) (c : Catalog) where
  crear_zona-IsKept :
      (codigo nombre descripcion : Text) → IsKept c (crear_zona uuid4 codigo nombre descripcion c).1
  unfolding crear_zona crear_zona_checked add_zona
  crear_zona-IsKept codigo nombre descripcion = elim (Result-cases (normalizar_codigo codigo)) [
    | inr (x, e) ↦ rw e (IsKept-refl c)
    | inl (k, e) ↦ elim (Option-cases (get_zona k c)) [
      | inl (z, f) ↦ rw (e, f) (IsKept-refl c)
      | inr f ↦
          rw (e, f)
            (record {
              zonas = Extends-add_row zona_identity c.zonas _;
              barrios = Extends-refl barrio_identity c.barrios;
              items = Extends-refl item_identity c.items;
            })
    ]
  ]

  actualizar_zona-IsKept :
      (codigo : Text) (nombre descripcion : Option Text) (activo : Option Bool)
      → IsKept c (actualizar_zona codigo nombre descripcion activo c).1
  unfolding actualizar_zona update_zona change_zona
  actualizar_zona-IsKept codigo nombre descripcion activo =
      elim (Result-cases (obtener_zona codigo c)) [
        | inr (x, e) ↦ rw e (IsKept-refl c)
        | inl (z, e) ↦ rw e (record {
          zonas =
              Extends-update_rows zona_identity (λ r. r.id == z.id)
                (change_zona nombre descripcion activo) c.zonas (λ r. refl);
          barrios = Extends-refl barrio_identity c.barrios;
          items = Extends-refl item_identity c.items;
        })
      ]

  add_barrio-IsKept :
      (codigo nombre : Text) (metadatos : Option Json) (zona_id : Result (Option ℕ))
      → IsKept c (add_barrio uuid4 codigo nombre metadatos c zona_id).1
  unfolding add_barrio
  add_barrio-IsKept codigo nombre metadatos (err e) = IsKept-refl c
  add_barrio-IsKept codigo nombre metadatos (ok zona_id) = record {
    zonas = Extends-refl zona_identity c.zonas;
    barrios = Extends-add_row barrio_identity c.barrios _;
    items = Extends-refl item_identity c.items;
  }

  crear_barrio-IsKept :
      (codigo nombre : Text) (zona : Option Text) (metadatos : Option Json)
      → IsKept c (crear_barrio uuid4 codigo nombre zona metadatos c).1
  unfolding crear_barrio crear_barrio_checked crear_barrio_new
  crear_barrio-IsKept codigo nombre zona metadatos =
      elim (Result-cases (normalizar_codigo codigo)) [
        | inr (x, e) ↦ rw e (IsKept-refl c)
        | inl (k, e) ↦ elim (Option-cases (get_barrio k c)) [
          | inl (b, f) ↦ rw (e, f) (IsKept-refl c)
          | inr f ↦ rw (e, f) (add_barrio-IsKept k nombre metadatos (zona_or_none zona c))
        ]
      ]

  save_barrio-IsKept :
      (nombre : Option Text) (zona_id : Option (Option ℕ)) (metadatos : Option Json)
      (activo : Option Bool) (barrio : Barrio)
      → IsKept c (save_barrio nombre zona_id metadatos activo c barrio).1
  unfolding save_barrio change_barrio
  save_barrio-IsKept nombre zona_id metadatos activo barrio = record {
    zonas = Extends-refl zona_identity c.zonas;
    barrios =
        Extends-update_rows barrio_identity (λ r. r.id == barrio.id)
          (change_barrio nombre zona_id metadatos activo) c.barrios (λ r. refl);
    items = Extends-refl item_identity c.items;
  }

  with_zona-IsKept :
      (nombre : Option Text) (metadatos : Option Json) (activo : Option Bool) (barrio : Barrio)
      (zona_id : Result (Option ℕ))
      → IsKept c (with_zona nombre metadatos activo c barrio zona_id).1
  unfolding with_zona
  with_zona-IsKept nombre metadatos activo barrio (err e) = IsKept-refl c
  with_zona-IsKept nombre metadatos activo barrio (ok zona_id) =
      save_barrio-IsKept nombre (some zona_id) metadatos activo barrio

  update_barrio-IsKept :
      (nombre zona : Option Text) (metadatos : Option Json) (activo : Option Bool)
      (found : Result Barrio)
      → IsKept c (update_barrio nombre zona metadatos activo c found).1
  unfolding update_barrio
  update_barrio-IsKept nombre zona metadatos activo (err e) = IsKept-refl c
  update_barrio-IsKept nombre none metadatos activo (ok barrio) =
      save_barrio-IsKept nombre none metadatos activo barrio
  update_barrio-IsKept nombre (some zona) metadatos activo (ok barrio) =
      with_zona-IsKept nombre metadatos activo barrio (zona_or_none (some zona) c)

  add_item-IsKept :
      (catalogo codigo : Text) (form : ItemForm) (found : Option ItemDeCatalogo)
      → IsKept c (add_item uuid4 catalogo codigo form c found).1
  unfolding add_item
  add_item-IsKept catalogo codigo form (some item) = IsKept-refl c
  add_item-IsKept catalogo codigo form none = record {
    zonas = Extends-refl zona_identity c.zonas;
    barrios = Extends-refl barrio_identity c.barrios;
    items = Extends-add_row item_identity c.items _;
  }

  crear_item-IsKept :
      (catalogo codigo : Text) (form : ItemForm)
      → IsKept c (crear_item uuid4 catalogo codigo form c).1
  unfolding crear_item crear_item_checked crear_item_in
  crear_item-IsKept catalogo codigo form = elim (Result-cases (normalizar_codigo catalogo)) [
    | inr (x, e) ↦ rw e (IsKept-refl c)
    | inl (k, e) ↦ elim (Bool-cases (is_reserved k)) [
      | inl r ↦ rw (e, r) (IsKept-refl c)
      | inr r ↦ elim (Result-cases (normalizar_codigo codigo)) [
        | inr (x, f) ↦ rw (e, r, f) (IsKept-refl c)
        | inl (j, f) ↦ rw (e, r, f) (add_item-IsKept k j form (get_item k j c))
      ]
    ]
  ]

  update_item-IsKept :
      (nombre descripcion : Option Text) (orden : Option ℤ) (metadatos : Option Json)
      (activo : Option Bool) (found : Result ItemDeCatalogo)
      → IsKept c (update_item nombre descripcion orden metadatos activo c found).1
  unfolding update_item change_item
  update_item-IsKept nombre descripcion orden metadatos activo (err e) = IsKept-refl c
  update_item-IsKept nombre descripcion orden metadatos activo (ok item) = record {
    zonas = Extends-refl zona_identity c.zonas;
    barrios = Extends-refl barrio_identity c.barrios;
    items =
        Extends-update_rows item_identity (λ r. r.id == item.id)
          (change_item nombre descripcion orden metadatos activo) c.items (λ r. refl);
  }

-- No call of the catalogue service removes a row or moves it, and none changes its identifier or
-- its codes: the identities of each table before the call are the first ones after it, in order.
pub Step-IsKept : (uuid4 : ℕ → ℕ) (c d : Catalog) → Step uuid4 c d → IsKept c d
unfolding actualizar_barrio actualizar_item
Step-IsKept uuid4 c d (Reach.zona_created codigo nombre descripcion) =
    crear_zona-IsKept uuid4 c codigo nombre descripcion
Step-IsKept uuid4 c d (Reach.zona_changed codigo nombre descripcion activo) =
    actualizar_zona-IsKept uuid4 c codigo nombre descripcion activo
Step-IsKept uuid4 c d (Reach.barrio_created codigo nombre zona metadatos) =
    crear_barrio-IsKept uuid4 c codigo nombre zona metadatos
Step-IsKept uuid4 c d (Reach.barrio_changed codigo nombre zona metadatos activo) =
    update_barrio-IsKept uuid4 c nombre zona metadatos activo (obtener_barrio codigo c)
Step-IsKept uuid4 c d (Reach.item_created catalogo codigo form) =
    crear_item-IsKept uuid4 c catalogo codigo form
Step-IsKept uuid4 c d
      (Reach.item_changed catalogo codigo nombre descripcion orden metadatos activo) =
    update_item-IsKept uuid4 c nombre descripcion orden metadatos activo
      (required (get_item catalogo codigo c))
