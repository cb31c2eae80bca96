-- ===== src/Catalog/ItemCodes.antt =====
-- The operations on entries of the generic catalogues keep the tables well-formed.
use core_desappsii.Base.{
  ℕ, ◌≡◌, refl, sym, Bool, true, false, ◌&&◌, Option, ◌==◌, arith, Option-cases, Bool-cases, inl,
  inr,
}
use core_desappsii.Base.Integers.{ℤ}
use core_desappsii.Base.Keys.{
  add_row-IsUniqueBy, update_rows-IsUniqueBy, All-add_row, All-update_rows,
}
use core_desappsii.Text.{Text, text_eq, text_eq-eq}
use core_desappsii.Json.{Json}
use core_desappsii.Errors.{ok, Result-cases}
use core_desappsii.Catalog.{ItemDeCatalogo, Catalog, is_slug, normalizar_codigo, get_item}
use core_desappsii.Catalog.Items.{
  ItemForm, crear_item, crear_item_checked, crear_item_in, add_item, actualizar_item, update_item,
  change_item, is_reserved,
}
use core_desappsii.Catalog.Slugs.{lookup_key-is_slug, normalizar_codigo-is_slug}
use core_desappsii.Catalog.Codes.{IsCatalog, item_has}

item_has-eq :
    (j : Text × Text) (catalogo codigo : Text)
    → (text_eq catalogo j.0 && text_eq codigo j.1) ≡ true
    → j ≡ (catalogo, codigo)
item_has-eq (a, b) catalogo codigo h =
    rw (text_eq-eq catalogo a (ground arith), text_eq-eq codigo b (ground arith)) refl

module _ (uuid4 : ℕ → ℕ) where
  crear_item_in-IsCatalog :
      (catalogo codigo : Text) (form : ItemForm) (c : Catalog)
      → is_slug catalogo ≡ true
      → is_reserved catalogo ≡ false
      → is_slug codigo ≡ true
      → IsCatalog c
      → IsCatalog (crear_item_in uuid4 catalogo form c (ok codigo)).1
  unfolding crear_item_in add_item get_item
  crear_item_in-IsCatalog catalogo codigo form c slug free slug' h =
      elim (Option-cases (get_item catalogo codigo c)) [
        | inl (i, e) ↦ rw e h
        | inr e ↦ rw e (record {
          zona_codes = h.zona_codes;
          barrio_codes = h.barrio_codes;
          item_codes =
              add_row-IsUniqueBy item_has c.items (catalogo, codigo) _
                (λ j k. item_has-eq j catalogo codigo k)
                (rw (sym (lookup_key-is_slug catalogo slug), sym (lookup_key-is_slug codigo slug'))
                  e)
                h.item_codes;
          zona_slugs = h.zona_slugs;
          barrio_slugs = h.barrio_slugs;
          item_slugs =
              All-add_row
                (λ i.
                  (is_slug i.catalogo ≡ true)
                  × (is_slug i.codigo ≡ true)
                  × (is_reserved i.catalogo ≡ false))
                c.items _ h.item_slugs (slug, slug', free);
          zoned = h.zoned;
        })
      ]

  crear_item_checked-IsCatalog :
      (catalogo codigo : Text) (form : ItemForm) (c : Catalog)
      → is_slug catalogo ≡ true
      → IsCatalog c
      → IsCatalog (crear_item_checked uuid4 codigo form c (ok catalogo)).1
  unfolding crear_item_checked crear_item_in
  crear_item_checked-IsCatalog catalogo codigo form c slug h =
      elim (Bool-cases (is_reserved catalogo)) [
        | inl r ↦ rw r h
        | inr r ↦ elim (Result-cases (normalizar_codigo codigo)) [
          | inl (k, e) ↦
              rw (r, e)
                (crear_item_in-IsCatalog catalogo k form c slug r
                  (normalizar_codigo-is_slug codigo k e).1 h)
          | inr (x, e) ↦ rw (r, e) h
        ]
      ]

  pub crear_item-IsCatalog :
      (catalogo codigo : Text) (form : ItemForm) (c : Catalog)
      → IsCatalog c
      → IsCatalog (crear_item uuid4 catalogo codigo form c).1
  unfolding crear_item crear_item_checked
  crear_item-IsCatalog catalogo codigo form c h = elim (Result-cases (normalizar_codigo catalogo)) [
    | inl (k, e) ↦
        rw e (
          crear_item_checked-IsCatalog k codigo form c (normalizar_codigo-is_slug catalogo k e).1 h)
    | inr (x, e) ↦ rw e h
  ]

pub actualizar_item-IsCatalog :
    (catalogo codigo : Text) (nombre descripcion : Option Text) (orden : Option ℤ)
    (metadatos : Option Json) (activo : Option Bool) (c : Catalog)
    → IsCatalog c
    → IsCatalog (actualizar_item catalogo codigo nombre descripcion orden metadatos activo c).1
unfolding actualizar_item update_item change_item
actualizar_item-IsCatalog catalogo codigo nombre descripcion orden metadatos activo c h =
    elim (Option-cases (get_item catalogo codigo c)) [
      | inr e ↦ rw e h
      | inl (item, e) ↦
          let p = λ (i : ItemDeCatalogo). i.id == item.id in
          let change = change_item nombre descripcion orden metadatos activo in
          rw e (record {
            zona_codes = h.zona_codes;
            barrio_codes = h.barrio_codes;
            item_codes =
                update_rows-IsUniqueBy item_has p change c.items (λ k i. refl) h.item_codes;
            zona_slugs = h.zona_slugs;
            barrio_slugs = h.barrio_slugs;
            item_slugs =
                All-update_rows
                  (λ i.
                    (is_slug i.catalogo ≡ true)
                    × (is_slug i.codigo ≡ true)
                    × (is_reserved i.catalogo ≡ false))
                  p change c.items h.item_slugs (λ i k. k);
            zoned = h.zoned;
          })
    ]
