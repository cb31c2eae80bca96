-- ===== src/Catalog/BarrioCodes.antt =====
-- The operations on neighbourhoods keep the tables well-formed.
use core_desappsii.Base.{
  ℕ, ◌≡◌, refl, sym, Bool, true, Option, none, some, ◌==◌, Option-cases, inl, inr,
}
use core_desappsii.Base.Keys.{
  add_row-IsUniqueBy, update_rows-IsUniqueBy, All-add_row, All-update_rows,
}
use core_desappsii.Text.{Text, text_eq-eq}
use core_desappsii.Json.{Json}
use core_desappsii.Errors.{ok, Result-cases}
use core_desappsii.Catalog.{Barrio, Catalog, is_slug, normalizar_codigo, get_barrio, set_if}
use core_desappsii.Catalog.Barrios.{
  crear_barrio, crear_barrio_checked, crear_barrio_new, add_barrio, actualizar_barrio,
  update_barrio, with_zona, save_barrio, change_barrio, zona_or_none, obtener_barrio,
}
use core_desappsii.Catalog.Slugs.{lookup_key-is_slug, normalizar_codigo-is_slug}
use core_desappsii.Catalog.Codes.{IsCatalog, IsZoned, barrio_has, zona_or_none-IsZoned}

module _ (uuid4 : ℕ → ℕ) where
  add_barrio-IsCatalog :
      (codigo nombre : Text) (metadatos : Option Json) (c : Catalog) (zona_id : Option ℕ)
      → is_slug codigo ≡ true
      → get_barrio codigo c ≡ none
      → IsZoned c.zonas zona_id
      → IsCatalog c
      → IsCatalog (add_barrio uuid4 codigo nombre metadatos c (ok zona_id)).1
  unfolding add_barrio get_barrio
  add_barrio-IsCatalog codigo nombre metadatos c zona_id slug e zoned h = record {
    zona_codes = h.zona_codes;
    barrio_codes =
        add_row-IsUniqueBy barrio_has c.barrios codigo _ (λ j k. sym (text_eq-eq codigo j k))
          (rw (sym (lookup_key-is_slug codigo slug)) e) h.barrio_codes;
    item_codes = h.item_codes;
    zona_slugs = h.zona_slugs;
    barrio_slugs = All-add_row (λ b. is_slug b.codigo ≡ true) c.barrios _ h.barrio_slugs slug;
    item_slugs = h.item_slugs;
    zoned = All-add_row (λ b. IsZoned c.zonas b.zona_id) c.barrios _ h.zoned zoned;
  }

  crear_barrio_checked-IsCatalog :
      (codigo nombre : Text) (zona : Option Text) (metadatos : Option Json) (c : Catalog)
      → is_slug codigo ≡ true
      → IsCatalog c
      → IsCatalog (crear_barrio_checked uuid4 nombre zona metadatos c (ok codigo)).1
  unfolding crear_barrio_checked crear_barrio_new
  crear_barrio_checked-IsCatalog codigo nombre zona metadatos c slug h =
      elim (Option-cases (get_barrio codigo c)) [
        | inl (b, e) ↦ rw e h
        | inr e ↦ elim (Result-cases (zona_or_none zona c)) [
          | inl (id, f) ↦
              rw (e, f)
                (add_barrio-IsCatalog codigo nombre metadatos c id slug e
                  (zona_or_none-IsZoned zona c id f) h)
          | inr (x, f) ↦ rw (e, f) h
        ]
      ]

  pub crear_barrio-IsCatalog :
      (codigo nombre : Text) (zona : Option Text) (metadatos : Option Json) (c : Catalog)
      → IsCatalog c
      → IsCatalog (crear_barrio uuid4 codigo nombre zona metadatos c).1
  unfolding crear_barrio crear_barrio_checked
  crear_barrio-IsCatalog codigo nombre zona metadatos c h =
      elim (Result-cases (normalizar_codigo codigo)) [
        | inl (k, e) ↦ rw e (
            crear_barrio_checked-IsCatalog k nombre zona metadatos c
              (normalizar_codigo-is_slug codigo k e).1 h)
        | inr (x, e) ↦ rw e h
      ]

-- A new zone, when there is one, is in the table.
abbrev IsZonedIf : Catalog → Option (Option ℕ) → Type 0
IsZonedIf c none = Unit
IsZonedIf c (some zona_id) = IsZoned c.zonas zona_id

save_barrio-IsCatalog :
    (nombre : Option Text) (zona_id : Option (Option ℕ)) (metadatos : Option Json)
    (activo : Option Bool) (c : Catalog) (barrio : Barrio)
    → IsZonedIf c zona_id
    → IsCatalog c
    → IsCatalog (save_barrio nombre zona_id metadatos activo c barrio).1
unfolding save_barrio change_barrio
save_barrio-IsCatalog nombre zona_id metadatos activo c barrio zoned h =
    let p = λ (b : Barrio). b.id == barrio.id in
    let change = change_barrio nombre zona_id metadatos activo in
    record {
      zona_codes = h.zona_codes;
      barrio_codes =
          update_rows-IsUniqueBy barrio_has p change c.barrios (λ k b. refl) h.barrio_codes;
      item_codes = h.item_codes;
      zona_slugs = h.zona_slugs;
      barrio_slugs =
          All-update_rows (λ b. is_slug b.codigo ≡ true) p change c.barrios h.barrio_slugs
            (λ b k. k);
      item_slugs = h.item_slugs;
      zoned =
          All-update_rows (λ b. IsZoned c.zonas b.zona_id) p change c.barrios h.zoned
            (λ b. changed zona_id zoned b.zona_id);
    }
  where
    changed :
        (new : Option (Option ℕ))
        → IsZonedIf c new
        → (old : Option ℕ) → IsZoned c.zonas old
        → IsZoned c.zonas (set_if (λ z. z) new old)
    changed none k old z = z
    changed (some new) k old z = k

pub actualizar_barrio-IsCatalog :
    (codigo : Text) (nombre zona : Option Text) (metadatos : Option Json) (activo : Option Bool)
    (c : Catalog)
    → IsCatalog c
    → IsCatalog (actualizar_barrio codigo nombre zona metadatos activo c).1
unfolding actualizar_barrio update_barrio with_zona
actualizar_barrio-IsCatalog codigo nombre none metadatos activo c h =
    elim (Result-cases (obtener_barrio codigo c)) [
      | inr (x, e) ↦ rw e h
      | inl (b, e) ↦ rw e (save_barrio-IsCatalog nombre none metadatos activo c b tt h)
    ]
actualizar_barrio-IsCatalog codigo nombre (some zona) metadatos activo c h =
    elim (Result-cases (obtener_barrio codigo c)) [
      | inr (x, e) ↦ rw e h
      | inl (b, e) ↦ elim (Result-cases (zona_or_none (some zona) c)) [
        | inl (id, f) ↦
            rw (e, f)
              (save_barrio-IsCatalog nombre (some id) metadatos activo c b
                (zona_or_none-IsZoned (some zona) c id f) h)
        | inr (x, f) ↦ rw (e, f) h
      ]
    ]
