-- ===== src/Catalog/Codes.antt =====
-- The codes of the catalogues are slugs, no two rows of a table share one, and each neighbourhood
-- lies in a zone that is there.
use mathlib.Core.Option.{some-injective}
use core_desappsii.Base.{
  ℕ, ◌≡◌, refl, sym, ap, ◌∙◌, subst, Bool, true, false, ◌&&◌, Option, none, some, List, [], ◌∷◌,
  ◌==◌, arith, All, find_one, add_row, update_rows, is_some, is_some-find_one-update_rows,
  find_one-append_left, Option-cases, Bool-cases, inl, inr, ==_refl, is_empty,
}
use core_desappsii.Base.Keys.{
  IsUniqueBy, add_row-IsUniqueBy, All-add_row, All-update_rows, All-each, update_rows-IsUniqueBy,
}
use core_desappsii.Text.{Text, text_eq, text_eq-eq}
use core_desappsii.Errors.{Result, ok, Result-cases}
use core_desappsii.Catalog.{
  Zona, Barrio, ItemDeCatalogo, Catalog, is_slug, normalizar_codigo, get_zona, lookup_key, required,
}
use core_desappsii.Catalog.Zonas.{
  crear_zona, crear_zona_checked, add_zona, actualizar_zona, update_zona, change_zona, obtener_zona,
}
use core_desappsii.Catalog.Barrios.{zona_or_none, zona_id_of}
use core_desappsii.Catalog.Items.{is_reserved}
use core_desappsii.Catalog.Slugs.{lookup_key-is_slug, normalizar_codigo-is_slug}

abbrev pub zona_has : Text → Zona → Bool
zona_has codigo z = text_eq z.codigo codigo

abbrev pub barrio_has : Text → Barrio → Bool
barrio_has codigo b = text_eq b.codigo codigo

abbrev pub item_has : Text × Text → ItemDeCatalogo → Bool
item_has (catalogo, codigo) i = text_eq i.catalogo catalogo && text_eq i.codigo codigo

-- The zone of a neighbourhood, if it has one, is in the table.
abbrev pub IsZoned : List Zona → Option ℕ → Type 0
IsZoned zonas none = Unit
IsZoned zonas (some id) = is_some (find_one (λ z. z.id == id) zonas) ≡ true

-- Well-formed tables.
pub record IsCatalog (c : Catalog) : Type 0 where
  pub zona_codes : IsUniqueBy zona_has c.zonas
  pub barrio_codes : IsUniqueBy barrio_has c.barrios
  pub item_codes : IsUniqueBy item_has c.items
  pub zona_slugs : All (λ z. is_slug z.codigo ≡ true) c.zonas
  pub barrio_slugs : All (λ b. is_slug b.codigo ≡ true) c.barrios
  pub item_slugs :
      All
        (λ i.
          (is_slug i.catalogo ≡ true)
          × (is_slug i.codigo ≡ true)
          × (is_reserved i.catalogo ≡ false))
        c.items
  pub zoned : All (λ b. IsZoned c.zonas b.zona_id) c.barrios

IsZoned-add_row :
    (zonas : List Zona) (z : Zona) (o : Option ℕ) → IsZoned zonas o → IsZoned (add_row z zonas) o
IsZoned-add_row zonas z none h = tt
IsZoned-add_row zonas z (some id) h = elim (Option-cases (find_one (λ z. z.id == id) zonas)) [
  | inl (a, e) ↦ rw (find_one-append_left (λ z. z.id == id) zonas (z ∷ []) a e) refl
  | inr e ↦ absurd (cc (h, e))
]

IsZoned-update_rows :
    (zonas : List Zona) (p : Zona → Bool) (change : Zona → Zona)
    → ((z : Zona) → (change z).id ≡ z.id)
    → (o : Option ℕ) → IsZoned zonas o
    → IsZoned (update_rows p change zonas) o
IsZoned-update_rows zonas p change same none h = tt
IsZoned-update_rows zonas p change same (some id) h =
    is_some-find_one-update_rows p (λ z. z.id == id) change zonas (λ z. ap (λ n. n == id) (same z))
    ∙ h

-- A zone that a query finds has its identifier in the table.
found-IsZoned :
    (p : Zona → Bool) (zonas : List Zona) (z : Zona)
    → find_one p zonas ≡ some z
    → IsZoned zonas (some z.id)
found-IsZoned p [] z h = absurd (cc h)
found-IsZoned p (x ∷ xs) z h = elim (Bool-cases (p x)) [
  | inl e ↦ rw (ap (λ r. r.id == z.id) (some-injective x z (rw e at h)), ==_refl z.id) refl
  | inr e ↦ ground (arith, found-IsZoned p xs z (rw e at h))
]

pub zona_or_none-IsZoned :
    (zona : Option Text) (c : Catalog) (o : Option ℕ)
    → ◌≡◌ {A = Result (Option ℕ)} (zona_or_none zona c) (ok o)
    → IsZoned c.zonas o
unfolding zona_or_none obtener_zona get_zona
zona_or_none-IsZoned none c o h = subst (IsZoned c.zonas) {x = none} (cc h) tt
zona_or_none-IsZoned (some zona) c o h = elim (Bool-cases (is_empty zona)) [
  | inl e ↦ subst (IsZoned c.zonas) {x = none} (cc (rw e at h)) tt
  | inr e ↦ found (get_zona zona c) refl (rw e at h)
]
  where
    found :
        (z : Option Zona)
        → get_zona zona c ≡ z
        → ◌≡◌ {A = Result (Option ℕ)} (zona_id_of (required z)) (ok o)
        → IsZoned c.zonas o
    found none e h = absurd (cc h)
    found (some z) e h =
        subst (IsZoned c.zonas) {x = some z.id} (cc h)
          (found-IsZoned (λ r. text_eq r.codigo (lookup_key zona)) c.zonas z e)

module _ (uuid4 : ℕ → ℕ) where
  add_zona-IsCatalog :
      (codigo nombre descripcion : Text) (c : Catalog)
      → is_slug codigo ≡ true
      → IsCatalog c
      → IsCatalog (add_zona uuid4 codigo nombre descripcion c (get_zona codigo c)).1
  unfolding add_zona get_zona
  add_zona-IsCatalog codigo nombre descripcion c slug h = elim (Option-cases (get_zona codigo c)) [
    | inl (z, e) ↦ rw e h
    | inr e ↦ rw e (record {
      zona_codes =
          add_row-IsUniqueBy zona_has c.zonas codigo _ (λ j k. sym (text_eq-eq codigo j k))
            (rw (sym (lookup_key-is_slug codigo slug)) e) h.zona_codes;
      barrio_codes = h.barrio_codes;
      item_codes = h.item_codes;
      zona_slugs = All-add_row _ c.zonas _ h.zona_slugs slug;
      barrio_slugs = h.barrio_slugs;
      item_slugs = h.item_slugs;
      zoned = All-each c.barrios (λ b. IsZoned-add_row c.zonas _ b.zona_id) h.zoned;
    })
  ]

  pub crear_zona-IsCatalog :
      (codigo nombre descripcion : Text) (c : Catalog)
      → IsCatalog c
      → IsCatalog (crear_zona uuid4 codigo nombre descripcion c).1
  unfolding crear_zona crear_zona_checked
  crear_zona-IsCatalog codigo nombre descripcion c h =
      elim (Result-cases (normalizar_codigo codigo)) [
        | inl (k, e) ↦
            rw e
              (add_zona-IsCatalog k nombre descripcion c (normalizar_codigo-is_slug codigo k e).1 h)
        | inr (x, e) ↦ rw e h
      ]

-- Writes that leave codes and identifiers alone.
update_zonas-IsCatalog :
    (p : Zona → Bool) (change : Zona → Zona) (c : Catalog)
    → ((z : Zona) → ((change z).id ≡ z.id) × ((change z).codigo ≡ z.codigo))
    → IsCatalog c
    → IsCatalog (record c { zonas = update_rows p change c.zonas })
update_zonas-IsCatalog p change c same h = record {
  zona_codes =
      update_rows-IsUniqueBy zona_has p change c.zonas (λ k z. ap (λ t. text_eq t k) (same z).1)
        h.zona_codes;
  barrio_codes = h.barrio_codes;
  item_codes = h.item_codes;
  zona_slugs =
      All-update_rows (λ z. is_slug z.codigo ≡ true) p change c.zonas h.zona_slugs
        (λ z k. subst (λ t. is_slug t ≡ true) (sym (same z).1) k);
  barrio_slugs = h.barrio_slugs;
  item_slugs = h.item_slugs;
  zoned =
      All-each c.barrios (λ b. IsZoned-update_rows c.zonas p change (λ z. (same z).0) b.zona_id)
        h.zoned;
}

pub actualizar_zona-IsCatalog :
    (codigo : Text) (nombre descripcion : Option Text) (activo : Option Bool) (c : Catalog)
    → IsCatalog c
    → IsCatalog (actualizar_zona codigo nombre descripcion activo c).1
unfolding actualizar_zona update_zona change_zona
actualizar_zona-IsCatalog codigo nombre descripcion activo c h =
    elim (Result-cases (obtener_zona codigo c)) [
      | inr (x, e) ↦ rw e h
      | inl (zona, e) ↦ rw e (
          update_zonas-IsCatalog (λ z. z.id == zona.id) (change_zona nombre descripcion activo) c
            (λ z. (refl, refl)) h)
    ]
