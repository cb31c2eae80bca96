-- ===== src/Catalog.antt =====
-- The catalogues of the municipality: backend/app/models/catalog.py, the lookups of
-- backend/app/repositories/catalog_repository.py, and the codes of
-- backend/app/services/catalog_service.py. The time stamps of the rows are left out.
pub mod Zonas
pub mod Barrios
pub mod Items
pub mod Slugs
pub mod Codes
pub mod BarrioCodes
pub mod ItemCodes
pub mod Reach
pub mod Kept
mod Samples
use core_desappsii.Base.{
  ℕ, Bool, true, false, ◌&&◌, ◌||◌, not, Option, none, some, List, [], ◌∷◌, leb, ◌==◌, find_one,
  if◌then◌else◌, is_empty,
}
use core_desappsii.Base.Integers.{ℤ}
use core_desappsii.Text.{Text, lit, strip, lower, text_eq}
use core_desappsii.Json.{Json, obj, end, truthy}
use core_desappsii.Errors.{Result, ok, err, validation, not_found}

pub record Zona : Type 0 where
  pub id : ℕ
  pub codigo : Text
  pub nombre : Text
  pub descripcion : Text
  pub activo : Bool

pub record Barrio : Type 0 where
  pub id : ℕ
  pub codigo : Text
  pub nombre : Text
  pub zona_id : Option ℕ
  pub metadatos : Json
  pub activo : Bool

pub record ItemDeCatalogo : Type 0 where
  pub id : ℕ
  pub catalogo : Text
  pub codigo : Text
  pub nombre : Text
  pub descripcion : Text
  pub orden : ℤ
  pub metadatos : Json
  pub activo : Bool

-- The tables, and the number of identifiers generated.
pub record Catalog : Type 0 where
  pub zonas : List Zona
  pub barrios : List Barrio
  pub items : List ItemDeCatalogo
  pub uuids : ℕ

abbrev pub empty_catalog : Catalog
empty_catalog = record { zonas = []; barrios = []; items = []; uuids = 0 }

-- `[a-z0-9]`
abbrev pub is_slug_char : ℕ → Bool
is_slug_char c = (leb 97 c && leb c 122) || (leb 48 c && leb c 57)

-- `^[a-z0-9]+(?:-[a-z0-9]+)*$`, from a place where a character of a word must come (`true`), or may.
unfoldable pub matches_from : Bool → Text → Bool
matches_from must [] = not must
matches_from must (c ∷ cs) =
    let word = matches_from false cs in
    let next = matches_from true cs in
    if is_slug_char c then word else if c == 45 && not must then next else false

-- `_CODIGO.match(codigo)`, on a text with no newline at its end.
unfoldable pub is_slug : Text → Bool
unfolding matches_from
is_slug codigo = matches_from true codigo

-- `normalizar_codigo`
unfoldable pub normalizar_codigo : Text → Result Text
unfolding is_slug strip
normalizar_codigo valor =
    let codigo = strip valor in
    if is_empty codigo then err validation else if is_slug codigo then ok codigo else err validation

-- `codigo.strip().lower()`
unfoldable pub lookup_key : Text → Text
unfolding strip lower
lookup_key codigo = lower (strip codigo)

-- `ZonaRepository.get_by_codigo`
unfoldable pub get_zona : Text → Catalog → Option Zona
unfolding lookup_key
get_zona codigo c = find_one (λ z. text_eq z.codigo (lookup_key codigo)) c.zonas

-- `BarrioRepository.get_by_codigo`
unfoldable pub get_barrio : Text → Catalog → Option Barrio
unfolding lookup_key
get_barrio codigo c = find_one (λ b. text_eq b.codigo (lookup_key codigo)) c.barrios

-- `ItemDeCatalogoRepository.get_by_codigo`
unfoldable pub get_item : (catalogo codigo : Text) → Catalog → Option ItemDeCatalogo
unfolding lookup_key
get_item catalogo codigo c =
    find_one (λ i. text_eq i.catalogo (lookup_key catalogo) && text_eq i.codigo (lookup_key codigo))
      c.items

-- The objects that the lookups of the service return, or its NotFoundError.
abbrev pub required {ℓ} : {A : Type ℓ} → Option A → Result A
required none = err not_found
required (some a) = ok a

-- `if value is not None: row.field = change(value)`
abbrev pub set_if {ℓ κ} : {A : Type ℓ} {B : Type κ} → (A → B) → Option A → B → B
set_if change none old = old
set_if change (some a) old = change a

-- `metadatos or {}`
abbrev pub or_empty_dict : Option Json → Json
or_empty_dict none = obj end
or_empty_dict (some j) = if truthy j then j else obj end
