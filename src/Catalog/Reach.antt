-- ===== src/Catalog/Reach.antt =====
-- The calls of the service as steps from one catalogue to the next, and what all catalogues have that
-- steps lead to from an empty database.
use core_desappsii.Base.{ℕ, Bool, Option, arith}
use core_desappsii.Base.Integers.{ℤ}
use core_desappsii.Text.{Text}
use core_desappsii.Json.{Json}
use core_desappsii.Catalog.{Catalog, empty_catalog}
use core_desappsii.Catalog.Zonas.{crear_zona, actualizar_zona}
use core_desappsii.Catalog.Barrios.{crear_barrio, actualizar_barrio}
use core_desappsii.Catalog.Items.{ItemForm, crear_item, actualizar_item}
use core_desappsii.Catalog.Codes.{IsCatalog, crear_zona-IsCatalog, actualizar_zona-IsCatalog}
use core_desappsii.Catalog.BarrioCodes.{crear_barrio-IsCatalog, actualizar_barrio-IsCatalog}
use core_desappsii.Catalog.ItemCodes.{crear_item-IsCatalog, actualizar_item-IsCatalog}

module _ (uuid4 : ℕ → ℕ) where
  -- One call, whether it returns or raises.
  pub data Step (c : Catalog) : Catalog → Type 0 where
    zona_created :
        (codigo nombre descripcion : Text) → Step c (crear_zona uuid4 codigo nombre descripcion c).1
    zona_changed :
        (codigo : Text) (nombre descripcion : Option Text) (activo : Option Bool)
        → Step c (actualizar_zona codigo nombre descripcion activo c).1
    barrio_created :
        (codigo nombre : Text) (zona : Option Text) (metadatos : Option Json)
        → Step c (crear_barrio uuid4 codigo nombre zona metadatos c).1
    barrio_changed :
        (codigo : Text) (nombre zona : Option Text) (metadatos : Option Json) (activo : Option Bool)
        → Step c (actualizar_barrio codigo nombre zona metadatos activo c).1
    item_created :
        (catalogo codigo : Text) (form : ItemForm)
        → Step c (crear_item uuid4 catalogo codigo form c).1
    item_changed :
        (catalogo codigo : Text) (nombre descripcion : Option Text) (orden : Option ℤ)
        (metadatos : Option Json) (activo : Option Bool)
        → Step c (actualizar_item catalogo codigo nombre descripcion orden metadatos activo c).1

  pub data Reachable : Catalog → Type 0 where
    start : Reachable empty_catalog
    step : {c d : Catalog} → Reachable c → Step c d → Reachable d

  Step-IsCatalog : {c d : Catalog} → Step c d → IsCatalog c → IsCatalog d
  Step-IsCatalog {c} (zona_created codigo nombre descripcion) h =
      crear_zona-IsCatalog uuid4 codigo nombre descripcion c h
  Step-IsCatalog {c} (zona_changed codigo nombre descripcion activo) h =
      actualizar_zona-IsCatalog codigo nombre descripcion activo c h
  Step-IsCatalog {c} (barrio_created codigo nombre zona metadatos) h =
      crear_barrio-IsCatalog uuid4 codigo nombre zona metadatos c h
  Step-IsCatalog {c} (barrio_changed codigo nombre zona metadatos activo) h =
      actualizar_barrio-IsCatalog codigo nombre zona metadatos activo c h
  Step-IsCatalog {c} (item_created catalogo codigo form) h =
      crear_item-IsCatalog uuid4 catalogo codigo form c h
  Step-IsCatalog {c} (item_changed catalogo codigo nombre descripcion orden metadatos activo) h =
      actualizar_item-IsCatalog catalogo codigo nombre descripcion orden metadatos activo c h

-- Whatever calls are made of the catalogue service, from empty tables on: no two zones, no two
-- neighbourhoods and no two entries of one catalogue have the same code, all codes are slugs, no
-- generic catalogue takes a reserved name, and a neighbourhood that names a zone names one that is
-- in the table.
pub Reachable-IsCatalog : (uuid4 : ℕ → ℕ) (c : Catalog) → Reachable uuid4 c → IsCatalog c
Reachable-IsCatalog uuid4 c start = record {
  zona_codes = λ k. omega arith;
  barrio_codes = λ k. omega arith;
  item_codes = λ k. omega arith;
  zona_slugs = tt;
  barrio_slugs = tt;
  item_slugs = tt;
  zoned = tt;
}
Reachable-IsCatalog uuid4 c (step {c = b} r s) =
    Step-IsCatalog uuid4 s (Reachable-IsCatalog uuid4 b r)
