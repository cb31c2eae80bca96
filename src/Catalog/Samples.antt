-- ===== src/Catalog/Samples.antt =====
-- A zone, a neighbourhood in it, and the codes that are refused.
use core_desappsii.Base.{◌≡◌, refl, ℕ, ◌+◌, false, none, some, [], ◌∷◌, map, ◌↔◌}
use core_desappsii.Base.Integers.{pos}
use core_desappsii.Text.{Text, lit, strip, lower, text_eq}
use core_desappsii.Errors.{Result, ok, err, is_ok, validation}
use core_desappsii.Catalog.{Catalog, empty_catalog, normalizar_codigo}
use core_desappsii.Catalog.Zonas.{crear_zona, actualizar_zona}
use core_desappsii.Catalog.Barrios.{crear_barrio, actualizar_barrio}
use core_desappsii.Catalog.Items.{crear_item}
use core_desappsii.Catalog.Slugs.{normalizar_codigo-Slug, Slug}
use core_desappsii.Catalog.Codes.{IsCatalog}
use core_desappsii.Catalog.Reach as Reach
use core_desappsii.Catalog.Reach.{Reachable, Step, Reachable-IsCatalog}
use core_desappsii.Catalog.Kept.{Step-IsKept, IsKept}

abbrev ids : ℕ → ℕ
ids n = 100 + n

abbrev zona_catalog : Catalog
zona_catalog = (crear_zona ids (lit " norte ") (lit "Norte") [] empty_catalog).1

abbrev barrio_catalog : Catalog
barrio_catalog =
    (crear_barrio ids (lit "villa-elisa") (lit "Villa Elisa") (some (lit "Norte")) none
      zona_catalog).1

program : Unit {0}
unfolding normalizar_codigo crear_zona actualizar_zona crear_barrio actualizar_barrio crear_item lit
    strip lower text_eq
program = tt

-- Spaces around a code are taken off, capitals are refused; a code is taken once, in any case.
codes :
    (map (λ z. z.codigo) zona_catalog.zonas ≡ lit "norte" ∷ [])
    × (map (λ b. b.zona_id) barrio_catalog.barrios ≡ some 100 ∷ [])
    × ◌≡◌ {A = Result Text} (normalizar_codigo (lit "Villa-Elisa")) (err validation)
    × ◌≡◌ {A = Result Text} (normalizar_codigo (lit "villa--elisa")) (err validation)
    × (is_ok (crear_zona ids (lit "norte") (lit "Otra") [] zona_catalog).0 ≡ false)
    × (is_ok
          (crear_item ids
            (lit "zonas")
            (lit "a")
            (record { nombre = []; descripcion = []; orden = pos 0; metadatos = none })
            zona_catalog).0
        ≡ false)
unfolding program
codes = (refl, refl, refl, refl, refl, refl)

normalizar_codigo-Slug_example :
    (◌≡◌ {A = Result Text} (normalizar_codigo (lit " norte ")) (ok (lit "norte")))
    ↔ ((strip (lit " norte ") ≡ lit "norte") × Slug (lit "norte"))
normalizar_codigo-Slug_example = normalizar_codigo-Slug (lit " norte ") (lit "norte")

Reachable-IsCatalog_example : IsCatalog barrio_catalog
Reachable-IsCatalog_example = Reachable-IsCatalog ids barrio_catalog (
    Reach.step (Reach.step Reach.start (Reach.zona_created (lit " norte ") (lit "Norte") []))
      (Reach.barrio_created (lit "villa-elisa") (lit "Villa Elisa") (some (lit "Norte")) none))

Step-IsKept_example :
    IsKept barrio_catalog
      (actualizar_barrio (lit "villa-elisa") none (some []) none none barrio_catalog).1
Step-IsKept_example =
    Step-IsKept ids barrio_catalog
      (actualizar_barrio (lit "villa-elisa") none (some []) none none barrio_catalog).1
      (Reach.barrio_changed (lit "villa-elisa") none (some []) none none)
