-- ===== src/Repositories/Samples.antt =====
-- Three rows in pages of two, and a log of one event that a module published.
use core_desappsii.Base.{ℕ, ◌≡◌, ◌≤◌, refl, Bool, false, none, some, List, [], ◌∷◌, length}
use core_desappsii.Base.Integers.{pos, negsuc}
use core_desappsii.Text.{Text, lit, text_eq}
use core_desappsii.World.{World, empty_world}
use core_desappsii.Hub.Samples.{sample_log}
use core_desappsii.Hub.Intake.{build_log}
use core_desappsii.Repositories.Paging.{paginate, pages}
use core_desappsii.Repositories.Paging.Cover.{first_pages, paginate-pages}
use core_desappsii.Repositories.Search.{LogQuery, search_logs}

abbrev three : List ℕ
three = 7 ∷ 8 ∷ 9 ∷ []

program : Unit {0}
unfolding paginate pages lit text_eq search_logs build_log
program = tt

-- The second page of two, and a page number and a size below one.
shown :
    ((paginate three (pos 2) (pos 2)).items ≡ 9 ∷ [])
    × ((paginate three (negsuc 4) (pos 0)).items ≡ 7 ∷ [])
    × (pages (paginate three (pos 1) (pos 2)) ≡ 2)
unfolding program
shown = (refl, refl, refl)

paginate-pages_example :
    (first_pages three (pos 2) (pages (paginate three (pos 1) (pos 2))) ≡ three)
    × (length (paginate three (pos 1) (pos 2)).items ≤ 200)
paginate-pages_example = paginate-pages three (pos 1) (pos 2)

abbrev pub one_event : World
one_event = record empty_world { event_logs = sample_log ∷ [] }

abbrev pub by_module : Text → LogQuery
by_module name = record {
  module_scope = some name;
  query = none;
  event_type = none;
  source_module = none;
  target_module = none;
  status = none;
  correlation_id = none;
  since = none;
  until = none;
}

abbrev pub never_like : Text → Text → Bool
never_like column pattern = false

found :
    (length (search_logs never_like (by_module (lit "rentas")) (pos 1) (pos 25) one_event).items
      ≡ 1)
    × (length (search_logs never_like (by_module (lit "obras")) (pos 1) (pos 25) one_event).items
        ≡ 0)
unfolding program
found = (refl, refl)
