-- ===== src/Validation/Samples.antt =====
-- The report of two errors about one missing field.
use core_desappsii.Base.{◌≡◌, ◌≤◌, refl, List, [], ◌∷◌, ◌++◌, length, ltb, if◌then◌else◌}
use core_desappsii.Text.{lit, text_eq}
use core_desappsii.Json.{get_field, obj, end}
use core_desappsii.Model.Events.{Detail}
use core_desappsii.Validation.{SchemaError, report_details, truncation_detail}
use core_desappsii.Validation.Report.{HasDistinctKeys, report_details_lem}

abbrev missing_id : SchemaError
missing_id = record {
  absolute_path = [];
  validator = lit "required";
  validator_value = lit "id" ∷ [];
  instance_value = obj end;
  message = lit "falta";
}

once : length (report_details (missing_id ∷ missing_id ∷ [])) ≡ 1
unfolding report_details lit text_eq get_field
once = refl

report_details_lem_example :
    (shown : List Detail) × (length shown ≤ 20)
    × HasDistinctKeys shown
    × (report_details (missing_id ∷ missing_id ∷ [])
        ≡ (if ltb 20 2 then shown ++ truncation_detail 2 ∷ [] else shown))
report_details_lem_example = report_details_lem (missing_id ∷ missing_id ∷ [])
