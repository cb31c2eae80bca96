-- ===== src/Validation.antt =====
-- backend/app/services/validation.py: the check of an event's data against the declared schema. The
-- errors that jsonschema's `iter_errors` yields are a parameter, as is whether it yields them at all: it
-- raises where a schema refers to what it cannot find. What the program makes of them is here.
pub mod Report
mod Samples
use core_desappsii.Base.{
  ℕ, ◌-◌, Bool, true, false, ◌&&◌, ◌||◌, not, Option, none, some, List, [], ◌∷◌, ◌++◌, map, ltb,
  leb, ◌==◌, if◌then◌else◌, is_empty, any, filterb, take, length, is_some,
}
use core_desappsii.Text.{Text, lit, show, text_eq, text_le}
use core_desappsii.Json.{Json, get, is_dict, option_truthy}
use core_desappsii.Errors.{Result, ok, err, schema_error}
use core_desappsii.Model.Events.{Detail}

pub data PathPart : Type 0 where
  key : Text → PathPart
  index : ℕ → PathPart

-- The attributes that the program reads of an error of jsonschema.
pub record SchemaError : Type 0 where
  pub absolute_path : List PathPart
  pub validator : Text
  pub validator_value : List Text
  pub instance_value : Json
  pub message : Text

-- `ContractViolationError`: its message and its details.
pub record Violation : Type 0 where
  pub message : Text
  pub details : List Detail

abbrev pub max_reported_errors : ℕ
max_reported_errors = 20

unfoldable pub show_part : PathPart → Text
show_part (key k) = k
show_part (index n) = show n

-- `".".join(str(part) for part in path)`
unfoldable pub join_path : List PathPart → Text
unfolding show_part
join_path [] = []
join_path (p ∷ []) = show_part p
join_path (p ∷ q ∷ ps) = show_part p ++ (lit "." ++ join_path (q ∷ ps))

unfoldable pub part_lt : PathPart → PathPart → Bool
part_lt (key a) (key b) = text_le a b && not (text_eq a b)
part_lt (index a) (index b) = ltb a b
part_lt (index a) (key b) = true
part_lt (key a) (index b) = false

-- `<` on the lists that are the sort key. Python compares parts of one kind only, since two errors of
-- one document agree on the kind of the part below a common prefix.
unfoldable pub path_lt : List PathPart → List PathPart → Bool
unfolding part_lt
path_lt ps [] = false
path_lt [] (q ∷ qs) = true
path_lt (p ∷ ps) (q ∷ qs) = part_lt p q || (not (part_lt q p) && path_lt ps qs)

-- `sorted(errors, key=...)`: a stable insertion sort.
unfoldable pub insert_error : SchemaError → List SchemaError → List SchemaError
unfolding path_lt
insert_error e [] = e ∷ []
insert_error e (f ∷ fs) =
    if path_lt f.absolute_path e.absolute_path then f ∷ insert_error e fs else e ∷ f ∷ fs

unfoldable pub sort_errors : List SchemaError → List SchemaError
unfolding insert_error
sort_errors [] = []
sort_errors (e ∷ es) = insert_error e (sort_errors es)

abbrev or_root : Text → Text
or_root base_path = if is_empty base_path then lit "(raiz)" else base_path

unfoldable pub required_detail : Text → Text → Detail
required_detail base_path name = record {
  field = if is_empty base_path then name else base_path ++ (lit "." ++ name);
  message = lit "Es un campo obligatorio y no vino en el `data`.";
  constraint = lit "required";
}

-- The names in `validator_value` that the instance lacks.
unfoldable pub missing_fields : SchemaError → List Text
missing_fields e = filterb (λ f. not (is_some (get f e.instance_value))) e.validator_value

unfoldable pub general_detail : SchemaError → Detail
general_detail e = record {
  field = or_root (join_path e.absolute_path);
  message = e.message;
  constraint = e.validator;
}

unfoldable pub describe : SchemaError → List Detail
unfolding missing_fields required_detail general_detail join_path
describe e =
    let missing = missing_fields e in
    if text_eq e.validator (lit "required") && (is_dict e.instance_value && not (is_empty missing))
    then map (required_detail (join_path e.absolute_path)) missing
    else general_detail e ∷ []

-- Two details have one key `(field, constraint)`.
abbrev pub same_key : Detail → Detail → Bool
same_key a b = text_eq a.field b.field && text_eq a.constraint b.constraint

-- The inner loop. `seen` of the source is the set of keys of the details listed so far.
unfoldable pub add_details : List Detail → List Detail → List Detail
add_details details [] = details
add_details details (d ∷ ds) =
    add_details (if any (λ x. same_key d x) details then details else details ++ d ∷ []) ds

-- The outer loop, left once there are enough details.
unfoldable pub collect_details : List Detail → List SchemaError → List Detail
unfolding describe add_details
collect_details details [] = details
collect_details details (e ∷ es) =
    let more = add_details details (describe e) in
    let rest = collect_details more es in
    if leb max_reported_errors (length more) then more else rest

unfoldable pub truncation_detail : ℕ → Detail
truncation_detail total = record {
  field = lit "(...)";
  message = lit "y " ++ (show (total - max_reported_errors) ++ lit " error(es) mas");
  constraint = lit "truncated";
}

unfoldable pub report_details : List SchemaError → List Detail
unfolding collect_details truncation_detail
report_details errors =
    let details = take max_reported_errors (collect_details [] errors) in
    if ltb max_reported_errors (length errors)
    then details ++ truncation_detail (length errors) ∷ []
    else details

-- `validate_data` where jsonschema yields all its errors: nothing where it returns, the violation where
-- it raises one.
unfoldable pub violation_of :
    (Json → Json → List SchemaError) → Option Json → Json → Option Violation
unfolding report_details sort_errors
violation_of iter_errors none payload = none
violation_of iter_errors (some schema) payload =
    let errors = sort_errors (iter_errors schema payload) in
    if option_truthy (some schema)
    then (if is_empty errors
        then none
        else some (record {
          message =
              lit "El `data` no cumple el schema declarado para este tipo de evento ("
              ++ (show (length errors) ++ lit " error(es)).");
          details = report_details errors;
        }))
    else none

-- Whether jsonschema is asked, and raises an error of its own instead of yielding the errors.
unfoldable pub breaks_off : (Json → Json → Bool) → Option Json → Json → Bool
breaks_off evaluates none payload = false
breaks_off evaluates (some schema) payload =
    option_truthy (some schema) && not (evaluates schema payload)

-- `validate_data`: what it makes of the errors, or the error of jsonschema's own that it lets through.
unfoldable pub validate_data :
    (Json → Json → Bool)
    → (Json → Json → List SchemaError)
    → Option Json
    → Json
    → Result (Option Violation)
unfolding breaks_off violation_of
validate_data evaluates iter_errors schema payload =
    if breaks_off evaluates schema payload
    then err schema_error
    else ok (violation_of iter_errors schema payload)
