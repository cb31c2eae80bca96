-- ===== src/Json.antt =====
-- Parsed JSON: what `json.loads` returns and a JSON column holds. The program reads the numbers of
-- a document for their truth only, so a number is a natural number here.
use core_desappsii.Base.{
  ℕ, Bool, true, false, not, Option, none, some, is_empty, ◌==◌, if◌then◌else◌,
}
use core_desappsii.Text.{Text, text_eq}

mutual
  pub data Json : Type 0 where
    null : Json
    bool : Bool → Json
    number : ℕ → Json
    str : Text → Json
    arr : Items → Json
    obj : Fields → Json

  pub data Items : Type 0 where
    nil : Items
    cons : Json → Items → Items

  pub data Fields : Type 0 where
    end : Fields
    field : Text → Json → Fields → Fields

-- `isinstance(body, dict)`
abbrev pub is_dict : Json → Bool
is_dict (obj fs) = true
is_dict null = false
is_dict (bool b) = false
is_dict (number n) = false
is_dict (str s) = false
is_dict (arr xs) = false

-- `bool(value)`
abbrev pub truthy : Json → Bool
truthy null = false
truthy (bool b) = b
truthy (number n) = not (n == 0)
truthy (str s) = not (is_empty s)
truthy (arr nil) = false
truthy (arr (cons x xs)) = true
truthy (obj end) = false
truthy (obj (field k v fs)) = true

-- The truth of a nullable document: `if not schema`.
abbrev pub option_truthy : Option Json → Bool
option_truthy none = false
option_truthy (some j) = truthy j

unfoldable pub get_field : Text → Fields → Option Json
get_field k end = none
get_field k (field j v fs) = if text_eq j k then some v else get_field k fs

-- `body.get(key)` of a dictionary. Elsewhere the source tests for a dictionary first.
abbrev pub get : Text → Json → Option Json
get k (obj fs) = get_field k fs
get k null = none
get k (bool b) = none
get k (number n) = none
get k (str s) = none
get k (arr xs) = none

-- A value read as text, or nothing.
abbrev pub as_text : Option Json → Option Text
as_text none = none
as_text (some (str s)) = some s
as_text (some null) = none
as_text (some (bool b)) = none
as_text (some (number n)) = none
as_text (some (arr xs)) = none
as_text (some (obj fs)) = none
