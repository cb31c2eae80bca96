-- ===== src/Delivery/Operator/Outcomes.antt =====
-- backend/app/services/delivery_service.py: the outcome of one retry, and small helpers.
use core_desappsii.Base.{ℕ, Bool, true, false, Option, none, some, List, [], ◌∷◌, ◌++◌, or_else}
use core_desappsii.Text.{Text, lit}
use core_desappsii.Model.Events.{DeadLetter, DeadLetterStatus, opened, retried}
use core_desappsii.Delivery.Letters.{RetryOutcome}

abbrev pub outcome : DeadLetter → Bool → Text → ℕ → RetryOutcome
outcome d is_success message attempt_number = record {
  dead_letter_id = or_else d.id 0;
  is_success = is_success;
  message = message;
  attempt_number = attempt_number;
}

abbrev pub is_open : DeadLetterStatus → Bool
is_open opened = true
is_open retried = false
is_open DeadLetterStatus.discarded = false

-- `", ".join(names)`
unfoldable pub join_names : List Text → Text
join_names [] = []
join_names (a ∷ []) = a
join_names (a ∷ b ∷ rest) = a ++ (lit ", " ++ join_names (b ∷ rest))

-- The text that the f-string of a nullable module prints.
abbrev pub or_none : Option Text → Text
or_none none = lit "None"
or_none (some t) = t
