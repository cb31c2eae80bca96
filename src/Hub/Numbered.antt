-- ===== src/Hub/Numbered.antt =====
-- What a flush keeps of the deliveries of an event: it gives identifiers only.
use core_desappsii.Base.{
  ℕ, ◌+◌, ◌≡◌, ◌&&◌, ◌||◌, not, Bool, true, false, Option, some, List, [], ◌∷◌, arith, All, same_id,
  find_one, is_some, Bool-cases, inl, inr,
}
use core_desappsii.Text.{text_eq}
use core_desappsii.Model.Events.{Delivery}
use core_desappsii.World.{Env, number_rows}
use core_desappsii.Repositories.Events.{is_retrying}
use core_desappsii.Repositories.Registry.{Loaded}
use core_desappsii.Hub.Outcome.{is_delivered}

-- Delivered, or scheduled to be tried again at some time.
abbrev pub is_settled : Delivery → Bool
is_settled d = is_delivered d.status || (is_retrying d.status && is_some d.next_retry_at)

-- Every delivery of the event is settled.
abbrev pub AreSettled : Option ℕ → List Delivery → Type 0
AreSettled id ds = All (λ d. same_id d.event_log_id id && not (is_settled d) ≡ false) ds

abbrev pub IsRecorded : Option ℕ → List Delivery → Loaded → Type 0
IsRecorded id ds s =
    is_some
      (find_one (λ d. same_id d.event_log_id id && text_eq d.target_module s.module_row.name) ds)
    ≡ true

module _ (env : Env) where
  -- A flush gives identifiers and changes nothing else of a delivery.
  pub number_rows-AreSettled :
      (id : Option ℕ) (n : ℕ) (ds : List Delivery)
      → AreSettled id ds
      → AreSettled id (
          number_rows env
            (λ (d : Delivery). not (is_some d.id))
            (λ i d. record d { id = some i })
            n
            ds)
  unfolding number_rows
  number_rows-AreSettled id n [] h = tt
  number_rows-AreSettled id n (d ∷ ds) h = elim (Bool-cases (not (is_some d.id))) [
    | inl e ↦ rw e (h.0, number_rows-AreSettled id (n + 1) ds h.1)
    | inr e ↦ rw e (h.0, number_rows-AreSettled id n ds h.1)
  ]

  number_rows-IsRecorded :
      (id : Option ℕ) (n : ℕ) (ds : List Delivery) (s : Loaded)
      → IsRecorded id ds s
      → IsRecorded id
          (number_rows env
            (λ (d : Delivery). not (is_some d.id))
            (λ i d. record d { id = some i })
            n
            ds)
          s
  unfolding number_rows
  number_rows-IsRecorded id n [] s h = h
  number_rows-IsRecorded id n (d ∷ ds) s h =
      ground (arith, number_rows-IsRecorded id (n + 1) ds s, number_rows-IsRecorded id n ds s)

  pub All-number_rows :
      (id : Option ℕ) (n : ℕ) (ds : List Delivery) (ss : List Loaded)
      → All (IsRecorded id ds) ss
      → All
          (IsRecorded id (
            number_rows env
              (λ (d : Delivery). not (is_some d.id))
              (λ i d. record d { id = some i })
              n
              ds))
          ss
  All-number_rows id n ds [] h = tt
  All-number_rows id n ds (s ∷ ss) h =
      (number_rows-IsRecorded id n ds s h.0, All-number_rows id n ds ss h.1)
