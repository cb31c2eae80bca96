-- ===== src/Stats/Alerts/Warnings.antt =====
-- Which mismatches `integration_alerts` warns of.
use core_desappsii.Base.{
  ℕ, ◌≡◌, refl, ap, ◌∙◌, Bool, true, false, ◌&&◌, ◌||◌, not, List, [], ◌∷◌, ◌++◌, ltb, ◌==◌, any,
  map, Bool-cases, inl, inr, arith, if◌then◌else◌, count_rows, length,
}
use core_desappsii.Base.Counts.{values_of, get_count-group_count, get_list, get_list-group_lists}
use core_desappsii.Text.{Text, text_eq, text_eq-eq, text_eq_refl}
use core_desappsii.Model.Registry.{EventType}
use core_desappsii.World.{World}
use core_desappsii.Stats.Alerts.{
  Alert, Severity, Kind, types_ordered, insert_type, type_alerts, alerts_of, alert_if,
  producers_by_type, consumers_by_type, subscribed_names, published_names, subscriber_count,
  producer_count, counts_by_event_type,
}
use core_desappsii.Stats.Alerts.Names.{similar_name_alerts, name_alerts, pair_alerts, similar_alert}
use core_desappsii.Stats.Alerts.Report.{integration_alerts, sort_alerts, insert_alert}

any-append {ℓ} :
    {A : Type ℓ} (p : A → Bool) (xs ys : List A) → any p (xs ++ ys) ≡ (any p xs || any p ys)
any-append p [] ys = refl
any-append p (x ∷ xs) ys = ground (arith, any-append p xs ys)

module _ (p : Alert → Bool) where
  any-insert_alert : (a : Alert) (xs : List Alert) → any p (insert_alert a xs) ≡ (p a || any p xs)
  unfolding insert_alert
  any-insert_alert a [] = refl
  any-insert_alert a (x ∷ xs) = ground (arith, any-insert_alert a xs)

  any-sort_alerts : (xs : List Alert) → any p (sort_alerts xs) ≡ any p xs
  unfolding sort_alerts
  any-sort_alerts [] = refl
  any-sort_alerts (x ∷ xs) =
      any-insert_alert x (sort_alerts xs) ∙ ap (λ b. p x || b) (any-sort_alerts xs)

module _ (p : EventType → Bool) where
  any-insert_type :
      (t : EventType) (ts : List EventType) → any p (insert_type t ts) ≡ (p t || any p ts)
  unfolding insert_type
  any-insert_type t [] = refl
  any-insert_type t (x ∷ xs) = ground (arith, any-insert_type t xs)

  any-types_ordered : (ts : List EventType) → any p (types_ordered ts) ≡ any p ts
  unfolding types_ordered
  any-types_ordered [] = refl
  any-types_ordered (t ∷ ts) =
      any-insert_type t (types_ordered ts) ∙ ap (λ b. p t || b) (any-types_ordered ts)

-- The number of active subscriptions to a type, and of modules that declare to publish it.
abbrev pub subscriptions_to : World → Text → ℕ
subscriptions_to w name =
    count_rows (λ x. text_eq x name) (subscribed_names w.event_types w.subscriptions)

abbrev pub publications_of : World → Text → ℕ
publications_of w name =
    length (values_of text_eq name (published_names w.modules w.event_types w.publications))

subscriber_count-eq : (w : World) (name : Text) → subscriber_count w name ≡ subscriptions_to w name
unfolding counts_by_event_type
subscriber_count-eq w name =
    get_count-group_count text_eq text_eq-eq text_eq_refl name
      (subscribed_names w.event_types w.subscriptions)

producer_count-eq : (w : World) (name : Text) → producer_count w name ≡ publications_of w name
unfolding producers_by_type get_list
producer_count-eq w name = ap length (
    get_list-group_lists text_eq text_eq-eq text_eq_refl name
      (published_names w.modules w.event_types w.publications) [])

-- A type that events came of is aligned if somebody subscribes to it; one that never came, if it has
-- both a subscriber and a publisher, or neither.
abbrev pub is_aligned : (subscribers producers received : ℕ) → Bool
is_aligned subscribers producers received =
    if received == 0
    then (if subscribers == 0 then producers == 0 else ltb 0 producers)
    else ltb 0 subscribers

abbrev pub is_pair_kind : Kind → Bool
is_pair_kind Kind.no_subscribers = false
is_pair_kind Kind.undeclared_type = false
is_pair_kind Kind.never_received = false
is_pair_kind Kind.no_producer_declared = false
is_pair_kind Kind.no_consumer_declared = false
is_pair_kind Kind.similar_names = true

abbrev pub is_warning : Severity → Bool
is_warning Severity.warning = true
is_warning Severity.info = false

-- A warning, other than of a pair of names, about the type of that name.
abbrev pub is_flow_warning : Text → Alert → Bool
is_flow_warning name a =
    text_eq a.event_type name && (is_warning a.severity && not (is_pair_kind a.kind))

any-alert_if :
    (name : Text) (test : Bool) (severity : Severity) (kind : Kind) (event_type detail : Text)
    → any (is_flow_warning name) (alert_if test severity kind event_type detail)
      ≡ (test && (text_eq event_type name && (is_warning severity && not (is_pair_kind kind))))
any-alert_if name true severity kind event_type detail = ground arith
any-alert_if name false severity kind event_type detail = refl

any-alerts_of :
    (name : Text) (subscribers producers : ℕ) (t : EventType)
    → any (is_flow_warning name) (alerts_of subscribers producers t)
      ≡ (text_eq t.name name && not (is_aligned subscribers producers t.total_received))
unfolding alerts_of
any-alerts_of name subscribers producers t =
    simp (any-append (is_flow_warning name), any-alert_if name) (ground arith)

-- Whether the type `t` is of that name and not aligned.
abbrev pub is_misaligned : World → Text → EventType → Bool
is_misaligned w name t =
    text_eq t.name name
    && not (is_aligned (subscriptions_to w name) (publications_of w name) t.total_received)

any-alerts_of_type :
    (w : World) (name : Text) (t : EventType)
    → any (is_flow_warning name) (alerts_of (subscriber_count w t.name) (producer_count w t.name) t)
      ≡ is_misaligned w name t
any-alerts_of_type w name t =
    any-alerts_of name (subscriber_count w t.name) (producer_count w t.name) t
    ∙ rw (subscriber_count-eq w t.name, producer_count-eq w t.name)
        (elim (Bool-cases (text_eq t.name name)) [
          | inl e ↦
              ap
                (λ n.
                  text_eq t.name name
                  && not (is_aligned (subscriptions_to w n) (publications_of w n) t.total_received))
                (text_eq-eq t.name name e)
          | inr e ↦ rw e refl
        ])

any-type_alerts :
    (w : World) (name : Text) (ts : List EventType)
    → any (is_flow_warning name) (type_alerts w ts) ≡ any (is_misaligned w name) ts
unfolding type_alerts
any-type_alerts w name [] = refl
any-type_alerts w name (t ∷ ts) =
    any-append (is_flow_warning name)
      (alerts_of (subscriber_count w t.name) (producer_count w t.name) t) (type_alerts w ts)
    ∙ rw (any-alerts_of_type w name t, any-type_alerts w name ts) refl

any-pair_alerts :
    (name : Text) (producers consumers : List (Text × List Text)) (left : Text) (names : List Text)
    (seen : List (Text × Text))
    → any (is_flow_warning name) (pair_alerts producers consumers left names seen).0 ≡ false
unfolding pair_alerts similar_alert
any-pair_alerts name producers consumers left [] seen = refl
any-pair_alerts name producers consumers left (right ∷ names) seen = ground (
  arith,
  any-pair_alerts name producers consumers left names seen,
  any-pair_alerts name producers consumers left names ((left, right) ∷ seen),
)

any-name_alerts :
    (name : Text) (producers consumers : List (Text × List Text)) (names : List Text)
    (seen : List (Text × Text))
    → any (is_flow_warning name) (name_alerts producers consumers names seen) ≡ false
unfolding name_alerts
any-name_alerts name producers consumers [] seen = refl
any-name_alerts name producers consumers (left ∷ names) seen =
    let found = pair_alerts producers consumers left names seen in
    any-append (is_flow_warning name) found.0 (name_alerts producers consumers names found.1)
    ∙ rw
        (
          any-pair_alerts name producers consumers left names seen,
          any-name_alerts name producers consumers names found.1,
        )
        refl

-- Apart from the pairs of similar names, the report warns about a name exactly when some event type
-- of that name is not aligned: events of it came and no subscription to it is active, or none came
-- and it has a subscriber or a publisher but not both.
pub integration_alerts-misaligned :
    (w : World) (name : Text)
    → any (is_flow_warning name) (integration_alerts w) ≡ any (is_misaligned w name) w.event_types
unfolding integration_alerts similar_name_alerts
integration_alerts-misaligned w name =
    let types = types_ordered w.event_types in
    any-sort_alerts (is_flow_warning name) (
      type_alerts w types
      ++ similar_name_alerts (producers_by_type w) (consumers_by_type w) (map (λ t. t.name) types))
    ∙ any-append (is_flow_warning name) (type_alerts w types)
        (similar_name_alerts (producers_by_type w) (consumers_by_type w) (map (λ t. t.name) types))
    ∙ rw
        (
          any-type_alerts w name types,
          any-name_alerts name (producers_by_type w) (consumers_by_type w) (map (λ t. t.name) types)
              [],
        )
        (ground arith ∙ any-types_ordered (is_misaligned w name) w.event_types)
