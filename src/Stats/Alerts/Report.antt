-- ===== src/Stats/Alerts/Report.antt =====
-- backend/app/services/stats_service.py, `integration_alerts`: all alerts, in the order of
-- severity, kind and type.
use core_desappsii.Base.{ℕ, Bool, ◌&&◌, ◌||◌, List, [], ◌∷◌, ◌++◌, map, ltb, ◌==◌, if◌then◌else◌}
use core_desappsii.Text.{Text, lit, text_eq, text_le}
use core_desappsii.World.{World}
use core_desappsii.Stats.Alerts.{
  Alert, Severity, Kind, types_ordered, type_alerts, producers_by_type, consumers_by_type,
}
use core_desappsii.Stats.Alerts.Names.{similar_name_alerts}

-- `order.get(severity, 2)`
unfoldable pub severity_order : Severity → ℕ
severity_order Severity.warning = 0
severity_order Severity.info = 1

-- The texts of the source.
unfoldable pub kind_text : Kind → Text
kind_text Kind.no_subscribers = lit "NO_SUBSCRIBERS"
kind_text Kind.undeclared_type = lit "UNDECLARED_TYPE"
kind_text Kind.never_received = lit "NEVER_RECEIVED"
kind_text Kind.no_producer_declared = lit "NO_PRODUCER_DECLARED"
kind_text Kind.no_consumer_declared = lit "NO_CONSUMER_DECLARED"
kind_text Kind.similar_names = lit "SIMILAR_NAMES"

-- `<=` on the keys of the sort, which are tuples.
unfoldable pub alert_le : Alert → Alert → Bool
unfolding severity_order kind_text
alert_le a b =
    ltb (severity_order a.severity) (severity_order b.severity)
    || (severity_order a.severity == severity_order b.severity
        && (if text_eq (kind_text a.kind) (kind_text b.kind)
            then text_le a.event_type b.event_type
            else text_le (kind_text a.kind) (kind_text b.kind)))

-- `alerts.sort(key=...)`, which is stable.
unfoldable pub insert_alert : Alert → List Alert → List Alert
unfolding alert_le
insert_alert a [] = a ∷ []
insert_alert a (x ∷ xs) = if alert_le a x then a ∷ x ∷ xs else x ∷ insert_alert a xs

unfoldable pub sort_alerts : List Alert → List Alert
unfolding insert_alert
sort_alerts [] = []
sort_alerts (a ∷ rest) = insert_alert a (sort_alerts rest)

-- `integration_alerts`
unfoldable pub integration_alerts : World → List Alert
unfolding sort_alerts type_alerts types_ordered similar_name_alerts producers_by_type
    consumers_by_type
integration_alerts w =
    let types = types_ordered w.event_types in
    sort_alerts (
      type_alerts w types
      ++ similar_name_alerts (producers_by_type w) (consumers_by_type w) (map (λ t. t.name) types))
