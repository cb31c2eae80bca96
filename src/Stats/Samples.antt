-- ===== src/Stats/Samples.antt =====
-- Names of event types as the modules write them, a registry where nobody publishes what two
-- modules wait for, and what the report says of them.
use core_desappsii.Base.{
  ◌≡◌, ◌≤◌, refl, true, false, none, List, [], ◌∷◌, map, length, any, All, ◌↔◌, ◌⊎◌, ℕ,
}
use core_desappsii.Base.Grids.{cell}
use core_desappsii.Base.Counts.{get_count}
use core_desappsii.Text.{Text, lit, lower, text_eq, text_le}
use core_desappsii.Hub.Samples.{sample_world, sample_env}
use core_desappsii.Delivery.Samples.{busy_world}
use core_desappsii.Model.Events.{DeliveryStatus}
use core_desappsii.Stats.Dashboard.{module_dashboard}
use core_desappsii.Stats.Dashboard.Sums.{deliveries_to, deliveries_in, module_dashboard-deliveries}
use core_desappsii.Stats.Distance.{edit_distance_at_most}
use core_desappsii.Stats.Distance.Alignments.{Alignment}
use core_desappsii.Stats.Distance.Answer.{edit_distance_at_most-Alignment}
use core_desappsii.Stats.Words.{split_camel, is_near_duplicate}
use core_desappsii.Stats.Words.Split.{join, join-split_camel, IsWord}
use core_desappsii.Stats.Words.Similar.{is_near_duplicate_lem, HasSameWords, IsTypo}
use core_desappsii.Stats.Alerts.{Kind, counts_by_event_type}
use core_desappsii.Stats.Alerts.Names.{similar_name_alerts}
use core_desappsii.Stats.Alerts.Report.{integration_alerts}
use core_desappsii.Stats.Alerts.Warnings.{
  integration_alerts-misaligned, is_flow_warning, is_misaligned,
}
use core_desappsii.Stats.Alerts.Pairs.{similar_name_alerts-near_pairs, near_pairs}

abbrev closure : Text
closure = lit "streetclosure"

abbrev clousure : Text
clousure = lit "streetclousure"

abbrev overdue : List Text
overdue = lit "debtOverdue" ∷ lit "overdueDebt" ∷ lit "Closure" ∷ []

program : Unit {0}
unfolding edit_distance_at_most split_camel is_near_duplicate similar_name_alerts integration_alerts
    lit text_eq cell lower text_le get_count counts_by_event_type
program = tt

-- A swap is one edit, and nothing is added inside it; words in another order are the same words; short names are left alone.
answers :
    (edit_distance_at_most (lit "abc") (lit "acb") 1 ≡ true)
    × (edit_distance_at_most (lit "abc") (lit "cab") 1 ≡ false)
    × (edit_distance_at_most (lit "ca") (lit "abc") 2 ≡ false)
    × (edit_distance_at_most (lit "abcd") (lit "a") 2 ≡ false)
    × (split_camel (lit "debtOverdue") ≡ lit "debt" ∷ lit "overdue" ∷ [])
    × (is_near_duplicate (lit "debtOverdue") (lit "overdueDebt") ≡ true)
    × (is_near_duplicate (lit "Closure") (lit "Clousure") ≡ false)
    × (length (similar_name_alerts [] [] overdue) ≡ 1)
    × (map (λ a. a.kind) (integration_alerts (sample_world none)) ≡ Kind.no_producer_declared ∷ [])
unfolding program
answers = (refl, refl, refl, refl, refl, refl, refl, refl, refl)

edit_distance_at_most-Alignment_example :
    (edit_distance_at_most closure clousure 2 ≡ true)
    ↔ ((n : ℕ) × (n ≤ 2) × Alignment closure clousure (length closure) (length clousure) n)
edit_distance_at_most-Alignment_example = edit_distance_at_most-Alignment closure clousure 2

is_near_duplicate_lem_example : (is_near_duplicate closure clousure ≡ true) ↔ (
    (text_eq closure clousure ≡ false) × (HasSameWords closure clousure ⊎ IsTypo closure clousure))
is_near_duplicate_lem_example = is_near_duplicate_lem closure clousure

join-split_camel_example :
    (join (split_camel (lit "debtOverdue")) ≡ lower (lit "debtOverdue"))
    × All IsWord (split_camel (lit "debtOverdue"))
join-split_camel_example = join-split_camel (lit "debtOverdue")

integration_alerts-misaligned_example :
    any (is_flow_warning (lit "debtOverdue")) (integration_alerts (sample_world none))
    ≡ any (is_misaligned (sample_world none) (lit "debtOverdue")) (sample_world none).event_types
integration_alerts-misaligned_example =
    integration_alerts-misaligned (sample_world none) (lit "debtOverdue")

similar_name_alerts-near_pairs_example :
    similar_name_alerts [] [] overdue ≡ near_pairs [] [] overdue
unfolding lit text_eq
similar_name_alerts-near_pairs_example =
    similar_name_alerts-near_pairs [] [] overdue (refl, (refl, (refl, tt)))

module_dashboard-deliveries_example :
    ((module_dashboard (sample_env false) (lit "obras") 24 (busy_world 1 none)).0.received_total
      ≡ deliveries_to (lit "obras") (busy_world 1 none))
    × ((module_dashboard
          (sample_env false)
          (lit "obras")
          24
          (busy_world 1 none)).0.received_delivered
        ≡ deliveries_in DeliveryStatus.delivered (lit "obras") (busy_world 1 none))
    × ((module_dashboard
          (sample_env false)
          (lit "obras")
          24
          (busy_world 1 none)).0.received_pending_retry
        ≡ deliveries_in DeliveryStatus.retrying (lit "obras") (busy_world 1 none))
    × ((module_dashboard (sample_env false) (lit "obras") 24 (busy_world 1 none)).0.received_dead
        ≡ deliveries_in DeliveryStatus.dead (lit "obras") (busy_world 1 none))
unfolding lit
module_dashboard-deliveries_example =
    module_dashboard-deliveries (sample_env false) (lit "obras") 24 (busy_world 1 none) refl
