-- ===== src/Stats/Dashboard/Sums.antt =====
-- The numbers of a module's dashboard count its own deliveries.
use core_desappsii.Base.{
  ℕ, ◌≡◌, refl, ◌∙◌, true, false, ◌&&◌, some, List, [], ◌∷◌, arith, map, filterb, length,
  count_rows, is_empty,
}
use core_desappsii.Base.Counts.{get_count-group_count, sum_values-group_count, get_count}
use core_desappsii.Text.{Text, text_eq}
use core_desappsii.Model.Events.{Delivery, DeliveryStatus}
use core_desappsii.World.{Env, World}
use core_desappsii.Repositories.Search.{if_text}
use core_desappsii.Repositories.Statistics.{delivery_status_is, count_deliveries_by_status}
use core_desappsii.Stats.Dashboard.{module_dashboard}

delivery_status_is-eq : (a b : DeliveryStatus) → delivery_status_is a b ≡ true → a ≡ b
delivery_status_is-eq DeliveryStatus.pending DeliveryStatus.pending h = refl
delivery_status_is-eq DeliveryStatus.pending DeliveryStatus.delivered h = absurd (cc h)
delivery_status_is-eq DeliveryStatus.pending DeliveryStatus.retrying h = absurd (cc h)
delivery_status_is-eq DeliveryStatus.pending DeliveryStatus.dead h = absurd (cc h)
delivery_status_is-eq DeliveryStatus.pending DeliveryStatus.discarded h = absurd (cc h)
delivery_status_is-eq DeliveryStatus.delivered DeliveryStatus.pending h = absurd (cc h)
delivery_status_is-eq DeliveryStatus.delivered DeliveryStatus.delivered h = refl
delivery_status_is-eq DeliveryStatus.delivered DeliveryStatus.retrying h = absurd (cc h)
delivery_status_is-eq DeliveryStatus.delivered DeliveryStatus.dead h = absurd (cc h)
delivery_status_is-eq DeliveryStatus.delivered DeliveryStatus.discarded h = absurd (cc h)
delivery_status_is-eq DeliveryStatus.retrying DeliveryStatus.pending h = absurd (cc h)
delivery_status_is-eq DeliveryStatus.retrying DeliveryStatus.delivered h = absurd (cc h)
delivery_status_is-eq DeliveryStatus.retrying DeliveryStatus.retrying h = refl
delivery_status_is-eq DeliveryStatus.retrying DeliveryStatus.dead h = absurd (cc h)
delivery_status_is-eq DeliveryStatus.retrying DeliveryStatus.discarded h = absurd (cc h)
delivery_status_is-eq DeliveryStatus.dead DeliveryStatus.pending h = absurd (cc h)
delivery_status_is-eq DeliveryStatus.dead DeliveryStatus.delivered h = absurd (cc h)
delivery_status_is-eq DeliveryStatus.dead DeliveryStatus.retrying h = absurd (cc h)
delivery_status_is-eq DeliveryStatus.dead DeliveryStatus.dead h = refl
delivery_status_is-eq DeliveryStatus.dead DeliveryStatus.discarded h = absurd (cc h)
delivery_status_is-eq DeliveryStatus.discarded DeliveryStatus.pending h = absurd (cc h)
delivery_status_is-eq DeliveryStatus.discarded DeliveryStatus.delivered h = absurd (cc h)
delivery_status_is-eq DeliveryStatus.discarded DeliveryStatus.retrying h = absurd (cc h)
delivery_status_is-eq DeliveryStatus.discarded DeliveryStatus.dead h = absurd (cc h)
delivery_status_is-eq DeliveryStatus.discarded DeliveryStatus.discarded h = refl

delivery_status_is_refl : (a : DeliveryStatus) → delivery_status_is a a ≡ true
delivery_status_is_refl DeliveryStatus.pending = refl
delivery_status_is_refl DeliveryStatus.delivered = refl
delivery_status_is_refl DeliveryStatus.retrying = refl
delivery_status_is_refl DeliveryStatus.dead = refl
delivery_status_is_refl DeliveryStatus.discarded = refl

-- The deliveries to a module, and those of them in a state.
abbrev pub deliveries_to : Text → World → ℕ
deliveries_to name w = count_rows (λ d. text_eq d.target_module name) w.deliveries

abbrev pub deliveries_in : DeliveryStatus → Text → World → ℕ
deliveries_in status name w =
    count_rows (λ d. text_eq d.target_module name && delivery_status_is d.status status)
      w.deliveries

length-status_rows :
    (name : Text) (ds : List Delivery)
    → is_empty name ≡ false
    → length (map (λ d. d.status) (filterb (λ d. if_text (text_eq d.target_module) (some name)) ds))
      ≡ count_rows (λ d. text_eq d.target_module name) ds
length-status_rows name [] h = refl
length-status_rows name (d ∷ ds) h = ground (arith, h, length-status_rows name ds h)

count-status_rows :
    (name : Text) (status : DeliveryStatus) (ds : List Delivery)
    → is_empty name ≡ false
    → count_rows
        (λ s. delivery_status_is s status)
        (map (λ d. d.status) (filterb (λ d. if_text (text_eq d.target_module) (some name)) ds))
      ≡ count_rows (λ d. text_eq d.target_module name && delivery_status_is d.status status) ds
count-status_rows name status [] h = refl
count-status_rows name status (d ∷ ds) h = ground (arith, h, count-status_rows name status ds h)

get_status :
    (name : Text) (status : DeliveryStatus) (w : World)
    → is_empty name ≡ false
    → get_count delivery_status_is status (count_deliveries_by_status (some name) w)
      ≡ deliveries_in status name w
unfolding count_deliveries_by_status
get_status name status w h =
    get_count-group_count delivery_status_is delivery_status_is-eq delivery_status_is_refl status (
      map (λ d. d.status)
        (filterb (λ d. if_text (text_eq d.target_module) (some name)) w.deliveries))
    ∙ count-status_rows name status w.deliveries h

-- On the dashboard of a module, the deliveries received add up to the delivery rows of that module,
-- and those shown as delivered, waiting and dead are its rows in that state; its deliveries to other
-- modules count nowhere.
pub module_dashboard-deliveries :
    (env : Env) (name : Text) (window_hours : ℕ) (w : World)
    → is_empty name ≡ false
    → let dashboard = (module_dashboard env name window_hours w).0 in
      (dashboard.received_total ≡ deliveries_to name w)
      × (dashboard.received_delivered ≡ deliveries_in DeliveryStatus.delivered name w)
      × (dashboard.received_pending_retry ≡ deliveries_in DeliveryStatus.retrying name w)
      × (dashboard.received_dead ≡ deliveries_in DeliveryStatus.dead name w)
unfolding module_dashboard count_deliveries_by_status
module_dashboard-deliveries env name window_hours w h = (
  sum_values-group_count delivery_status_is _ ∙ length-status_rows name w.deliveries h,
  get_status name DeliveryStatus.delivered w h,
  get_status name DeliveryStatus.retrying w h,
  get_status name DeliveryStatus.dead w h,
)
