-- ===== src/Stats/Dashboard.antt =====
-- backend/app/services/stats_service.py, `module_dashboard`: what a team sees of its own traffic. The
-- mean and the maximum of the processing times, which are floating point, are left out. A window is in
-- microseconds and does not reach before the epoch.
pub mod Sums
use core_desappsii.Base.{
  ℕ, ◌-◌, ◌*◌, ◌+◌, Bool, true, false, Option, none, some, List, [], ◌∷◌, ◌++◌, map, filterb,
  length, ◌==◌, if◌then◌else◌, count_rows,
}
use core_desappsii.Base.Counts.{get_count, sum_values}
use core_desappsii.Text.{Text}
use core_desappsii.Model.Events.{DeliveryStatus}
use core_desappsii.Model.Registry.{ModuleAccount, Publication}
use core_desappsii.World.{Env, World, now, tick}
use core_desappsii.Repositories.Registry.{Loaded, load_subscriptions, get_module_by_name}
use core_desappsii.Repositories.Statistics.{
  Bucket, count_published, top_types, count_deliveries_by_status, delivery_status_is, count_open,
  count_by_reason, hourly_volume,
}
use core_desappsii.Stats.Words.{sorted}
use core_desappsii.Stats.Alerts.{published_names}

-- The entries of the source's dict, by their paths in it.
pub record ModuleDashboard : Type 0 where
  pub module_name : Text
  pub published_total : ℕ
  pub published_in_window : ℕ
  pub published_top_types : List (Text × ℕ)
  pub received_by_status : List (DeliveryStatus × ℕ)
  pub received_total : ℕ
  pub received_delivered : ℕ
  pub received_pending_retry : ℕ
  pub received_dead : ℕ
  pub dead_letters_open : ℕ
  pub dead_letters_by_reason : List (Text × ℕ)
  pub subscriptions_total : ℕ
  pub subscriptions_active : ℕ
  pub subscribed_types : List Text
  pub declared_publications : List Text
  pub volume_by_hour : List Bucket

-- `subscription_repo.list_for_module(module.id) if module else []`
unfoldable pub subscriptions_of : Option ModuleAccount → World → List Loaded
unfolding load_subscriptions
subscriptions_of none w = []
subscriptions_of (some m) w =
    filterb (λ l. l.subscription.module_id == m.id)
      (load_subscriptions w.modules w.event_types w.subscriptions)

-- The names of the types of `publication_repo.list_for_module(module.id)` that are active.
unfoldable pub declared_of : Option ModuleAccount → World → List Text
unfolding published_names
declared_of none w = []
declared_of (some m) w =
    map (λ p. p.0)
      (published_names w.modules w.event_types (filterb (λ p. p.module_id == m.id) w.publications))

module _ (env : Env) where
  -- `utcnow() - timedelta(hours=window_hours)`
  abbrev pub window_start : ℕ → World → ℕ
  window_start window_hours w = now env w - window_hours * 3600000000

  -- `module_dashboard`, with the world after its two readings of the clock.
  unfoldable pub module_dashboard : Text → (window_hours : ℕ) → World → ModuleDashboard × World
  unfolding subscriptions_of declared_of count_published top_types count_deliveries_by_status
      count_open count_by_reason hourly_volume get_module_by_name sorted get_count sum_values
  module_dashboard name window_hours w =
      let since = window_start window_hours w in
      let found = get_module_by_name name w in
      let subscriptions = subscriptions_of found w in
      let by_status = count_deliveries_by_status (some name) w in
      let dashboard : ModuleDashboard = record {
        module_name = name;
        published_total = count_published name none w;
        published_in_window = count_published name (some since) w;
        published_top_types = top_types (some name) (some since) 10 w;
        received_by_status = by_status;
        received_total = sum_values by_status;
        received_delivered = get_count delivery_status_is DeliveryStatus.delivered by_status;
        received_pending_retry = get_count delivery_status_is DeliveryStatus.retrying by_status;
        received_dead = get_count delivery_status_is DeliveryStatus.dead by_status;
        dead_letters_open = count_open (some name) w;
        dead_letters_by_reason = count_by_reason (some name) w;
        subscriptions_total = length subscriptions;
        subscriptions_active = count_rows (λ l. l.subscription.active) subscriptions;
        subscribed_types =
            sorted (
              map (λ l. l.event_type_row.name)
                (filterb (λ l. l.subscription.active) subscriptions));
        declared_publications = sorted (declared_of found w);
        volume_by_hour = hourly_volume (some name) (some since) w;
      } in
      (dashboard, tick env (tick env w))
