-- ===== src/Registry/Samples.antt =====
-- Two modules, a type of each, and who may touch what.
use core_desappsii.Base.{◌≡◌, refl, true, false, none, some, [], arith, length}
use core_desappsii.Text.{lit, strip, text_eq}
use core_desappsii.Json.{obj, end}
use core_desappsii.Errors.{is_ok, err, forbidden}
use core_desappsii.Messaging.Topology.{default_settings}
use core_desappsii.Repositories.Registry.{get_type_by_name}
use core_desappsii.Hub.Samples.{sample_env, sample_type, sample_world}
use core_desappsii.Registry.Authority.{normalise}
use core_desappsii.Registry.Modules.{register_module, update_module}
use core_desappsii.Registry.EventTypes.{TypeForm, set_schema, declare_event_type}
use core_desappsii.Registry.Subscriptions.{subscribe, unsubscribe, set_subscription_active}
use core_desappsii.Registry.Publications.{declare_publication}
use core_desappsii.Registry.Guards.{set_schema-forbidden}
use core_desappsii.Registry.Uniqueness.{IsUnique, subscriptions-IsUnique}

program : Unit {0}
unfolding register_module update_module set_schema declare_event_type subscribe unsubscribe
    set_subscription_active declare_publication normalise get_type_by_name strip text_eq lit
    default_settings
program = tt

-- With the broker down the subscription is made all the same, and subscribing again makes no second one.
kept :
    (is_ok
        (subscribe
          (sample_env true)
          (lit "obras")
          (lit "nuevo")
          3
          (some (lit "Obras "))
          false
          (sample_world none)).0
      ≡ true)
    × (length
          (subscribe
            (sample_env true)
            (lit "obras")
            (lit "debtOverdue")
            3
            none
            false
            (sample_world none)).1.subscriptions
        ≡ 2)
unfolding program
kept = (refl, refl)

abbrev takeover : TypeForm
takeover = record {
  name = lit "debtOverdue";
  owner_module = some (lit "obras");
  description = [];
  json_schema = some (obj end);
}

set_schema-forbidden_example :
    (set_schema
        (sample_env false)
        (strip takeover.name)
        none
        (some (lit "obras"))
        false
        (sample_world none)
      ≡ (err forbidden, sample_world none))
    × (is_ok
          (declare_event_type
            (sample_env false)
            takeover
            (some (lit "obras"))
            false
            (sample_world none)).0
        ≡ false)
    × ((declare_event_type
          (sample_env false)
          takeover
          (some (lit "obras"))
          false
          (sample_world none)).1
        ≡ sample_world none)
unfolding program
set_schema-forbidden_example =
    set_schema-forbidden (sample_env false) takeover none (sample_type none) (lit "obras")
      (lit "rentas") (sample_world none) refl refl refl refl refl

subscriptions-IsUnique_example :
    IsUnique
      (subscribe
        (sample_env false)
        (lit "obras")
        (lit "debtOverdue")
        4
        (some (lit "obras"))
        false
        (sample_world none)).1
    × IsUnique (unsubscribe (sample_env false) 3 (some (lit "obras")) false (sample_world none)).1
    × IsUnique
        (set_subscription_active
          (sample_env false)
          3
          true
          (some (lit "obras"))
          false
          (sample_world none)).1
subscriptions-IsUnique_example =
    subscriptions-IsUnique (sample_env false) (lit "obras") (lit "debtOverdue") 4 3 true
      (some (lit "obras")) false (sample_world none) λ m t. ground arith
