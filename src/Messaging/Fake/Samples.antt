-- ===== src/Messaging/Fake/Samples.antt =====
-- A broker in memory with the topology of two modules.
use core_desappsii.Base.{◌≡◌, refl, true, false, some, none, [], ◌∷◌, In, head, tail}
use core_desappsii.Text.{lit, text_eq}
use core_desappsii.Json.{null}
use core_desappsii.Messaging.Broker.{OutboundMessage}
use core_desappsii.Messaging.Topology.{default_settings, full_topology}
use core_desappsii.Messaging.Fake.{
  FakeBroker, fake_broker, declare, publish, messages_in, topic_matches,
}
use core_desappsii.Messaging.Fake.Reach.{publish-declare}

abbrev notice : OutboundMessage
notice = record {
  exchange = default_settings.exchange_events;
  routing_key = lit "q.rentas";
  body = null;
  headers = record {
    event_id = [];
    target = lit "rentas";
    trace_id = [];
    attempt = 1;
    error = none;
  };
  message_id = none;
}

patterns :
    (topic_matches (lit "a.*.c") (lit "a.b.c") ≡ true)
    × (topic_matches (lit "a.*") (lit "a.b.c") ≡ false)
    × (topic_matches (lit "a.#") (lit "a") ≡ true)
    × (topic_matches (lit "a.#") (lit "ab") ≡ false)
unfolding topic_matches lit text_eq
patterns = (refl, refl, refl, refl)

publish-declare_example :
    (b' : FakeBroker) × (publish notice (
        declare
          (full_topology default_settings (lit "q.obras" ∷ lit "q.rentas" ∷ []))
          (fake_broker true false))
      ≡ some b')
    × In notice (messages_in (lit "q.rentas") b'.queues)
publish-declare_example =
    publish-declare default_settings (lit "q.obras" ∷ lit "q.rentas" ∷ []) notice
      (fake_broker true false) (tail head) refl refl
