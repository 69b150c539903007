-- ===== src/Mosquitto/Subscriptions/Laws.antt =====
-- What mosquitto_sink reads of the document by which the controller sets subscriptions_yaml.
use mathlib.Core.List.{append_assoc, append-nil}
use ros2_dispatcher.Prelude.{
  String, ◌≡◌, ◌≢◌, ◌∙◌, arith, Option, none, some, List, [], ◌∷◌, ◌++◌, map, All, eq_iff,
}
use ros2_dispatcher.Controller.Types.{TopicInfo}
use ros2_dispatcher.Controller.World.{Yaml, sequence, mapping, ok}
use ros2_dispatcher.Controller.LoadFile.{YamlCpp, topics_document, topics_to_yaml}
use ros2_dispatcher.Sink.Subscriptions.{optional_key, trimmed}
use ros2_dispatcher.Sink.Subscriptions.Laws.{ReadsScalars, IsPlain, entries_for}
use ros2_dispatcher.Mosquitto.Types.{SubscriptionConfig}
use ros2_dispatcher.Mosquitto.Subscriptions.{
  named_subscription, required_keys, parse_subscription, parse_subscriptions, parse_root,
  parse_subscriptions_yaml,
}

-- The subscription of a topic, without a name for MQTT.
abbrev pub unnamed : TopicInfo → SubscriptionConfig
unnamed t = record { topic_name = t.name; msg_type = t.type; mqtt_name = none }

module _ (yaml : YamlCpp) (reads : ReadsScalars yaml) where
  parse_subscription-unnamed :
      (t : TopicInfo)
      → IsPlain t
      → parse_subscription yaml (mapping (entries_for t)) ≡ ok (unnamed t)
  unfolding parse_subscription required_keys named_subscription optional_key trimmed
  parse_subscription-unnamed t (n, n0, y, y0) =
      rw
        (
          reads.child-mapping (entries_for t) "topic_name",
          reads.child-mapping (entries_for t) "msg_type",
          reads.child-mapping (entries_for t) "mqtt_name",
          reads.as_string-scalar t.name,
          reads.as_string-scalar t.type,
          n,
          y,
        )
        (ground (arith, eq_iff t.name "", eq_iff t.type ""))

  parse_subscriptions-unnamed :
      (ts : List TopicInfo) (configs : List SubscriptionConfig)
      → All IsPlain ts
      → parse_subscriptions yaml (topics_document yaml ts) configs ≡ ok (configs ++ map unnamed ts)
  unfolding parse_subscriptions topics_document
  parse_subscriptions-unnamed [] configs h = simp append-nil
  parse_subscriptions-unnamed (t ∷ ts) configs h =
      rw (parse_subscription-unnamed t h.0)
        (parse_subscriptions-unnamed ts (configs ++ unnamed t ∷ []) h.1 ∙ simp append_assoc)

  -- mosquitto_sink reads from the controller's text exactly the controller's topics, in order, with
  -- no mqtt_name, if their names and types are not empty and have no space at their ends, and
  -- yaml-cpp loads the text that it has emitted as the document emitted.
  pub parse_subscriptions_yaml-unnamed :
      (load : String → Option Yaml) (ts : List TopicInfo)
      → load (topics_to_yaml yaml ts) ≡ some (sequence (topics_document yaml ts))
      → topics_to_yaml yaml ts ≢ ""
      → All IsPlain ts
      → parse_subscriptions_yaml yaml load (topics_to_yaml yaml ts) ≡ ok (map unnamed ts)
  unfolding parse_subscriptions_yaml parse_root
  parse_subscriptions_yaml-unnamed load ts loaded some_text plain =
      ground (arith, parse_subscriptions-unnamed ts [] plain, eq_iff (topics_to_yaml yaml ts) "")
