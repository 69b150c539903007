-- ===== src/Mosquitto/Subscriptions.antt =====
-- mosquitto_sink_node.cpp: parse_subscriptions_yaml.
pub mod Laws
use ros2_dispatcher.Prelude.{
  String, Bool, true, false, ◌||◌, Option, none, some, List, [], ◌∷◌, ◌++◌, ◌⊕◌, is_empty,
  if◌then◌else◌,
}
use ros2_dispatcher.Text.{trim}
use ros2_dispatcher.Controller.World.{
  Yaml, YamlItems, sequence, mapping, items_end, item, Outcome, ok, thrown,
}
use ros2_dispatcher.Controller.LoadFile.{YamlCpp, ◌>>=◌, or_throw}
use ros2_dispatcher.Sink.Subscriptions.{trimmed, optional_key}
use ros2_dispatcher.Mosquitto.Types.{SubscriptionConfig}

unfoldable pub named_subscription : String → String → Option String → Outcome SubscriptionConfig
unfolding trimmed
named_subscription topic_name msg_type mqtt_name =
    if is_empty topic_name || is_empty msg_type
    then thrown "Subscription entries must have non-empty topic_name and msg_type."
    else ok (record { topic_name = topic_name; msg_type = msg_type; mqtt_name = trimmed mqtt_name })

module _ (yaml : YamlCpp) where
  unfoldable pub required_keys : Yaml → Option Yaml → Option Yaml → Outcome SubscriptionConfig
  unfolding named_subscription optional_key trim
  required_keys entry (some topic_node) (some msg_type_node) =
      or_throw yaml.what (yaml.as_string topic_node) >>= λ topic_name.
      or_throw yaml.what (yaml.as_string msg_type_node) >>= λ msg_type.
      optional_key yaml entry "mqtt_name" >>= λ mqtt_name.
      named_subscription (trim topic_name) (trim msg_type) mqtt_name
  required_keys entry _ _ = thrown "Each subscription entry requires 'topic_name' and 'msg_type'."

  unfoldable pub parse_subscription : Yaml → Outcome SubscriptionConfig
  unfolding required_keys
  parse_subscription (mapping entries) =
      or_throw yaml.what (yaml.child (mapping entries) "topic_name") >>= λ topic_node.
      or_throw yaml.what (yaml.child (mapping entries) "msg_type") >>= λ msg_type_node.
      required_keys (mapping entries) topic_node msg_type_node
  parse_subscription _ = thrown "Each subscription entry must be a map."

  unfoldable pub parse_subscriptions :
      YamlItems → List SubscriptionConfig → Outcome (List SubscriptionConfig)
  parse_subscriptions items_end configs = ok configs
  parse_subscriptions (item entry rest) configs =
      parse_subscription entry >>= λ config. parse_subscriptions rest (configs ++ config ∷ [])

  unfoldable pub parse_root : Yaml → Outcome (List SubscriptionConfig)
  unfolding parse_subscriptions
  parse_root (sequence items) = parse_subscriptions items []
  parse_root _ = thrown "Parameter 'subscriptions_yaml' must be a YAML sequence."

  unfoldable pub parse_subscriptions_yaml :
      (String → Option Yaml) → String → Outcome (List SubscriptionConfig)
  unfolding parse_root
  parse_subscriptions_yaml load yaml_text =
      if is_empty yaml_text then ok [] else elim (load yaml_text) [
        | none ↦ thrown ("Failed to parse subscriptions_yaml: " ⊕ yaml.what)
        | some root ↦ parse_root root
      ]
