-- ===== src/Sink/Refused.antt =====
-- kafka_sink_node.cpp: what a call of on_parameters_set that is refused leaves behind.
use ros2_dispatcher.Prelude.{
  ℕ, String, false, Option, none, some, List, [], ◌∷◌, ◌≡◌, ap, ◌∙◌, arith, ℤ,
}
use ros2_dispatcher.Controller.Types.{integer_value, string_value}
use ros2_dispatcher.Controller.World.{Yaml, ok}
use ros2_dispatcher.Controller.LoadFile.{YamlCpp}
use ros2_dispatcher.Controller.Parameters.{with_string}
use ros2_dispatcher.Sink.Types.{SubscriptionConfig, Sink}
use ros2_dispatcher.Sink.Subscriptions.{parse_subscriptions_yaml}
use ros2_dispatcher.Sink.Settings.{to_int, is_positive, validate_qos_depth}
use ros2_dispatcher.Sink.Parameters.{
  Pending, pending_of, with_int, read_parameter, read_parameters, take_subscriptions, take_depth,
  take_kafka_part, take_metrics, take_telemetry, take_pending, after, answer, on_parameters_set,
}

module _ (yaml : YamlCpp) (load : String → Option Yaml) where
  take_subscriptions-ok :
      (s : Sink) (text : String) (configs : List SubscriptionConfig)
      → parse_subscriptions_yaml yaml load text ≡ ok configs
      → take_subscriptions yaml load (some text) s
        ≡ (none, record s { configured_subscriptions = configs })
  unfolding take_subscriptions
  take_subscriptions-ok s text configs h = ground arith

  take_depth-refused :
      (s : Sink) (depth : ℤ)
      → is_positive depth ≡ false
      → take_depth yaml load depth s ≡ (some "qos_depth must be greater than zero.", s)
  unfolding take_depth validate_qos_depth
  take_depth-refused s depth h = ground arith

  -- Outside `active`, a call that sets the subscriptions and a depth that is not positive is
  -- refused, and the subscriptions are replaced all the same; nothing else is changed.
  pub on_parameters_set-refused :
      (s : Sink) (text : String) (bits : ℕ) (configs : List SubscriptionConfig)
      → parse_subscriptions_yaml yaml load text ≡ ok configs
      → is_positive (to_int bits) ≡ false
      → on_parameters_set yaml load false
          (record { name = "subscriptions_yaml"; value = string_value text }
            ∷ record { name = "qos_depth"; value = integer_value bits }
            ∷ [])
          s
        ≡ (
          ok (record { successful = false; reason = "qos_depth must be greater than zero." }),
          record s { configured_subscriptions = configs },
        )
  unfolding on_parameters_set read_parameters read_parameter with_string with_int take_pending
  on_parameters_set-refused s text bits configs parsed h =
      let t : Sink = record s { configured_subscriptions = configs } in
      let p : Pending = record (pending_of s) { yaml_text = some text; depth = to_int bits } in
      let last : Sink → Option String × Sink = λ s2.
        after (take_kafka_part p s2)
          λ s3. take_telemetry yaml load p (take_metrics yaml load p s3) in
      ap (λ r. answer (after r λ s1. after (take_depth yaml load (to_int bits) s1) last))
        (take_subscriptions-ok s text configs parsed)
      ∙ ap (λ r. answer (after r last)) (take_depth-refused t (to_int bits) h)
