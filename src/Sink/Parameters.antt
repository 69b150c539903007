-- ===== src/Sink/Parameters.antt =====
-- kafka_sink_node.cpp: on_parameters_set. The parameters are read first; what they ask for is then
-- taken over in parts, each with its check, and a part that is refused leaves those before it.
use ros2_dispatcher.Prelude.{
  String, Bool, true, false, Option, none, some, List, [], ◌∷◌, ◌==◌, if◌then◌else◌, ℤ,
}
use ros2_dispatcher.Text.{has_prefix}
use ros2_dispatcher.Controller.Types.{Parameter, ParameterValue, integer_value}
use ros2_dispatcher.Controller.World.{Yaml, Outcome, ok, fail, thrown, ParameterResult}
use ros2_dispatcher.Controller.LoadFile.{YamlCpp}
use ros2_dispatcher.Controller.Parameters.{with_string, with_bool}
use ros2_dispatcher.Sink.Types.{KafkaParameters, Sink}
use ros2_dispatcher.Sink.Subscriptions.{parse_subscriptions_yaml}
use ros2_dispatcher.Sink.Settings.{
  to_int, is_positive, positive_or_zero, non_negative, parse_mapping_mode, parse_payload_format,
  validate_qos_depth, take_kafka,
}

unfoldable pub with_int : {A : Type 0} → ParameterValue → (ℤ → Outcome A) → Outcome A
unfolding to_int
with_int (integer_value bits) f = f (to_int bits)
with_int _ f = thrown "expected an integer"

-- The local variables of on_parameters_set; an update that is not required is `none`.
pub record Pending : Type 0 where
  pub yaml_text : Option String
  pub depth : ℤ
  pub kafka : KafkaParameters
  pub kafka_update_required : Bool
  pub metrics_update_required : Bool
  pub metrics_enabled : Bool
  pub metrics_interval_ms : ℤ
  pub metrics_topic : String
  pub telemetry_update_required : Bool
  pub telemetry_enabled : Bool
  pub telemetry_log_every_n : ℤ

unfoldable pub pending_of : Sink → Pending
pending_of s = record {
  yaml_text = none;
  depth = s.qos_depth;
  kafka = s.kafka_parameters;
  kafka_update_required = false;
  metrics_update_required = false;
  metrics_enabled = s.metrics_enabled;
  metrics_interval_ms = s.metrics_interval_ms;
  metrics_topic = s.metrics_topic;
  telemetry_update_required = false;
  telemetry_enabled = s.telemetry_enabled;
  telemetry_log_every_n = s.telemetry_log_every_n;
}

abbrev pub choose : {A B : Type 0} → String → Option A → (A → B) → Outcome B
choose reason none f = fail reason
choose reason (some a) f = ok (f a)

unfoldable pub read_kafka : Parameter → KafkaParameters → Outcome KafkaParameters
unfolding with_string with_bool with_int positive_or_zero non_negative parse_mapping_mode
    parse_payload_format
read_kafka param p =
    if param.name == "kafka.bootstrap_servers"
    then with_string param.value (λ v. ok (record p { bootstrap_servers = v }))
    else if param.name == "kafka.client_id"
    then with_string param.value (λ v. ok (record p { client_id = v }))
    else if param.name == "kafka.acks"
    then with_string param.value (λ v. ok (record p { acks = v }))
    else if param.name == "kafka.topic_prefix"
    then with_string param.value (λ v. ok (record p { topic_prefix = v }))
    else if param.name == "kafka.message_key"
    then with_string param.value (λ v. ok (record p { message_key = v }))
    else if param.name == "kafka.topic_mapping_mode"
    then with_string param.value (λ v.
      choose "invalid kafka.topic_mapping_mode" (parse_mapping_mode v)
        (λ mode. record p { topic_mapping_mode = mode }))
    else if param.name == "kafka.fixed_topic"
    then with_string param.value (λ v. ok (record p { fixed_topic = v }))
    else if param.name == "kafka.strict_startup"
    then with_bool param.value (λ v. ok (record p { strict_startup = v }))
    else if param.name == "kafka.max_queue_messages"
    then with_int param.value (λ v. ok (record p { max_queue_messages = positive_or_zero v }))
    else if param.name == "kafka.drop_when_full"
    then with_bool param.value (λ v. ok (record p { drop_when_full = v }))
    else if param.name == "kafka.linger_ms"
    then with_int param.value (λ v. ok (record p { linger_ms = non_negative v }))
    else if param.name == "kafka.batch_size"
    then with_int param.value (λ v. ok (record p { batch_size = non_negative v }))
    else if param.name == "kafka.payload_format"
    then with_string param.value (λ v.
      choose "invalid kafka.payload_format" (parse_payload_format v)
        (λ format. record p { payload_format = format }))
    else ok p

unfoldable pub read_metrics : Parameter → Pending → Outcome Pending
unfolding with_string with_bool with_int
read_metrics param p =
    if param.name == "metrics.enabled"
    then with_bool param.value (λ v. ok (record p { metrics_enabled = v }))
    else if param.name == "metrics.interval_ms"
    then with_int param.value (λ v. ok (record p { metrics_interval_ms = v }))
    else if param.name == "metrics.topic"
    then with_string param.value (λ v. ok (record p { metrics_topic = v }))
    else ok p

unfoldable pub read_telemetry : Parameter → Pending → Outcome Pending
unfolding with_bool with_int
read_telemetry param p =
    if param.name == "telemetry.enabled"
    then with_bool param.value (λ v. ok (record p { telemetry_enabled = v }))
    else if param.name == "telemetry.log_every_n"
    then with_int param.value (λ v. ok (record p { telemetry_log_every_n = v }))
    else ok p

abbrev with_kafka : Outcome KafkaParameters → Pending → Outcome Pending
with_kafka (ok k) p = ok (record p { kafka = k })
with_kafka (fail e) p = fail e
with_kafka (thrown e) p = thrown e

-- One turn of the loop. `active` is whether the lifecycle state is PRIMARY_STATE_ACTIVE.
unfoldable pub read_parameter : Bool → Parameter → Pending → Outcome Pending
unfolding has_prefix with_string with_int read_kafka read_metrics read_telemetry
read_parameter active param p =
    if param.name == "subscriptions_yaml"
    then (if active
        then fail "deactivate first"
        else with_string param.value (λ v. ok (record p { yaml_text = some v })))
    else if param.name == "qos_depth"
    then with_int param.value (λ v. ok (record p { depth = v }))
    else if has_prefix "kafka." param.name
    then (if active
        then fail "deactivate first"
        else with_kafka (read_kafka param p.kafka) (record p { kafka_update_required = true }))
    else if has_prefix "metrics." param.name
    then (if active
        then fail "deactivate first"
        else read_metrics param (record p { metrics_update_required = true }))
    else if has_prefix "telemetry." param.name
    then read_telemetry param (record p { telemetry_update_required = true })
    else ok p

unfoldable pub read_parameters : Bool → List Parameter → Pending → Outcome Pending
read_parameters active [] p = ok p
read_parameters active (param ∷ ps) p = elim (read_parameter active param p) [
  | ok p' ↦ read_parameters active ps p'
  | fail e ↦ fail e
  | thrown e ↦ thrown e
]

-- What follows a part that is taken over; a part that is refused ends the call.
abbrev pub after : Option String × Sink → (Sink → Option String × Sink) → Option String × Sink
after (none, s) f = f s
after (some e, s) f = (some e, s)

abbrev pub answer : Option String × Sink → Outcome ParameterResult × Sink
answer (none, s) = (ok (record { successful = true; reason = "accepted" }), s)
answer (some e, s) = (ok (record { successful = false; reason = e }), s)

-- if (kafka_update_required)
unfoldable pub take_kafka_part : Pending → Sink → Option String × Sink
unfolding take_kafka
take_kafka_part p s = if p.kafka_update_required then take_kafka p.kafka s else (none, s)

module _ (yaml : YamlCpp) (load : String → Option Yaml) where
  unfoldable pub take_subscriptions : Option String → Sink → Option String × Sink
  take_subscriptions none s = (none, s)
  take_subscriptions (some text) s = elim (parse_subscriptions_yaml yaml load text) [
    | ok configs ↦ (none, record s { configured_subscriptions = configs })
    | fail e ↦ (some e, s)
    | thrown e ↦ (some e, s)
  ]

  unfoldable pub take_depth : ℤ → Sink → Option String × Sink
  unfolding validate_qos_depth
  take_depth depth s = elim (validate_qos_depth depth) [
    | some e ↦ (some e, s)
    | none ↦ (none, record s { qos_depth = depth })
  ]

  unfoldable pub take_metrics : Pending → Sink → Sink
  take_metrics p s =
      if p.metrics_update_required
      then record s {
        metrics_enabled = p.metrics_enabled;
        metrics_interval_ms = p.metrics_interval_ms;
        metrics_topic = p.metrics_topic;
      }
      else s

  unfoldable pub take_telemetry : Pending → Sink → Option String × Sink
  take_telemetry p s =
      if p.telemetry_update_required
      then (if is_positive p.telemetry_log_every_n
          then (
            none,
            record s {
              telemetry_enabled = p.telemetry_enabled;
              telemetry_log_every_n = p.telemetry_log_every_n;
            },
          )
          else (some "telemetry.log_every_n must be >= 1", s))
      else (none, s)

  unfoldable pub take_pending : Pending → Sink → Option String × Sink
  unfolding take_subscriptions take_depth take_kafka_part take_metrics take_telemetry
  take_pending p s = after (take_subscriptions p.yaml_text s) λ s1.
      after (take_depth p.depth s1)
        λ s2. after (take_kafka_part p s2) λ s3. take_telemetry p (take_metrics p s3)

  -- A parameter of another type throws.
  unfoldable pub on_parameters_set : Bool → List Parameter → Sink → Outcome ParameterResult × Sink
  unfolding read_parameters pending_of take_pending
  on_parameters_set active parameters s = elim (read_parameters active parameters (pending_of s)) [
    | ok p ↦ answer (take_pending p s)
    | fail e ↦ answer (some e, s)
    | thrown e ↦ (thrown e, s)
  ]
