-- ===== src/Mosquitto/Parameters.antt =====
-- mosquitto_sink_node.cpp: on_parameters_set. The parameters are read first; what they ask for is
-- then taken over in parts, each with its check, and a part that is refused leaves those before it.
use ros2_dispatcher.Prelude.{
  String, Bool, true, false, Option, none, some, List, [], ◌∷◌, ◌==◌, if◌then◌else◌, ℤ,
}
use ros2_dispatcher.Text.{has_prefix}
use ros2_dispatcher.Controller.Types.{Parameter}
use ros2_dispatcher.Controller.World.{Yaml, Outcome, ok, fail, thrown, ParameterResult}
use ros2_dispatcher.Controller.LoadFile.{YamlCpp}
use ros2_dispatcher.Controller.Parameters.{with_string, with_bool}
use ros2_dispatcher.Sink.Parameters.{with_int, choose}
use ros2_dispatcher.Sink.Settings.{parse_mapping_mode, parse_payload_format, validate_qos_depth}
use ros2_dispatcher.Mosquitto.Settings.{take_mqtt}
use ros2_dispatcher.Mosquitto.Subscriptions.{parse_subscriptions_yaml}
use ros2_dispatcher.Mosquitto.Types.{MqttParameters, MosquittoSink}

-- The local variables of on_parameters_set; an update that is not required is `none`.
pub record Pending : Type 0 where
  pub yaml_text : Option String
  pub depth : ℤ
  pub mqtt : MqttParameters
  pub mqtt_update_required : Bool
  pub metrics_update_required : Bool
  pub metrics_enabled : Bool
  pub metrics_interval_ms : ℤ
  pub metrics_topic : String

unfoldable pub pending_of : MosquittoSink → Pending
pending_of s = record {
  yaml_text = none;
  depth = s.qos_depth;
  mqtt = s.mqtt_parameters;
  mqtt_update_required = false;
  metrics_update_required = false;
  metrics_enabled = s.metrics_enabled;
  metrics_interval_ms = s.metrics_interval_ms;
  metrics_topic = s.metrics_topic;
}

unfoldable pub read_mqtt : Parameter → MqttParameters → Outcome MqttParameters
unfolding with_string with_bool with_int parse_mapping_mode parse_payload_format
read_mqtt param p =
    if param.name == "mqtt.broker_host"
    then with_string param.value (λ v. ok (record p { broker_host = v }))
    else if param.name == "mqtt.broker_port"
    then with_int param.value (λ v. ok (record p { broker_port = v }))
    else if param.name == "mqtt.client_id"
    then with_string param.value (λ v. ok (record p { client_id = v }))
    else if param.name == "mqtt.username"
    then with_string param.value (λ v. ok (record p { username = v }))
    else if param.name == "mqtt.password"
    then with_string param.value (λ v. ok (record p { password = v }))
    else if param.name == "mqtt.qos"
    then with_int param.value (λ v. ok (record p { qos = v }))
    else if param.name == "mqtt.retain"
    then with_bool param.value (λ v. ok (record p { retain = v }))
    else if param.name == "mqtt.keep_alive_seconds"
    then with_int param.value (λ v. ok (record p { keep_alive_seconds = v }))
    else if param.name == "mqtt.topic_prefix"
    then with_string param.value (λ v. ok (record p { topic_prefix = v }))
    else if param.name == "mqtt.topic_mapping_mode"
    then with_string param.value (λ v.
      choose "invalid mqtt.topic_mapping_mode" (parse_mapping_mode v)
        (λ mode. record p { topic_mapping_mode = mode }))
    else if param.name == "mqtt.fixed_topic"
    then with_string param.value (λ v. ok (record p { fixed_topic = v }))
    else if param.name == "mqtt.payload_format"
    then with_string param.value (λ v.
      choose "invalid mqtt.payload_format" (parse_payload_format v)
        (λ format. record p { payload_format = format }))
    else if param.name == "mqtt.use_tls"
    then with_bool param.value (λ v. ok (record p { use_tls = v }))
    else if param.name == "mqtt.ca_cert_path"
    then with_string param.value (λ v. ok (record p { ca_cert_path = v }))
    else if param.name == "mqtt.lwt_topic"
    then with_string param.value (λ v. ok (record p { lwt_topic = v }))
    else if param.name == "mqtt.lwt_payload"
    then with_string param.value (λ v. ok (record p { lwt_payload = v }))
    else if param.name == "mqtt.lwt_qos"
    then with_int param.value (λ v. ok (record p { lwt_qos = v }))
    else if param.name == "mqtt.lwt_retain"
    then with_bool param.value (λ v. ok (record p { lwt_retain = v }))
    else if param.name == "mqtt.message_key"
    then with_string param.value (λ v. ok (record p { message_key = v }))
    else ok p

unfoldable pub read_metrics : Parameter → Pending → Outcome Pending
unfolding with_string with_bool with_int
read_metrics param p =
    if param.name == "metrics.enabled"
    then with_bool param.value (λ v. ok (record p { metrics_enabled = v }))
    else if param.name == "metrics.interval_ms"
    then with_int param.value (λ v. ok (record p { metrics_interval_ms = v }))
    else if param.name == "metrics.topic"
    then with_string param.value (λ v. ok (record p { metrics_topic = v }))
    else ok p

abbrev with_mqtt : Outcome MqttParameters → Pending → Outcome Pending
with_mqtt (ok m) p = ok (record p { mqtt = m })
with_mqtt (fail e) p = fail e
with_mqtt (thrown e) p = thrown e

-- One turn of the loop. `active` is whether the lifecycle state is PRIMARY_STATE_ACTIVE.
unfoldable pub read_parameter : Bool → Parameter → Pending → Outcome Pending
unfolding has_prefix with_string with_int read_mqtt read_metrics
read_parameter active param p =
    if param.name == "subscriptions_yaml"
    then (if active
        then fail "deactivate first"
        else with_string param.value (λ v. ok (record p { yaml_text = some v })))
    else if param.name == "qos_depth"
    then with_int param.value (λ v. ok (record p { depth = v }))
    else if has_prefix "mqtt." param.name
    then (if active
        then fail "deactivate first"
        else with_mqtt (read_mqtt param p.mqtt) (record p { mqtt_update_required = true }))
    else if has_prefix "metrics." param.name
    then (if active
        then fail "deactivate first"
        else read_metrics param (record p { metrics_update_required = true }))
    else ok p

unfoldable pub read_parameters : Bool → List Parameter → Pending → Outcome Pending
read_parameters active [] p = ok p
read_parameters active (param ∷ ps) p = elim (read_parameter active param p) [
  | ok p' ↦ read_parameters active ps p'
  | fail e ↦ fail e
  | thrown e ↦ thrown e
]

-- What follows a part that is taken over; a part that is refused ends the call.
abbrev pub and_then :
    Option String × MosquittoSink
    → (MosquittoSink → Option String × MosquittoSink)
    → Option String × MosquittoSink
and_then (none, s) f = f s
and_then (some e, s) f = (some e, s)

abbrev pub reply : Option String × MosquittoSink → Outcome ParameterResult × MosquittoSink
reply (none, s) = (ok (record { successful = true; reason = "accepted" }), s)
reply (some e, s) = (ok (record { successful = false; reason = e }), s)

-- if (mqtt_update_required)
unfoldable pub take_mqtt_part : Pending → MosquittoSink → Option String × MosquittoSink
unfolding take_mqtt
take_mqtt_part p s = if p.mqtt_update_required then take_mqtt p.mqtt s else (none, s)

unfoldable pub take_depth : ℤ → MosquittoSink → Option String × MosquittoSink
unfolding validate_qos_depth
take_depth depth s = elim (validate_qos_depth depth) [
  | some e ↦ (some e, s)
  | none ↦ (none, record s { qos_depth = depth })
]

unfoldable pub take_metrics : Pending → MosquittoSink → Option String × MosquittoSink
take_metrics p s =
    if p.metrics_update_required
    then (
      none,
      record s {
        metrics_enabled = p.metrics_enabled;
        metrics_interval_ms = p.metrics_interval_ms;
        metrics_topic = p.metrics_topic;
      },
    )
    else (none, s)

module _ (yaml : YamlCpp) (load : String → Option Yaml) where
  unfoldable pub take_subscriptions : Option String → MosquittoSink → Option String × MosquittoSink
  take_subscriptions none s = (none, s)
  take_subscriptions (some text) s = elim (parse_subscriptions_yaml yaml load text) [
    | ok configs ↦ (none, record s { configured_subscriptions = configs })
    | fail e ↦ (some e, s)
    | thrown e ↦ (some e, s)
  ]

  unfoldable pub take_pending : Pending → MosquittoSink → Option String × MosquittoSink
  unfolding take_subscriptions take_depth take_mqtt_part take_metrics
  take_pending p s = and_then (take_subscriptions p.yaml_text s) λ s1.
      and_then (take_depth p.depth s1) λ s2. and_then (take_mqtt_part p s2) λ s3. take_metrics p s3

  -- A parameter of another type throws.
  unfoldable pub on_parameters_set :
      Bool → List Parameter → MosquittoSink → Outcome ParameterResult × MosquittoSink
  unfolding read_parameters pending_of take_pending
  on_parameters_set active parameters s = elim (read_parameters active parameters (pending_of s)) [
    | ok p ↦ reply (take_pending p s)
    | fail e ↦ reply (some e, s)
    | thrown e ↦ (thrown e, s)
  ]
