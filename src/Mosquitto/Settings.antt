-- ===== src/Mosquitto/Settings.antt =====
-- mosquitto_sink_node.cpp: the settings of mosquitto_sink: their checks, how on_configure reads them
-- from the node's parameters, and what start_client makes of them.
use ros2_dispatcher.Prelude.{
  ℕ, String, Bool, true, false, not, ◌&&◌, Option, none, some, List, ◌⊕◌, is_empty, leb,
  if◌then◌else◌, ℤ, pos, negsuc,
}
use ros2_dispatcher.Controller.World.{Yaml, Outcome, ok, fail, thrown}
use ros2_dispatcher.Controller.LoadFile.{YamlCpp}
use ros2_dispatcher.Producer.Config.{to_string_int}
use ros2_dispatcher.Sink.Types.{TopicMappingMode, PayloadFormat}
use ros2_dispatcher.Sink.Settings.{
  to_int, is_positive, parse_mapping_mode, parse_payload_format, validate_qos_depth, is_fixed,
}
use ros2_dispatcher.Mosquitto.Client.{ConnectOptions}
use ros2_dispatcher.Mosquitto.Subscriptions.{parse_subscriptions_yaml}
use ros2_dispatcher.Mosquitto.Types.{MqttParameters, SubscriptionConfig, MosquittoSink}

-- Not (qos < 0 || qos > 2).
abbrev pub is_qos : ℤ → Bool
is_qos (pos n) = leb n 2
is_qos (negsuc n) = false

-- The error message, or none.
unfoldable pub validate_mqtt_parameters : MqttParameters → Option String
validate_mqtt_parameters p =
    if is_empty p.broker_host
    then some "mqtt.broker_host cannot be empty."
    else if not (is_positive p.broker_port)
    then some "mqtt.broker_port must be greater than zero."
    else if is_empty p.client_id
    then some "mqtt.client_id cannot be empty."
    else if not (is_qos p.qos)
    then some "mqtt.qos must be 0, 1, or 2."
    else if not (is_positive p.keep_alive_seconds)
    then some "mqtt.keep_alive_seconds must be greater than zero."
    else if is_fixed p.topic_mapping_mode && is_empty p.fixed_topic
    then some "mqtt.fixed_topic cannot be empty when mapping mode is 'fixed'."
    else if not (is_qos p.lwt_qos)
    then some "mqtt.lwt_qos must be 0, 1, or 2."
    else none

-- The values that get_parameter gives, under the names of the parameters; numbers by their bits.
pub record NodeParameters : Type 0 where
  pub subscriptions_yaml : String
  pub qos_depth : ℕ
  pub metrics_enabled : Bool
  pub metrics_interval_ms : ℕ
  pub metrics_topic : String
  pub broker_host : String
  pub broker_port : ℕ
  pub client_id : String
  pub username : String
  pub password : String
  pub qos : ℕ
  pub retain : Bool
  pub keep_alive_seconds : ℕ
  pub topic_prefix : String
  pub topic_mapping_mode : String
  pub fixed_topic : String
  pub payload_format : String
  pub use_tls : Bool
  pub ca_cert_path : String
  pub lwt_topic : String
  pub lwt_payload : String
  pub lwt_qos : ℕ
  pub lwt_retain : Bool
  pub message_key : String

unfoldable pub pending_mqtt : NodeParameters → TopicMappingMode → PayloadFormat → MqttParameters
unfolding to_int
pending_mqtt d mode format = record {
  broker_host = d.broker_host;
  broker_port = to_int d.broker_port;
  client_id = d.client_id;
  username = d.username;
  password = d.password;
  qos = to_int d.qos;
  retain = d.retain;
  keep_alive_seconds = to_int d.keep_alive_seconds;
  topic_prefix = d.topic_prefix;
  topic_mapping_mode = mode;
  fixed_topic = d.fixed_topic;
  payload_format = format;
  use_tls = d.use_tls;
  ca_cert_path = d.ca_cert_path;
  lwt_topic = d.lwt_topic;
  lwt_payload = d.lwt_payload;
  lwt_qos = to_int d.lwt_qos;
  lwt_retain = d.lwt_retain;
  message_key = d.message_key;
}

unfoldable pub take_mqtt : MqttParameters → MosquittoSink → Option String × MosquittoSink
unfolding validate_mqtt_parameters
take_mqtt pending s = elim (validate_mqtt_parameters pending) [
  | some e ↦ (some e, s)
  | none ↦ (none, record s { mqtt_parameters = pending })
]

-- The two modes are parsed already.
unfoldable pub take_modes :
    NodeParameters
    → Option TopicMappingMode
    → Option PayloadFormat
    → MosquittoSink
    → Option String × MosquittoSink
unfolding take_mqtt pending_mqtt
take_modes d none format s = (some "Invalid mqtt.topic_mapping_mode value.", s)
take_modes d (some mode) none s = (some "Invalid mqtt.payload_format value.", s)
take_modes d (some mode) (some format) s = take_mqtt (pending_mqtt d mode format) s

unfoldable pub configure_mqtt_parameters :
    NodeParameters → MosquittoSink → Option String × MosquittoSink
unfolding parse_mapping_mode parse_payload_format take_modes
configure_mqtt_parameters d s =
    take_modes d (parse_mapping_mode d.topic_mapping_mode) (parse_payload_format d.payload_format) s

-- From the subscriptions on, which are parsed already.
unfoldable pub take_configs :
    NodeParameters
    → Outcome (List SubscriptionConfig)
    → MosquittoSink
    → Option String × MosquittoSink
unfolding configure_mqtt_parameters
take_configs d (fail e) s = (some e, s)
take_configs d (thrown e) s = (some e, s)
take_configs d (ok configs) s =
    configure_mqtt_parameters d (record s { configured_subscriptions = configs })

module _ (yaml : YamlCpp) (load : String → Option Yaml) where
  unfoldable pub configure_from_parameters :
      NodeParameters → MosquittoSink → Option String × MosquittoSink
  unfolding take_configs validate_qos_depth to_int
  configure_from_parameters d s =
      let s' : MosquittoSink = record s {
        qos_depth = to_int d.qos_depth;
        metrics_enabled = d.metrics_enabled;
        metrics_interval_ms = to_int d.metrics_interval_ms;
        metrics_topic = d.metrics_topic;
      } in
      elim (validate_qos_depth s'.qos_depth) [
        | some e ↦ (some e, s')
        | none ↦ take_configs d (parse_subscriptions_yaml yaml load d.subscriptions_yaml) s'
      ]

unfoldable pub server_uri_of : MqttParameters → String
unfolding to_string_int
server_uri_of p =
    (if p.use_tls then "ssl" else "tcp") ⊕ "://" ⊕ p.broker_host ⊕ ":" ⊕ to_string_int p.broker_port

abbrev unless_blank : String → Option String
unless_blank s = if is_empty s then none else some s

unfoldable pub connect_options_of : MqttParameters → ConnectOptions
connect_options_of p = record {
  keep_alive_seconds = p.keep_alive_seconds;
  clean_session = true;
  automatic_reconnect = (1, 30);
  user_name = unless_blank p.username;
  password = unless_blank p.password;
  will =
      if is_empty p.lwt_topic
      then none
      else some (record {
        topic = p.lwt_topic;
        payload = p.lwt_payload;
        qos = p.lwt_qos;
        retain = p.lwt_retain;
      });
  ssl = if p.use_tls then some (unless_blank p.ca_cert_path) else none;
}
