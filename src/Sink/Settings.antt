-- ===== src/Sink/Settings.antt =====
-- kafka_sink_node.cpp: the settings of kafka_sink: their checks, how on_configure reads them from
-- the node's parameters, and what the producer is given of them.
use ros2_dispatcher.Prelude.{
  ℕ, ◌-◌, ◌%◌, ◌^◌, String, Bool, true, false, ◌&&◌, Option, none, some, ◌==◌, is_empty, ltb,
  nat_eq, if◌then◌else◌, ℤ, pos, negsuc,
}
use ros2_dispatcher.Producer.Types.{KafkaProducerConfig, strict, tolerant}
use ros2_dispatcher.Controller.World.{Yaml, ok, fail, thrown}
use ros2_dispatcher.Controller.LoadFile.{YamlCpp}
use ros2_dispatcher.Sink.Types.{
  KafkaParameters, TopicMappingMode, prefix_ros_topic, fixed, PayloadFormat, cdr, json, Sink,
}
use ros2_dispatcher.Sink.Subscriptions.{parse_subscriptions_yaml}

-- An int64_t, given by its bits, that is assigned to an int.
unfoldable pub to_int : ℕ → ℤ
to_int bits =
    let low = bits % 2 ^ 32 in if ltb low (2 ^ 31) then pos low else negsuc (2 ^ 32 - 1 - low)

abbrev pub is_positive : ℤ → Bool
is_positive (pos n) = ltb 0 n
is_positive (negsuc n) = false

-- value > 0 ? static_cast<std::size_t>(value) : 0U
unfoldable pub positive_or_zero : ℤ → ℕ
positive_or_zero (pos n) = n
positive_or_zero (negsuc n) = 0

-- value >= 0 ? std::optional<int>{value} : std::nullopt
unfoldable pub non_negative : ℤ → Option ℤ
non_negative (pos n) = some (pos n)
non_negative (negsuc n) = none

unfoldable pub parse_mapping_mode : String → Option TopicMappingMode
parse_mapping_mode s =
    if s == "prefix_ros_topic"
    then some prefix_ros_topic
    else if s == "fixed"
    then some fixed
    else none

unfoldable pub parse_payload_format : String → Option PayloadFormat
parse_payload_format s = if s == "cdr" then some cdr else if s == "json" then some json else none

-- The checks give the error message, or none.
unfoldable pub validate_qos_depth : ℤ → Option String
validate_qos_depth depth =
    if is_positive depth then none else some "qos_depth must be greater than zero."

abbrev pub is_fixed : TopicMappingMode → Bool
is_fixed prefix_ros_topic = false
is_fixed fixed = true

unfoldable pub validate_kafka_parameters : KafkaParameters → Option String
validate_kafka_parameters p =
    if is_empty p.bootstrap_servers
    then some "kafka.bootstrap_servers cannot be empty."
    else if is_empty p.client_id
    then some "kafka.client_id cannot be empty."
    else if is_empty p.acks
    then some "kafka.acks cannot be empty."
    else if is_empty p.message_key
    then some "kafka.message_key cannot be empty."
    else if nat_eq p.max_queue_messages 0
    then some "kafka.max_queue_messages must be greater than zero."
    else if is_fixed p.topic_mapping_mode && is_empty p.fixed_topic
    then some "kafka.fixed_topic cannot be empty when mapping mode is 'fixed'."
    else none

-- The values that get_parameter gives, under the names of the parameters; numbers by their bits.
pub record NodeParameters : Type 0 where
  pub subscriptions_yaml : String
  pub qos_depth : ℕ
  pub metrics_enabled : Bool
  pub metrics_interval_ms : ℕ
  pub metrics_topic : String
  pub telemetry_enabled : Bool
  pub telemetry_log_every_n : ℕ
  pub bootstrap_servers : String
  pub client_id : String
  pub acks : String
  pub topic_prefix : String
  pub message_key : String
  pub topic_mapping_mode : String
  pub fixed_topic : String
  pub strict_startup : Bool
  pub max_queue_messages : ℕ
  pub drop_when_full : Bool
  pub linger_ms : ℕ
  pub batch_size : ℕ
  pub payload_format : String

unfoldable pub pending_kafka : NodeParameters → TopicMappingMode → PayloadFormat → KafkaParameters
unfolding to_int positive_or_zero non_negative
pending_kafka d mode format = record {
  bootstrap_servers = d.bootstrap_servers;
  client_id = d.client_id;
  acks = d.acks;
  topic_prefix = d.topic_prefix;
  message_key = d.message_key;
  topic_mapping_mode = mode;
  fixed_topic = d.fixed_topic;
  strict_startup = d.strict_startup;
  max_queue_messages = positive_or_zero (to_int d.max_queue_messages);
  drop_when_full = d.drop_when_full;
  linger_ms = non_negative (to_int d.linger_ms);
  batch_size = non_negative (to_int d.batch_size);
  payload_format = format;
}

unfoldable pub take_kafka : KafkaParameters → Sink → Option String × Sink
unfolding validate_kafka_parameters
take_kafka pending s = elim (validate_kafka_parameters pending) [
  | some e ↦ (some e, s)
  | none ↦ (none, record s { kafka_parameters = pending })
]

unfoldable pub configure_kafka_parameters : NodeParameters → Sink → Option String × Sink
unfolding parse_mapping_mode parse_payload_format take_kafka pending_kafka
configure_kafka_parameters d s = elim (parse_mapping_mode d.topic_mapping_mode) [
  | none ↦ (some "Invalid kafka.topic_mapping_mode value.", s)
  | some mode ↦ elim (parse_payload_format d.payload_format) [
    | none ↦ (some "Invalid kafka.payload_format value.", s)
    | some format ↦ take_kafka (pending_kafka d mode format) s
  ]
]

module _ (yaml : YamlCpp) (load : String → Option Yaml) where
  unfoldable pub configure_subscriptions : NodeParameters → Sink → Option String × Sink
  unfolding configure_kafka_parameters
  configure_subscriptions d s = elim (parse_subscriptions_yaml yaml load d.subscriptions_yaml) [
    | fail e ↦ (some e, s)
    | thrown e ↦ (some e, s)
    | ok configs ↦ configure_kafka_parameters d (record s { configured_subscriptions = configs })
  ]

  unfoldable pub configure_from_parameters : NodeParameters → Sink → Option String × Sink
  unfolding configure_subscriptions validate_qos_depth to_int
  configure_from_parameters d s =
      let s' : Sink = record s {
        qos_depth = to_int d.qos_depth;
        metrics_enabled = d.metrics_enabled;
        metrics_interval_ms = to_int d.metrics_interval_ms;
        metrics_topic = d.metrics_topic;
        telemetry_enabled = d.telemetry_enabled;
        telemetry_log_every_n = to_int d.telemetry_log_every_n;
      } in
      elim (validate_qos_depth s'.qos_depth) [
        | some e ↦ (some e, s')
        | none ↦
            if is_positive s'.telemetry_log_every_n
            then configure_subscriptions d s'
            else (some "telemetry.log_every_n must be >= 1.", s')
      ]

unfoldable pub build_producer_config : KafkaParameters → KafkaProducerConfig
build_producer_config p = record {
  bootstrap_servers = p.bootstrap_servers;
  client_id = p.client_id;
  acks = p.acks;
  linger_ms = p.linger_ms;
  batch_size = p.batch_size;
  queue_buffering_max_kbytes = none;
  max_in_flight = none;
  retries = none;
  retry_backoff_ms = none;
  enable_idempotence = false;
  max_queue_messages = p.max_queue_messages;
  drop_when_full = p.drop_when_full;
  startup_mode = if p.strict_startup then strict else tolerant;
  poll_timeout_ms = 100;
  reconnect_backoff_ms = 1000;
  flush_timeout_ms = 3000;
}
