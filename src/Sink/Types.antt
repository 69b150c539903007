-- ===== src/Sink/Types.antt =====
-- kafka_sink/kafka_sink_node.hpp: the types of kafka_sink and the members of its class.
use ros2_dispatcher.Prelude.{ℕ, String, Bool, Option, List, ℤ}
use ros2_dispatcher.Producer.Types.{KafkaProducerConfig, State}
use ros2_dispatcher.Sink.Message.{TypeSupport}

pub record SubscriptionConfig : Type 0 where
  pub topic_name : String
  pub msg_type : String
  pub kafka_name : Option String
  pub kafka_key : Option String

pub data TopicMappingMode : Type 0 where
  prefix_ros_topic fixed : TopicMappingMode

pub data PayloadFormat : Type 0 where
  cdr json : PayloadFormat

pub record KafkaParameters : Type 0 where
  pub bootstrap_servers : String
  pub client_id : String
  pub acks : String
  pub topic_prefix : String
  pub message_key : String
  pub topic_mapping_mode : TopicMappingMode
  pub fixed_topic : String
  pub strict_startup : Bool
  pub max_queue_messages : ℕ
  pub drop_when_full : Bool
  pub linger_ms : Option ℤ
  pub batch_size : Option ℤ
  pub payload_format : PayloadFormat

-- The atomic counters hold 64 bits; a time is in nanoseconds.
pub record SubscriptionRuntime : Type 0 where
  pub log_label : String
  pub ros_topic : String
  pub msg_type : String
  pub kafka_topic : String
  pub message_key_bytes : List ℕ
  pub payload_format : PayloadFormat
  pub type_support : TypeSupport
  pub next_log_time_ns : ℕ
  pub sent_ok : ℕ
  pub dropped : ℕ
  pub errors : ℕ
  pub msgs_total : ℕ
  pub bytes_total : ℕ
  pub serialize_time_ns_accum : ℕ
  pub send_time_ns_accum : ℕ
  pub serialize_time_ns_max : ℕ
  pub send_time_ns_max : ℕ
  pub msg_size_min : ℕ
  pub msg_size_max : ℕ
  pub msg_seq : ℕ
  pub serialize_samples : List ℕ
  pub send_samples : List ℕ
  pub prev_msgs_total : ℕ
  pub prev_sent_ok : ℕ
  pub prev_dropped : ℕ
  pub prev_errors : ℕ
  pub prev_bytes_total : ℕ
  pub prev_serialize_time_ns_accum : ℕ
  pub prev_send_time_ns_accum : ℕ

pub record ActiveSubscription : Type 0 where
  pub topic_name : String
  pub msg_type : String
  pub runtime_state : SubscriptionRuntime

-- The object that kafka_producer_ points to: its config_ and its other members.
pub record ProducerObject : Type 0 where
  pub config : KafkaProducerConfig
  pub state : State

-- `retired` are the producers that the pointer has held and no longer holds, the newest first; the
-- class does not keep them.
pub record Sink : Type 0 where
  pub configured_subscriptions : List SubscriptionConfig
  pub active_subscriptions : List ActiveSubscription
  pub kafka_parameters : KafkaParameters
  pub kafka_producer : Option ProducerObject
  pub retired : List ProducerObject
  pub is_active : Bool
  pub qos_depth : ℤ
  pub metrics_enabled : Bool
  pub metrics_interval_ms : ℤ
  pub metrics_topic : String
  pub metrics_pub : Bool
  pub metrics_timer : Bool
  pub telemetry_enabled : Bool
  pub telemetry_log_every_n : ℤ
