-- ===== src/Source/Types.antt =====
-- kafka_source/kafka_source_node.hpp: the structs and the members of KafkaSourceNode.
use ros2_dispatcher.Prelude.{ℕ, String, Bool, Option, List, ℤ}

pub record KafkaParameters : Type 0 where
  pub bootstrap_servers : String
  pub group_id : String
  pub topic_pattern : String
  pub offset_reset : String

-- The atomic counters hold 64 bits; a time is in nanoseconds.
pub record TopicMetrics : Type 0 where
  pub ros_topic : String
  pub ros_type : String
  pub received : ℕ
  pub decoded : ℕ
  pub failed : ℕ
  pub bytes : ℕ
  pub latency_ns_accum : ℕ
  pub latency_ns_max : ℕ
  pub latency_samples : List ℕ
  pub prev_received : ℕ
  pub prev_decoded : ℕ
  pub prev_failed : ℕ
  pub prev_bytes : ℕ

-- A message of librdkafka: the values of its headers ros_type, none without headers; its timestamp in
-- milliseconds, none where it is not available; and what the system's clock and the node's clock
-- read when it is processed. A payload that is null has no bytes.
pub record Message : Type 0 where
  pub topic_name : String
  pub payload : List ℕ
  pub ros_types : Option (List String)
  pub timestamp : Option ℤ
  pub system_ns : ℕ
  pub clock_ns : ℕ

-- What process_message holds of a message whose entry has counted it: the entry's key, the topic and
-- the type that the message is published under, and the message.
pub record Received : Type 0 where
  pub key : String
  pub ros_topic : String
  pub ros_type : String
  pub message : Message

-- Maps are lists of entries, in the order in which the keys came. A type in `type_support_cache` has
-- both handles; a publisher is true where it is not null. `has_consumer` and `has_thread` say whether
-- consumer_ and consumer_thread_ are set. `attempts` counts the calls of start_consumer, and
-- `published` holds the publishers' keys and what they
-- published, the newest first; the class keeps neither.
pub record Source : Type 0 where
  pub kafka_parameters : KafkaParameters
  pub ros_topic_prefix : String
  pub qos_depth : ℤ
  pub metrics_enabled : Bool
  pub metrics_interval_ms : ℤ
  pub metrics_topic : String
  pub topic_mappings : List (String × String)
  pub has_consumer : Bool
  pub has_thread : Bool
  pub is_running : Bool
  pub is_active : Bool
  pub type_support_cache : List String
  pub publishers : List (String × Bool)
  pub metrics : List (String × TopicMetrics)
  pub next_error_log_time_ns : ℕ
  pub metrics_pub : Bool
  pub metrics_timer : Bool
  pub attempts : ℕ
  pub published : List (String × List ℕ)
