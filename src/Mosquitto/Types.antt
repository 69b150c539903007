-- ===== src/Mosquitto/Types.antt =====
-- mosquitto_sink/mosquitto_sink_node.hpp: the types of mosquitto_sink and the members of its class.
use ros2_dispatcher.Prelude.{ℕ, String, Bool, Option, List, ℤ}
use ros2_dispatcher.Sink.Message.{TypeSupport}
use ros2_dispatcher.Sink.Types.{TopicMappingMode, PayloadFormat}
use ros2_dispatcher.Mosquitto.Client.{MqttClient}

pub record SubscriptionConfig : Type 0 where
  pub topic_name : String
  pub msg_type : String
  pub mqtt_name : Option String

pub record MqttParameters : Type 0 where
  pub broker_host : String
  pub broker_port : ℤ
  pub client_id : String
  pub username : String
  pub password : String
  pub qos : ℤ
  pub retain : Bool
  pub keep_alive_seconds : ℤ
  pub topic_prefix : String
  pub topic_mapping_mode : TopicMappingMode
  pub fixed_topic : String
  pub payload_format : PayloadFormat
  pub use_tls : Bool
  pub ca_cert_path : String
  pub lwt_topic : String
  pub lwt_payload : String
  pub lwt_qos : ℤ
  pub lwt_retain : Bool
  pub message_key : String

-- The atomic counters hold 64 bits; a time is in nanoseconds.
pub record SubscriptionRuntime : Type 0 where
  pub log_label : String
  pub ros_topic : String
  pub msg_type : String
  pub mqtt_topic : String
  pub message_key : String
  pub payload_format : PayloadFormat
  pub type_support : TypeSupport
  pub next_log_time_ns : ℕ
  pub sent_ok : ℕ
  pub dropped : ℕ
  pub errors : ℕ
  pub msgs_total : ℕ
  pub bytes_total : ℕ
  pub serialize_time_ns_accum : ℕ
  pub send_time_ns_accum : ℕ
  pub serialize_time_ns_max : ℕ
  pub send_time_ns_max : ℕ
  pub msg_size_min : ℕ
  pub msg_size_max : ℕ
  pub serialize_samples : List ℕ
  pub send_samples : List ℕ
  pub prev_msgs_total : ℕ
  pub prev_sent_ok : ℕ
  pub prev_dropped : ℕ
  pub prev_errors : ℕ
  pub prev_bytes_total : ℕ
  pub prev_serialize_time_ns_accum : ℕ
  pub prev_send_time_ns_accum : ℕ

pub record ActiveSubscription : Type 0 where
  pub topic_name : String
  pub msg_type : String
  pub runtime_state : SubscriptionRuntime

-- `mqtt_runtime` holds the client of mqtt_runtime_; `retired` are the clients that stop_client has
-- let go, the newest first, which the class does not keep.
pub record MosquittoSink : Type 0 where
  pub configured_subscriptions : List SubscriptionConfig
  pub active_subscriptions : List ActiveSubscription
  pub mqtt_parameters : MqttParameters
  pub mqtt_runtime : Option MqttClient
  pub retired : List MqttClient
  pub is_active : Bool
  pub qos_depth : ℤ
  pub metrics_enabled : Bool
  pub metrics_interval_ms : ℤ
  pub metrics_topic : String
  pub metrics_pub : Bool
  pub metrics_timer : Bool
