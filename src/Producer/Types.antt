-- ===== src/Producer/Types.antt =====
-- kafka_client/kafka_producer.hpp: the types of the producer, its state, and what librdkafka
-- is to it. librdkafka is not in the repository: `Librdkafka` holds its answers.
use ros2_dispatcher.Prelude.{ℕ, String, Bool, Option, List, ◌^◌, ℤ}

pub record KafkaHeader : Type 0 where
  pub key : String
  pub value : String

pub data StartupMode : Type 0 where
  strict tolerant : StartupMode

pub data ProducerStatus : Type 0 where
  stopped starting running degraded failed : ProducerStatus

pub data SendStatus : Type 0 where
  sent queue_full producer_unavailable error : SendStatus

pub record KafkaProducerConfig : Type 0 where
  pub bootstrap_servers : String
  pub client_id : String
  pub acks : String
  pub linger_ms : Option ℤ
  pub batch_size : Option ℤ
  pub queue_buffering_max_kbytes : Option ℤ
  pub max_in_flight : Option ℤ
  pub retries : Option ℤ
  pub retry_backoff_ms : Option ℤ
  pub enable_idempotence : Bool
  pub max_queue_messages : ℕ
  pub drop_when_full : Bool
  pub startup_mode : StartupMode
  pub poll_timeout_ms : ℕ
  pub reconnect_backoff_ms : ℕ
  pub flush_timeout_ms : ℕ

pub record KafkaSendResult : Type 0 where
  pub status : SendStatus
  pub error_message : String
  pub buffered : Bool

pub record ProducerHealth : Type 0 where
  pub status : ProducerStatus
  pub last_error : String
  pub sent_ok : ℕ
  pub dropped_queue_full : ℕ
  pub send_errors : ℕ

-- Keys and values are bytes.
pub record QueuedRecord : Type 0 where
  pub topic : String
  pub key : List ℕ
  pub value : List ℕ
  pub timestamp_ms : ℤ
  pub headers : List KafkaHeader

-- RdKafka::ErrorCode: the two codes that the class tests for, and the rest.
pub data ErrorCode : Type 0 where
  no_error : ErrorCode
  err_queue_full : ErrorCode
  other_error : ℕ → ErrorCode

-- The calls of produce() so far, the newest first, each with its answer.
abbrev pub Handed : Type 0
Handed = List (QueuedRecord × ErrorCode)

-- The answers of librdkafka: to Conf::set (an error text, or none for CONF_OK), to the n-th
-- Producer::create, to produce() after the calls so far, and the text of a code.
pub record Librdkafka : Type 0 where
  pub conf_set : String → String → Option String
  pub create : ℕ → Option String
  pub produce : Handed → QueuedRecord → ErrorCode
  pub err2str : ErrorCode → String

-- The members that change. `producer` says whether the pointer is set; `handed` and `creations`
-- are what librdkafka has been asked so far.
pub record State : Type 0 where
  pub producer : Bool
  pub pending_records : List QueuedRecord
  pub is_running : Bool
  pub sent_ok : ℕ
  pub dropped_queue_full : ℕ
  pub send_errors : ℕ
  pub status : ProducerStatus
  pub last_error : String
  pub handed : Handed
  pub creations : ℕ

-- std::atomic<uint64_t>
abbrev pub u64_mod : ℕ
u64_mod = 2 ^ 64
