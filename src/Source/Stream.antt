-- ===== src/Source/Stream.antt =====
-- kafka_source_node.cpp: process_message, and a turn of poll_loop. The timer's thread may report the
-- metrics while process_message works on a message, so the function is in two parts: up to the
-- counters of what is received (receive_message), and from there on (process_message).
use ros2_dispatcher.Prelude.{
  ℕ, ◌+◌, ◌-◌, ◌*◌, String, Bool, true, false, not, Option, none, some, List, [], ◌∷◌, ◌⊕◌,
  is_empty, leb, ltb, ◌==◌, length, contains, if◌then◌else◌, ℤ, pos, negsuc,
}
use ros2_dispatcher.OrderedMap.{find}
use ros2_dispatcher.Controller.World.{Outcome, ok, fail, thrown}
use ros2_dispatcher.Sink.Stream.{count, larger, push_sample}
use ros2_dispatcher.Source.Topics.{put, derive_ros_topic}
use ros2_dispatcher.Source.Types.{TopicMetrics, Message, Received, Source}

-- What create_generic_publisher does: a publisher, a null pointer or an exception.
pub data Publisher : Type 0 where
  publisher_made publisher_null : Publisher
  publisher_throws : String → Publisher

-- rosbag2_cpp: none where both type supports of a type are found, and rclcpp's publishers.
pub record Ros : Type 0 where
  pub type_support_error : String → Option String
  pub create_publisher : String → String → Publisher

-- What consume gives: no message, one that is only an error, or a message.
pub data Consumed : Type 0 where
  nothing timed_out partition_eof : Consumed
  consume_error : (clock_ns : ℕ) → Consumed
  consumed : Message → Consumed

unfoldable pub new_metrics : String → String → TopicMetrics
new_metrics topic type = record {
  ros_topic = topic;
  ros_type = type;
  received = 0;
  decoded = 0;
  failed = 0;
  bytes = 0;
  latency_ns_accum = 0;
  latency_ns_max = 0;
  latency_samples = [];
  prev_received = 0;
  prev_decoded = 0;
  prev_failed = 0;
  prev_bytes = 0;
}

-- should_log_throttled, for next_error_log_time_ns_.
unfoldable pub should_log_throttled : ℕ → Source → Bool × Source
should_log_throttled now_ns s =
    if leb s.next_error_log_time_ns now_ns
    then (true, record s { next_error_log_time_ns = now_ns + 1000000000 })
    else (false, s)

-- topic_mappings_, or else derive_ros_topic.
unfoldable pub ros_topic_of : String → Source → String
unfolding derive_ros_topic
ros_topic_of kafka_topic s = elim (find kafka_topic s.topic_mappings) [
  | some mapped ↦ mapped
  | none ↦ derive_ros_topic s.ros_topic_prefix kafka_topic
]

-- The first value of the header, or the empty text.
unfoldable pub ros_type_of : Option (List String) → String
ros_type_of none = ""
ros_type_of (some []) = ""
ros_type_of (some (type ∷ rest)) = type

unfoldable pub note_latency : ℕ → TopicMetrics → TopicMetrics
unfolding push_sample
note_latency latency t = record t {
  latency_ns_accum = count t.latency_ns_accum latency;
  latency_ns_max = larger t.latency_ns_max latency;
  latency_samples = push_sample latency t.latency_samples;
}

-- A timestamp that is available and not negative, and before the time of the system's clock.
unfoldable pub note_timestamp : Option ℤ → ℕ → TopicMetrics → TopicMetrics
unfolding note_latency
note_timestamp (some (pos ms)) system_ns t =
    if ltb (ms * 1000000) system_ns then note_latency (system_ns - ms * 1000000) t else t
note_timestamp (some (negsuc n)) system_ns t = t
note_timestamp none system_ns t = t

unfoldable pub note_received : Message → TopicMetrics → TopicMetrics
unfolding note_timestamp
note_received m t =
    note_timestamp m.timestamp m.system_ns
      (record t { received = count t.received 1; bytes = count t.bytes (length m.payload) })

unfoldable pub note_decoded : TopicMetrics → TopicMetrics
note_decoded t = record t { decoded = count t.decoded 1 }

unfoldable pub note_failed : TopicMetrics → TopicMetrics
note_failed t = record t { failed = count t.failed 1 }

-- The entry under the key, or a new one: metrics_.find, and emplace where there is none.
unfoldable pub ensure_entry :
    String → String → String → List (String × TopicMetrics) → List (String × TopicMetrics)
unfolding new_metrics
ensure_entry key topic type m = elim (find key m) [
  | some t ↦ m
  | none ↦ put key (new_metrics topic type) m
]

-- The entry under the key is changed where it stands, as through the pointer that process_message
-- keeps to it.
unfoldable pub update_entry :
    String
    → (TopicMetrics → TopicMetrics)
    → List (String × TopicMetrics)
    → List (String × TopicMetrics)
update_entry key f [] = []
update_entry key f ((k, t) ∷ m) = if k == key then (k, f t) ∷ m else (k, t) ∷ update_entry key f m

-- A message in error: its entry, and the log.
unfoldable pub reject : Received → Source → Source
unfolding update_entry note_failed should_log_throttled
reject r s =
    (should_log_throttled r.message.clock_ns
      (record s { metrics = update_entry r.key note_failed s.metrics })).1

-- From the publisher on.
unfoldable pub publish_payload : Received → Outcome Bool × Source → Outcome Bool × Source
unfolding reject update_entry note_decoded
publish_payload r (ok false, s) = (ok true, reject r s)
publish_payload r (ok true, s) = (
  ok true,
  record s {
    metrics = update_entry r.key note_decoded s.metrics;
    published = (r.key, r.message.payload) ∷ s.published;
  },
)
publish_payload r (fail e, s) = (fail e, s)
publish_payload r (thrown e, s) = (thrown e, s)

-- From the topic to the counters of what is received, for a type that is not empty.
unfoldable pub receive_typed : String → Message → Source → Option Received × Source
unfolding ros_topic_of ensure_entry update_entry note_received
receive_typed type m s =
    let topic = ros_topic_of m.topic_name s in
    let key = topic ⊕ "|" ⊕ type in
    (
      some (record { key = key; ros_topic = topic; ros_type = type; message = m }),
      record s {
        metrics = update_entry key (note_received m) (ensure_entry key topic type s.metrics);
      },
    )

-- process_message up to the counters of what is received: none where it returns before them.
unfoldable pub receive_message : Message → Source → Option Received × Source
unfolding ros_type_of receive_typed should_log_throttled
receive_message m s =
    let type = ros_type_of m.ros_types in
    let payload_size = length m.payload in
    if leb payload_size 0
    then (none, s)
    else if is_empty type
    then (none, (should_log_throttled m.clock_ns s).1)
    else receive_typed type m s

-- One turn of poll_loop, where running_ is set, up to there: what consume gives.
unfoldable pub poll_once : Consumed → Source → Option Received × Source
unfolding receive_message should_log_throttled
poll_once c s = if not s.has_consumer then (none, s) else elim c [
  | nothing ↦ (none, s)
  | timed_out ↦ (none, s)
  | partition_eof ↦ (none, s)
  | consume_error clock_ns ↦ (none, (should_log_throttled clock_ns s).1)
  | consumed m ↦ receive_message m s
]

module _ (ros : Ros) where
  -- The error message, or none.
  unfoldable pub ensure_type_support : String → Source → Option String × Source
  ensure_type_support type s =
      if contains type s.type_support_cache then (none, s) else elim (ros.type_support_error type) [
        | some e ↦ (some e, s)
        | none ↦ (none, record s { type_support_cache = type ∷ s.type_support_cache })
      ]

  -- Whether the publisher is not null.
  unfoldable pub get_or_create_publisher : String → String → Source → Outcome Bool × Source
  get_or_create_publisher topic type s =
      let key = topic ⊕ "|" ⊕ type in
      elim (find key s.publishers) [
        | some made ↦ (ok made, s)
        | none ↦ elim (ros.create_publisher topic type) [
          | publisher_made ↦ (ok true, record s { publishers = put key true s.publishers })
          | publisher_null ↦ (ok false, record s { publishers = put key false s.publishers })
          | publisher_throws e ↦ (thrown e, s)
        ]
      ]

  -- What follows ensure_type_support.
  unfoldable pub decode : Received → Option String × Source → Outcome Bool × Source
  unfolding reject get_or_create_publisher publish_payload
  decode r (some e, s) = (ok true, reject r s)
  decode r (none, s) = publish_payload r (get_or_create_publisher r.ros_topic r.ros_type s)

  -- The rest of process_message: the message is decoded or in error. An exception leaves the
  -- function, or else the result is true.
  unfoldable pub process_message : Received → Source → Outcome Bool × Source
  unfolding ensure_type_support decode
  process_message r s = decode r (ensure_type_support r.ros_type s)
