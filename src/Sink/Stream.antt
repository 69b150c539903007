-- ===== src/Sink/Stream.antt =====
-- kafka_sink_node.cpp: what the callback of a subscription does with a message. Another node's clock
-- and the durations that are measured come with the message.
use ros2_dispatcher.Prelude.{
  ℕ, ◌+◌, ◌/◌, ◌%◌, Bool, true, false, List, [], ◌∷◌, ◌++◌, ltb, leb, length, if◌then◌else◌, pos,
}
use ros2_dispatcher.Producer.Types.{
  KafkaSendResult, QueuedRecord, sent, queue_full, producer_unavailable, error, u64_mod,
}
use ros2_dispatcher.Producer.Ops.{send}
use ros2_dispatcher.Controller.World.{Outcome, ok, fail, thrown}
use ros2_dispatcher.Sink.Message.{serialize_message_to_json}
use ros2_dispatcher.Sink.Envelope.{apply_ts_envelope_to_json}
use ros2_dispatcher.Sink.Outside.{Outside}
use ros2_dispatcher.Sink.Types.{cdr, json, SubscriptionRuntime, ProducerObject}

-- static constexpr size_t kMaxSamples
abbrev pub max_samples : ℕ
max_samples = 1000

abbrev pub throttle_interval_ns : ℕ
throttle_interval_ns = 1000000000

-- A message: its CDR bytes, the clock's time, and how long the two parts of the callback take.
pub record Arrival : Type 0 where
  pub bytes : List ℕ
  pub now_ns : ℕ
  pub serialize_ns : ℕ
  pub send_ns : ℕ

-- fetch_add of a counter of 64 bits.
abbrev pub count : ℕ → ℕ → ℕ
count total n = (total + n) % u64_mod

abbrev pub larger : ℕ → ℕ → ℕ
larger prev n = if ltb prev n then n else prev

abbrev pub smaller : ℕ → ℕ → ℕ
smaller prev n = if ltb n prev then n else prev

abbrev drop_front : List ℕ → List ℕ
drop_front [] = []
drop_front (x ∷ xs) = xs

unfoldable pub push_sample : ℕ → List ℕ → List ℕ
push_sample x xs =
    let pushed = xs ++ x ∷ [] in
    if ltb max_samples (length pushed) then drop_front pushed else pushed

-- Up to the telemetry, before the message is sent.
unfoldable pub note_serialized : Arrival → List ℕ → SubscriptionRuntime → SubscriptionRuntime
unfolding push_sample
note_serialized m value rt = record rt {
  serialize_time_ns_accum = count rt.serialize_time_ns_accum m.serialize_ns;
  serialize_time_ns_max = larger rt.serialize_time_ns_max m.serialize_ns;
  msg_seq = count rt.msg_seq 1;
  msg_size_min = smaller rt.msg_size_min (length value);
  msg_size_max = larger rt.msg_size_max (length value);
  serialize_samples = push_sample m.serialize_ns rt.serialize_samples;
  msgs_total = count rt.msgs_total 1;
  bytes_total = count rt.bytes_total (length value);
}

unfoldable pub record_of : Arrival → List ℕ → SubscriptionRuntime → QueuedRecord
record_of m value rt = record {
  topic = rt.kafka_topic;
  key = rt.message_key_bytes;
  value = value;
  timestamp_ms = pos (m.now_ns / 1000000);
  headers = record { key = "ros_type"; value = rt.msg_type } ∷ [];
}

unfoldable pub count_result : KafkaSendResult → SubscriptionRuntime → SubscriptionRuntime
count_result result rt = elim result.status [
  | sent ↦ record rt { sent_ok = count rt.sent_ok 1 }
  | queue_full ↦
      if result.buffered
      then record rt { errors = count rt.errors 1 }
      else record rt { dropped = count rt.dropped 1 }
  | producer_unavailable ↦ record rt { errors = count rt.errors 1 }
  | error ↦ record rt { errors = count rt.errors 1 }
]

-- After the message is sent.
unfoldable pub note_sent : Arrival → KafkaSendResult → SubscriptionRuntime → SubscriptionRuntime
unfolding push_sample count_result
note_sent m result rt =
    let rt' = count_result result (record rt {
      send_time_ns_accum = count rt.send_time_ns_accum m.send_ns;
      send_time_ns_max = larger rt.send_time_ns_max m.send_ns;
      send_samples = push_sample m.send_ns rt.send_samples;
    }) in
    if leb rt.next_log_time_ns m.now_ns
    then record rt' { next_log_time_ns = m.now_ns + throttle_interval_ns }
    else rt'

unfoldable pub count_failure : SubscriptionRuntime → SubscriptionRuntime
count_failure rt = record rt { errors = count rt.errors 1 }

module _ (out : Outside) where
  -- serialize_message_to_json and the envelope; what is thrown leaves the callback.
  unfoldable pub json_payload : SubscriptionRuntime → Arrival → Outcome (List ℕ)
  unfolding serialize_message_to_json apply_ts_envelope_to_json
  json_payload rt m = elim (serialize_message_to_json out.nl out.rmw m.bytes rt.type_support) [
    | ok s ↦ elim (apply_ts_envelope_to_json out.nl s (pos m.now_ns)) [
      | ok stamped ↦ ok (out.utf8 stamped)
      | fail e ↦ fail e
      | thrown e ↦ thrown e
    ]
    | fail e ↦ fail e
    | thrown e ↦ thrown e
  ]

  unfoldable pub payload_of : SubscriptionRuntime → Arrival → Outcome (List ℕ)
  unfolding json_payload
  payload_of rt m = elim rt.payload_format [ json ↦ json_payload rt m | cdr ↦ ok m.bytes ]

  unfoldable pub send_value :
      Arrival → List ℕ → SubscriptionRuntime → ProducerObject → SubscriptionRuntime × ProducerObject
  unfolding note_serialized record_of note_sent send
  send_value m value rt producer =
      let noted = note_serialized m value rt in
      let (result, state') = send out.kafka producer.config (record_of m value rt) producer.state in
      (note_sent m result noted, record producer { state = state' })

  -- The callback, where is_active_ is set and there is a producer; true where it throws.
  unfoldable pub handle_message :
      Arrival → SubscriptionRuntime → ProducerObject → Bool × SubscriptionRuntime × ProducerObject
  unfolding payload_of send_value count_failure
  handle_message m rt producer = elim (payload_of rt m) [
    | ok value ↦ let (rt', producer') = send_value m value rt producer in (false, rt', producer')
    | fail e ↦ (false, count_failure rt, producer)
    | thrown e ↦ (true, rt, producer)
  ]
