-- ===== src/Mosquitto/Stream.antt =====
-- mosquitto_sink_node.cpp: what the callback of a subscription does with a message. The node's clock
-- and the durations that are measured come with the message.
use ros2_dispatcher.Prelude.{
  ℕ, ◌+◌, String, Bool, true, false, not, ◌&&◌, Option, none, some, List, leb, length, is_empty,
  if◌then◌else◌, pos,
}
use ros2_dispatcher.Controller.World.{Outcome, ok, fail, thrown}
use ros2_dispatcher.Sink.Envelope.{apply_ts_envelope_to_json}
use ros2_dispatcher.Sink.Message.{serialize_message_to_json}
use ros2_dispatcher.Sink.Stream.{Arrival, throttle_interval_ns, count, larger, smaller, push_sample}
use ros2_dispatcher.Sink.Types.{cdr, json}
use ros2_dispatcher.Mosquitto.Client.{MqttClient, publish}
use ros2_dispatcher.Mosquitto.Outside.{Outside}
use ros2_dispatcher.Mosquitto.Payload.{apply_message_key_to_json, inject_frame_id_into_cdr}
use ros2_dispatcher.Mosquitto.Types.{MqttParameters, SubscriptionRuntime}

-- Before the message is published.
unfoldable pub note_serialized : Arrival → List ℕ → SubscriptionRuntime → SubscriptionRuntime
unfolding push_sample
note_serialized m value rt = record rt {
  serialize_time_ns_accum = count rt.serialize_time_ns_accum m.serialize_ns;
  serialize_time_ns_max = larger rt.serialize_time_ns_max m.serialize_ns;
  msg_size_min = smaller rt.msg_size_min (length value);
  msg_size_max = larger rt.msg_size_max (length value);
  serialize_samples = push_sample m.serialize_ns rt.serialize_samples;
  msgs_total = count rt.msgs_total 1;
  bytes_total = count rt.bytes_total (length value);
}

unfoldable pub count_published : Option String → SubscriptionRuntime → SubscriptionRuntime
count_published none rt = record rt { sent_ok = count rt.sent_ok 1 }
count_published (some e) rt = record rt { errors = count rt.errors 1 }

-- After the message is published, or was not.
unfoldable pub note_sent : Arrival → Option String → SubscriptionRuntime → SubscriptionRuntime
unfolding push_sample count_published
note_sent m publish_error rt =
    let rt' = count_published publish_error (record rt {
      send_time_ns_accum = count rt.send_time_ns_accum m.send_ns;
      send_time_ns_max = larger rt.send_time_ns_max m.send_ns;
      send_samples = push_sample m.send_ns rt.send_samples;
    }) in
    if leb rt.next_log_time_ns m.now_ns
    then record rt' { next_log_time_ns = m.now_ns + throttle_interval_ns }
    else rt'

unfoldable pub count_failure : SubscriptionRuntime → SubscriptionRuntime
count_failure rt = record rt { errors = count rt.errors 1 }

module _ (out : Outside) where
  -- The message key, then the envelope.
  unfoldable pub keyed_payload : SubscriptionRuntime → Arrival → String → Outcome (List ℕ)
  unfolding apply_message_key_to_json apply_ts_envelope_to_json
  keyed_payload rt m s = elim (apply_message_key_to_json out.nl s rt.message_key) [
    | ok keyed ↦ elim (apply_ts_envelope_to_json out.nl keyed (pos m.now_ns)) [
      | ok stamped ↦ ok (out.utf8 stamped)
      | fail e ↦ fail e
      | thrown e ↦ thrown e
    ]
    | fail e ↦ fail e
    | thrown e ↦ thrown e
  ]

  -- What is thrown leaves the callback.
  unfoldable pub json_payload : SubscriptionRuntime → Arrival → Outcome (List ℕ)
  unfolding serialize_message_to_json keyed_payload
  json_payload rt m = elim (serialize_message_to_json out.nl out.rmw m.bytes rt.type_support) [
    | ok s ↦ keyed_payload rt m s
    | fail e ↦ fail e
    | thrown e ↦ thrown e
  ]

  unfoldable pub cdr_payload : SubscriptionRuntime → Arrival → List ℕ
  unfolding inject_frame_id_into_cdr
  cdr_payload rt m =
      if not (is_empty rt.message_key)
        && (rt.type_support.has_rmw && rt.type_support.has_introspection)
      then (inject_frame_id_into_cdr out.rmw out.writer m.bytes rt.type_support rt.message_key
          m.bytes).1
      else m.bytes

  unfoldable pub payload_of : SubscriptionRuntime → Arrival → Outcome (List ℕ)
  unfolding json_payload cdr_payload
  payload_of rt m = elim rt.payload_format [
    | json ↦ json_payload rt m
    | cdr ↦ ok (cdr_payload rt m)
  ]

  unfoldable pub publish_value :
      MqttParameters
      → Arrival
      → List ℕ
      → SubscriptionRuntime
      → MqttClient
      → SubscriptionRuntime × MqttClient
  unfolding note_serialized note_sent publish
  publish_value p m value rt client =
      let noted = note_serialized m value rt in
      let (publish_error, client') = publish out.paho rt.mqtt_topic value p.qos p.retain client in
      (note_sent m publish_error noted, client')

  -- The callback, where is_active_ is set and there is a client; true where it throws.
  unfoldable pub handle_message :
      MqttParameters
      → Arrival
      → SubscriptionRuntime
      → MqttClient
      → Bool × SubscriptionRuntime × MqttClient
  unfolding payload_of publish_value count_failure
  handle_message p m rt client = elim (payload_of rt m) [
    | ok value ↦ let (rt', client') = publish_value p m value rt client in (false, rt', client')
    | fail e ↦ (false, count_failure rt, client)
    | thrown e ↦ (true, rt, client)
  ]
