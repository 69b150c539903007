-- ===== src/Mosquitto/Metrics.antt =====
-- mosquitto_sink_node.cpp: publish_metrics. A double is given by its 64 bits.
use ros2_dispatcher.Prelude.{
  ℕ, ◌-◌, String, false, not, ◌||◌, Option, none, some, List, [], ◌∷◌, ltb, nat_eq, if◌then◌else◌,
  ℤ,
}
use ros2_dispatcher.Json.{
  Json, boolean, number, floating, text, array, object, JsonItems, no_items, json_item, set_member,
  Nlohmann,
}
use ros2_dispatcher.Controller.World.{Outcome, ok, thrown}
use ros2_dispatcher.Producer.Types.{u64_mod}
use ros2_dispatcher.Sink.Samples.{Doubles}
use ros2_dispatcher.Sink.Metrics.{
  minus64, Deltas, members_of, counter, format_text, average, Percentiles, percentiles_of, ratio,
  megabytes_per_second,
}
use ros2_dispatcher.Mosquitto.Client.{Paho, MqttClient, MqttHealth, health}
use ros2_dispatcher.Mosquitto.Types.{SubscriptionRuntime, ActiveSubscription, MosquittoSink}

unfoldable pub deltas_of : SubscriptionRuntime → Deltas
deltas_of rt = record {
  d_msgs = minus64 rt.msgs_total rt.prev_msgs_total;
  d_sent = minus64 rt.sent_ok rt.prev_sent_ok;
  d_drop = minus64 rt.dropped rt.prev_dropped;
  d_err = minus64 rt.errors rt.prev_errors;
  d_bytes = minus64 rt.bytes_total rt.prev_bytes_total;
  d_serialize = minus64 rt.serialize_time_ns_accum rt.prev_serialize_time_ns_accum;
  d_send = minus64 rt.send_time_ns_accum rt.prev_send_time_ns_accum;
}

unfoldable pub note_published : SubscriptionRuntime → SubscriptionRuntime
note_published rt = record rt {
  prev_msgs_total = rt.msgs_total;
  prev_sent_ok = rt.sent_ok;
  prev_dropped = rt.dropped;
  prev_errors = rt.errors;
  prev_bytes_total = rt.bytes_total;
  prev_serialize_time_ns_accum = rt.serialize_time_ns_accum;
  prev_send_time_ns_accum = rt.send_time_ns_accum;
}

-- health(), or the defaults where there is no client.
unfoldable pub health_of : Option MqttClient → MqttHealth
unfolding health
health_of (some c) = health c
health_of none = record {
  connected = false;
  reconnect_count = 0;
  last_error = "";
  connected_since = 0;
}

-- steady_clock::now(), which reads 0 where there is no client to count from.
abbrev clock_of : Paho → Option MqttClient → ℕ
clock_of paho none = 0
clock_of paho (some c) = paho.steady_clock c.log

module _ (dbl : Doubles) where
  unfoldable pub connection_entry : ℕ → MqttHealth → Json
  unfolding set_member
  connection_entry now h =
      let uptime =
        if h.connected
        then dbl.divide (dbl.of_nat (now - h.connected_since)) (dbl.of_nat 1000000000)
        else dbl.of_nat 0 in
      object (
        members_of (
          ("connected", boolean h.connected)
          ∷ ("uptime_sec", floating uptime)
          ∷ ("reconnect_count", counter h.reconnect_count)
          ∷ ("last_error", text h.last_error)
          ∷ []))

  unfoldable pub metrics_entry : ℤ → Json → SubscriptionRuntime → Percentiles → Json
  unfolding deltas_of set_member
  metrics_entry interval_ms connection rt p =
      let d = deltas_of rt in
      let interval_sec = dbl.divide (dbl.of_int interval_ms) (dbl.of_nat 1000) in
      let timed = dbl.is_above_zero interval_sec in
      let ns_per_byte =
        ratio dbl (ltb 0 rt.bytes_total) (dbl.of_nat rt.serialize_time_ns_accum)
          (dbl.of_nat rt.bytes_total) in
      object (
        members_of (
          ("ros_topic", text rt.ros_topic)
          ∷ ("mqtt_topic", text rt.mqtt_topic)
          ∷ ("msg_type", text rt.msg_type)
          ∷ ("payload_format", format_text rt.payload_format)
          ∷ ("interval_ms", number interval_ms)
          ∷ (
            "delta",
            object (
                members_of (
                  ("received", counter d.d_msgs)
                  ∷ ("sent_ok", counter d.d_sent)
                  ∷ ("dropped", counter d.d_drop)
                  ∷ ("errors", counter d.d_err)
                  ∷ ("bytes", counter d.d_bytes)
                  ∷ [])),
          )
          ∷ (
            "rates",
            object (
                members_of (
                  (
                    "received_per_sec",
                    floating (ratio dbl timed (dbl.of_nat d.d_msgs) interval_sec),
                  )
                  ∷ ("sent_per_sec", floating (ratio dbl timed (dbl.of_nat d.d_sent) interval_sec))
                  ∷ [])),
          )
          ∷ (
            "message_size",
            object (
                members_of (
                  (
                    "avg_bytes",
                    floating (
                        ratio dbl (ltb 0 rt.msgs_total) (dbl.of_nat rt.bytes_total)
                          (dbl.of_nat rt.msgs_total)),
                  )
                  ∷ (
                    "min_bytes",
                    counter (if nat_eq rt.msg_size_min (u64_mod - 1) then 0 else rt.msg_size_min),
                  )
                  ∷ ("max_bytes", counter rt.msg_size_max)
                  ∷ [])),
          )
          ∷ (
            "latency_ns",
            object (
                members_of (
                  ("serialize_avg", counter (average d.d_serialize d.d_msgs))
                  ∷ ("serialize_p95", counter p.serialize_p95)
                  ∷ ("serialize_p99", counter p.serialize_p99)
                  ∷ ("serialize_max", counter rt.serialize_time_ns_max)
                  ∷ ("send_avg", counter (average d.d_send d.d_msgs))
                  ∷ ("send_p95", counter p.send_p95)
                  ∷ ("send_p99", counter p.send_p99)
                  ∷ ("send_max", counter rt.send_time_ns_max)
                  ∷ [])),
          )
          ∷ (
            "throughput",
            object (
                members_of (
                  (
                    "serialize_mb_per_sec",
                    floating (megabytes_per_second dbl d.d_bytes d.d_serialize),
                  )
                  ∷ ("send_mb_per_sec", floating (megabytes_per_second dbl d.d_bytes d.d_send))
                  ∷ [])),
          )
          ∷ (
            "cpu_efficiency",
            object (
                members_of (
                  ("ns_per_byte", floating ns_per_byte)
                  ∷ (
                    "bytes_per_cpu_ms",
                    floating (
                        ratio dbl (dbl.is_above_zero ns_per_byte) (dbl.of_nat 1000000) ns_per_byte),
                  )
                  ∷ [])),
          )
          ∷ (
            "totals",
            object (
                members_of (
                  ("received", counter rt.msgs_total)
                  ∷ ("sent_ok", counter rt.sent_ok)
                  ∷ ("dropped", counter rt.dropped)
                  ∷ ("errors", counter rt.errors)
                  ∷ ("bytes", counter rt.bytes_total)
                  ∷ [])),
          )
          ∷ ("mqtt_connection", connection)
          ∷ []))

  -- The loop over active_subscriptions_: the entries, none where a percentile has no sample.
  unfoldable pub metrics_entries : ℤ → Json → List ActiveSubscription → Option JsonItems
  unfolding metrics_entry
  metrics_entries interval_ms connection [] = some no_items
  metrics_entries interval_ms connection (a ∷ rest) =
      let later = metrics_entries interval_ms connection rest in
      let rt = a.runtime_state in
      elim (percentiles_of dbl rt.serialize_samples rt.send_samples) [
        | none ↦ none
        | some p ↦ elim later [
          | none ↦ none
          | some entries ↦ some (json_item (metrics_entry interval_ms connection rt p) entries)
        ]
      ]

unfoldable pub note_all_published : List ActiveSubscription → List ActiveSubscription
unfolding note_published
note_all_published [] = []
note_all_published (a ∷ rest) =
    record a { runtime_state = note_published a.runtime_state } ∷ note_all_published rest

module _ (dbl : Doubles) (paho : Paho) (nl : Nlohmann) where
  -- The message of the entries, or the exception of dump().
  unfoldable pub metrics_message : MosquittoSink → Outcome (Option String)
  unfolding metrics_entries health_of connection_entry
  metrics_message s =
      let connection =
        connection_entry dbl (clock_of paho s.mqtt_runtime) (health_of s.mqtt_runtime) in
      elim (metrics_entries dbl s.metrics_interval_ms connection s.active_subscriptions) [
        | none ↦ thrown "no sample"
        | some entries ↦ elim (nl.dump (array entries)) [
          | none ↦ thrown "dump"
          | some message ↦ ok (some message)
        ]
      ]

  unfoldable pub publish_metrics : MosquittoSink → Outcome (Option String) × MosquittoSink
  unfolding metrics_message note_all_published
  publish_metrics s = if not s.metrics_enabled || not s.metrics_pub then (ok none, s) else (
    metrics_message s,
    record s { active_subscriptions = note_all_published s.active_subscriptions },
  )
