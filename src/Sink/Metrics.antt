-- ===== src/Sink/Metrics.antt =====
-- kafka_sink_node.cpp: publish_metrics. A double is given by its 64 bits.
use ros2_dispatcher.Prelude.{
  ℕ, ◌+◌, ◌-◌, ◌/◌, ◌%◌, String, Bool, not, ◌||◌, Option, none, some, List, [], ◌∷◌, ltb, nat_eq,
  if◌then◌else◌, ℤ, pos,
}
use ros2_dispatcher.Json.{
  Json, number, floating, text, array, object, JsonItems, no_items, json_item, JsonMembers,
  no_members, set_member, Nlohmann,
}
use ros2_dispatcher.Controller.World.{Outcome, ok, thrown}
use ros2_dispatcher.Producer.Types.{u64_mod}
use ros2_dispatcher.Sink.Samples.{Doubles, calculate_percentile}
use ros2_dispatcher.Sink.Types.{
  PayloadFormat, cdr, json, SubscriptionRuntime, ActiveSubscription, Sink,
}

-- A difference of two uint64_t.
abbrev pub minus64 : ℕ → ℕ → ℕ
minus64 a b = (a + (u64_mod - b % u64_mod)) % u64_mod

pub record Deltas : Type 0 where
  pub d_msgs : ℕ
  pub d_sent : ℕ
  pub d_drop : ℕ
  pub d_err : ℕ
  pub d_bytes : ℕ
  pub d_serialize : ℕ
  pub d_send : ℕ

unfoldable pub deltas_of : SubscriptionRuntime → Deltas
deltas_of rt = record {
  d_msgs = minus64 rt.msgs_total rt.prev_msgs_total;
  d_sent = minus64 rt.sent_ok rt.prev_sent_ok;
  d_drop = minus64 rt.dropped rt.prev_dropped;
  d_err = minus64 rt.errors rt.prev_errors;
  d_bytes = minus64 rt.bytes_total rt.prev_bytes_total;
  d_serialize = minus64 rt.serialize_time_ns_accum rt.prev_serialize_time_ns_accum;
  d_send = minus64 rt.send_time_ns_accum rt.prev_send_time_ns_accum;
}

unfoldable pub note_published : SubscriptionRuntime → SubscriptionRuntime
note_published rt = record rt {
  prev_msgs_total = rt.msgs_total;
  prev_sent_ok = rt.sent_ok;
  prev_dropped = rt.dropped;
  prev_errors = rt.errors;
  prev_bytes_total = rt.bytes_total;
  prev_serialize_time_ns_accum = rt.serialize_time_ns_accum;
  prev_send_time_ns_accum = rt.send_time_ns_accum;
}

-- An object from its members, and the numbers that stand in it.
abbrev pub members_of : List (String × Json) → JsonMembers
members_of [] = no_members
members_of ((k, v) ∷ rest) = set_member k v (members_of rest)

abbrev pub counter : ℕ → Json
counter n = number (pos n)

abbrev pub format_text : PayloadFormat → Json
format_text cdr = text "cdr"
format_text json = text "json"

abbrev pub average : ℕ → ℕ → ℕ
average sum n = if ltb 0 n then sum / n else 0

-- The four percentiles.
pub record Percentiles : Type 0 where
  pub serialize_p95 : ℕ
  pub serialize_p99 : ℕ
  pub send_p95 : ℕ
  pub send_p99 : ℕ

module _ (dbl : Doubles) where
  unfoldable pub percentiles_of : List ℕ → List ℕ → Option Percentiles
  unfolding calculate_percentile
  percentiles_of serialize_samples send_samples =
      elim (calculate_percentile dbl serialize_samples 95) [
        | none ↦ none
        | some a ↦ elim (calculate_percentile dbl serialize_samples 99) [
          | none ↦ none
          | some b ↦ elim (calculate_percentile dbl send_samples 95) [
            | none ↦ none
            | some c ↦ elim (calculate_percentile dbl send_samples 99) [
              | none ↦ none
              | some d ↦
                  some (record { serialize_p95 = a; serialize_p99 = b; send_p95 = c; send_p99 = d })
            ]
          ]
        ]
      ]

  -- a / b as doubles, 0.0 where a test fails.
  abbrev pub ratio : Bool → ℕ → ℕ → ℕ
  ratio test a b = if test then dbl.divide a b else dbl.of_nat 0

  -- (bytes / (ns / 1e9)) / 1048576.0
  abbrev pub megabytes_per_second : ℕ → ℕ → ℕ
  megabytes_per_second bytes ns =
      if ltb 0 ns
      then dbl.divide
          (dbl.divide (dbl.of_nat bytes) (dbl.divide (dbl.of_nat ns) (dbl.of_nat 1000000000)))
          (dbl.of_nat 1048576)
      else dbl.of_nat 0

  unfoldable pub metrics_entry : ℤ → SubscriptionRuntime → Percentiles → Json
  unfolding deltas_of set_member
  metrics_entry interval_ms rt p =
      let d = deltas_of rt in
      let interval_sec = dbl.divide (dbl.of_int interval_ms) (dbl.of_nat 1000) in
      let timed = dbl.is_above_zero interval_sec in
      let ns_per_byte =
        ratio (ltb 0 rt.bytes_total) (dbl.of_nat rt.serialize_time_ns_accum)
          (dbl.of_nat rt.bytes_total) in
      object (
        members_of (
          ("ros_topic", text rt.ros_topic)
          ∷ ("kafka_topic", text rt.kafka_topic)
          ∷ ("msg_type", text rt.msg_type)
          ∷ ("payload_format", format_text rt.payload_format)
          ∷ ("interval_ms", number interval_ms)
          ∷ (
            "delta",
            object (
                members_of (
                  ("received", counter d.d_msgs)
                  ∷ ("sent_ok", counter d.d_sent)
                  ∷ ("dropped", counter d.d_drop)
                  ∷ ("errors", counter d.d_err)
                  ∷ ("bytes", counter d.d_bytes)
                  ∷ [])),
          )
          ∷ (
            "rates",
            object (
                members_of (
                  ("received_per_sec", floating (ratio timed (dbl.of_nat d.d_msgs) interval_sec))
                  ∷ ("sent_per_sec", floating (ratio timed (dbl.of_nat d.d_sent) interval_sec))
                  ∷ [])),
          )
          ∷ (
            "message_size",
            object (
                members_of (
                  (
                    "avg_bytes",
                    floating (
                        ratio (ltb 0 rt.msgs_total) (dbl.of_nat rt.bytes_total)
                          (dbl.of_nat rt.msgs_total)),
                  )
                  ∷ (
                    "min_bytes",
                    counter (if nat_eq rt.msg_size_min (u64_mod - 1) then 0 else rt.msg_size_min),
                  )
                  ∷ ("max_bytes", counter rt.msg_size_max)
                  ∷ [])),
          )
          ∷ (
            "latency_ns",
            object (
                members_of (
                  ("serialize_avg", counter (average d.d_serialize d.d_msgs))
                  ∷ ("serialize_p95", counter p.serialize_p95)
                  ∷ ("serialize_p99", counter p.serialize_p99)
                  ∷ ("serialize_max", counter rt.serialize_time_ns_max)
                  ∷ ("send_avg", counter (average d.d_send d.d_msgs))
                  ∷ ("send_p95", counter p.send_p95)
                  ∷ ("send_p99", counter p.send_p99)
                  ∷ ("send_max", counter rt.send_time_ns_max)
                  ∷ [])),
          )
          ∷ (
            "throughput",
            object (
                members_of (
                  ("serialize_mb_per_sec", floating (megabytes_per_second d.d_bytes d.d_serialize))
                  ∷ ("send_mb_per_sec", floating (megabytes_per_second d.d_bytes d.d_send))
                  ∷ [])),
          )
          ∷ (
            "cpu_efficiency",
            object (
                members_of (
                  ("ns_per_byte", floating ns_per_byte)
                  ∷ (
                    "bytes_per_cpu_ms",
                    floating
                        (ratio (dbl.is_above_zero ns_per_byte) (dbl.of_nat 1000000) ns_per_byte),
                  )
                  ∷ [])),
          )
          ∷ (
            "totals",
            object (
                members_of (
                  ("received", counter rt.msgs_total)
                  ∷ ("sent_ok", counter rt.sent_ok)
                  ∷ ("dropped", counter rt.dropped)
                  ∷ ("errors", counter rt.errors)
                  ∷ ("bytes", counter rt.bytes_total)
                  ∷ [])),
          )
          ∷ []))

  -- The loop over active_subscriptions_: the entries, none where a percentile has no sample.
  unfoldable pub metrics_entries : ℤ → List ActiveSubscription → Option JsonItems
  unfolding percentiles_of metrics_entry
  metrics_entries interval_ms [] = some no_items
  metrics_entries interval_ms (a ∷ rest) =
      let later = metrics_entries interval_ms rest in
      elim (percentiles_of a.runtime_state.serialize_samples a.runtime_state.send_samples) [
        | none ↦ none
        | some p ↦ elim later [
          | none ↦ none
          | some entries ↦ some (json_item (metrics_entry interval_ms a.runtime_state p) entries)
        ]
      ]

  unfoldable pub note_all_published : List ActiveSubscription → List ActiveSubscription
  unfolding note_published
  note_all_published [] = []
  note_all_published (a ∷ rest) =
      record a { runtime_state = note_published a.runtime_state } ∷ note_all_published rest

  unfoldable pub publish_metrics : Nlohmann → Sink → Outcome (Option String) × Sink
  unfolding metrics_entries note_all_published
  publish_metrics nl s = if not s.metrics_enabled || not s.metrics_pub then (ok none, s) else (
    elim (metrics_entries s.metrics_interval_ms s.active_subscriptions) [
      | none ↦ thrown "no sample"
      | some entries ↦ elim (nl.dump (array entries)) [
        | none ↦ thrown "dump"
        | some message ↦ ok (some message)
      ]
    ],
    record s { active_subscriptions = note_all_published s.active_subscriptions },
  )
