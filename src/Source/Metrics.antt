-- ===== src/Source/Metrics.antt =====
-- kafka_source_node.cpp: publish_metrics. A double is given by its 64 bits.
use Prim.Native.Char.{Char, code}
use ros2_dispatcher.Prelude.{
  ℕ, ◌-◌, ◌/◌, ◌%◌, String, Bool, true, false, not, ◌||◌, Option, none, some, List, [], ◌∷◌, ◌⊕◌,
  ltb, nat_eq, length, to_string, if◌then◌else◌,
}
use ros2_dispatcher.Sink.Metrics.{minus64, ratio}
use ros2_dispatcher.Sink.Samples.{Doubles, sort, sample_at}
use ros2_dispatcher.Source.Types.{TopicMetrics, Source}

-- More of doubles: the smaller and the larger of two, std::ceil, and what a stream prints with
-- std::fixed and three decimals.
pub record Fixed : Type 0 where
  pub doubles : Doubles
  pub min : ℕ → ℕ → ℕ
  pub max : ℕ → ℕ → ℕ
  pub ceil : ℕ → ℕ
  pub three_decimals : ℕ → String

-- A digit of std::hex with std::uppercase.
abbrev hex_digit : ℕ → String
hex_digit n =
    if ltb n 10
    then to_string n
    else if nat_eq n 10
    then "A"
    else if nat_eq n 11
    then "B"
    else if nat_eq n 12
    then "C"
    else if nat_eq n 13
    then "D"
    else if nat_eq n 14
    then "E"
    else "F"

-- What is written for one character.
unfoldable pub escaped : Char → String
escaped c =
    let n = code c in
    if nat_eq n 92
    then "\\\\"
    else if nat_eq n 34
    then "\\\""
    else if nat_eq n 10
    then "\\n"
    else if nat_eq n 13
    then "\\r"
    else if nat_eq n 9
    then "\\t"
    else if nat_eq n 8
    then "\\b"
    else if nat_eq n 12
    then "\\f"
    else if ltb n 32
    then "\\u00" ⊕ hex_digit (n / 16) ⊕ hex_digit (n % 16)
    else String.◌∷◌ c ""

unfoldable pub json_escape : String → String
unfolding escaped
json_escape String.[] = ""
json_escape (String.◌∷◌ c s) = escaped c ⊕ json_escape s

unfoldable pub note_reported : TopicMetrics → TopicMetrics
note_reported t = record t {
  prev_received = t.received;
  prev_decoded = t.decoded;
  prev_failed = t.failed;
  prev_bytes = t.bytes;
}

unfoldable pub note_all_reported : List (String × TopicMetrics) → List (String × TopicMetrics)
unfolding note_reported
note_all_reported [] = []
note_all_reported ((key, t) ∷ rest) = (key, note_reported t) ∷ note_all_reported rest

module _ (fx : Fixed) where
  -- sorted[index], none where there is no such sample.
  unfoldable pub percentile_from_samples : List ℕ → ℕ → Option ℕ
  unfolding sample_at
  percentile_from_samples [] percent = some 0
  percentile_from_samples (x ∷ xs) percent =
      let dbl = fx.doubles in
      let clamped = fx.min (dbl.of_nat 1) (fx.max (dbl.of_nat 0) (dbl.hundredths percent)) in
      sample_at (dbl.to_size (fx.ceil (dbl.multiply clamped (dbl.of_nat (length (x ∷ xs) - 1)))))
        (x ∷ xs)

  unfoldable pub topic_entry : ℕ → TopicMetrics → ℕ → ℕ → ℕ → String
  unfolding json_escape
  topic_entry interval_sec t p50 p95 p99 =
      let dbl = fx.doubles in
      let timed = dbl.is_above_zero interval_sec in
      let received_delta = minus64 t.received t.prev_received in
      let bytes_delta = minus64 t.bytes t.prev_bytes in
      "{\"ros_topic\":\""
      ⊕ json_escape t.ros_topic
      ⊕ "\",\"ros_type\":\""
      ⊕ json_escape t.ros_type
      ⊕ "\",\"received\":"
      ⊕ to_string t.received
      ⊕ ",\"decoded\":"
      ⊕ to_string t.decoded
      ⊕ ",\"failed\":"
      ⊕ to_string t.failed
      ⊕ ",\"bytes\":"
      ⊕ to_string t.bytes
      ⊕ ",\"rate_msgs_per_s\":"
      ⊕ fx.three_decimals (ratio dbl timed (dbl.of_nat received_delta) interval_sec)
      ⊕ ",\"rate_bytes_per_s\":"
      ⊕ fx.three_decimals (ratio dbl timed (dbl.of_nat bytes_delta) interval_sec)
      ⊕ ",\"delta_decoded\":"
      ⊕ to_string (minus64 t.decoded t.prev_decoded)
      ⊕ ",\"delta_failed\":"
      ⊕ to_string (minus64 t.failed t.prev_failed)
      ⊕ ",\"latency_ns_p50\":"
      ⊕ to_string p50
      ⊕ ",\"latency_ns_p95\":"
      ⊕ to_string p95
      ⊕ ",\"latency_ns_p99\":"
      ⊕ to_string p99
      ⊕ ",\"latency_ns_max\":"
      ⊕ to_string t.latency_ns_max
      ⊕ "}"

  -- One turn of the loop, none where a percentile has no sample.
  unfoldable pub topic_text : ℕ → TopicMetrics → Option String
  unfolding percentile_from_samples topic_entry
  topic_text interval_sec t =
      let samples = sort t.latency_samples in
      elim (percentile_from_samples samples 50) [
        | none ↦ none
        | some p50 ↦ elim (percentile_from_samples samples 95) [
          | none ↦ none
          | some p95 ↦ elim (percentile_from_samples samples 99) [
            | none ↦ none
            | some p99 ↦ some (topic_entry interval_sec t p50 p95 p99)
          ]
        ]
      ]

  -- The loop over metrics_: the entries, with commas between them.
  unfoldable pub topic_texts : ℕ → Bool → List (String × TopicMetrics) → Option String
  unfolding topic_text
  topic_texts interval_sec first [] = some ""
  topic_texts interval_sec first ((key, t) ∷ rest) =
      let later = topic_texts interval_sec false rest in
      elim (topic_text interval_sec t) [
        | none ↦ none
        | some entry ↦ elim later [
          | none ↦ none
          | some entries ↦ some ((if first then "" else ",") ⊕ entry ⊕ entries)
        ]
      ]

  -- The message, none where nothing is published or a percentile has no sample; `now_ns` is the time of the node's clock.
  unfoldable pub publish_metrics : ℕ → Source → Option String × Source
  unfolding topic_texts note_all_reported
  publish_metrics now_ns s =
      if not s.metrics_enabled || not s.metrics_pub
      then (none, s)
      else (let dbl = fx.doubles in
          let interval_sec = dbl.divide (dbl.of_int s.metrics_interval_ms) (dbl.of_nat 1000) in
          let text : Option String = elim (topic_texts interval_sec true s.metrics) [
            | none ↦ none
            | some entries ↦
                some ("{\"timestamp_ns\":" ⊕ to_string now_ns ⊕ ",\"topics\":[" ⊕ entries ⊕ "]}")
          ] in
          (text, record s { metrics = note_all_reported s.metrics }))
