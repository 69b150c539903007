-- ===== src/Source/Counting.antt =====
-- kafka_source_node.cpp: what a message does to the metrics of its topic.
use ros2_dispatcher.Prelude.{
  ℕ, All, String, Bool, true, false, Option, none, some, List, ◌≡◌, refl, sym, subst, ◌∙◌, arith,
  length, if◌then◌else◌, leb, is_empty, not,
}
use ros2_dispatcher.Controller.World.{Outcome, ok, fail, thrown}
use ros2_dispatcher.Source.Stream.{
  Ros, Consumed, nothing, timed_out, partition_eof, consume_error, consumed, should_log_throttled,
  ros_topic_of, ros_type_of, note_decoded, note_failed, update_entry, ensure_type_support,
  get_or_create_publisher, reject, publish_payload, decode, receive_typed, receive_message,
  process_message, poll_once,
}
use ros2_dispatcher.Source.Types.{TopicMetrics, Message, Received, Source}
use ros2_dispatcher.Source.Entries.{
  IsFair, OneBehind, note_decoded-IsFair, note_failed-IsFair, ensure_entry-OneBehind,
  update_entry-AllFair,
}

-- Whether kafka_source runs.
abbrev pub flags_of : Source → Bool × Bool × Bool × Bool
flags_of s = (s.is_active, s.has_consumer, s.is_running, s.has_thread)

-- Every message that an entry has received is decoded or failed, but for the one in hand, which its
-- entry has counted as received only.
abbrev pub Counts : Option Received → List (String × TopicMetrics) → Type 0
Counts none m = All IsFair m
Counts (some r) m = OneBehind r.key m

-- The node runs as before, and the counts are right for what is in hand now.
abbrev Taken : Source → Option Received → Source → Type 0
Taken s in_hand u = (flags_of u ≡ flags_of s) × Counts in_hand u.metrics

should_log_throttled-same :
    (now : ℕ) (s : Source)
    → (flags_of (should_log_throttled now s).1 ≡ flags_of s)
      × ((should_log_throttled now s).1.metrics ≡ s.metrics)
unfolding should_log_throttled
should_log_throttled-same now s = ground arith

should_log_throttled-Taken :
    (now : ℕ) (s : Source) → All IsFair s.metrics → Taken s none (should_log_throttled now s).1
should_log_throttled-Taken now s fair =
    let (flags, metrics) = should_log_throttled-same now s in
    (flags, subst (All IsFair) (sym metrics) fair)

receive_message-Taken :
    (m : Message) (s : Source)
    → All IsFair s.metrics
    → Taken s (receive_message m s).0 (receive_message m s).1
unfolding receive_message receive_typed
receive_message-Taken m s fair =
    split (leb (length m.payload) 0) (is_empty (ros_type_of m.ros_types))
  where
    split :
        (no_bytes no_type : Bool)
        → let r : Option Received × Source =
            if no_bytes
            then (none, s)
            else if no_type
            then (none, (should_log_throttled m.clock_ns s).1)
            else receive_typed (ros_type_of m.ros_types) m s in
          Taken s r.0 r.1
    split true b = (refl, fair)
    split false true = should_log_throttled-Taken m.clock_ns s fair
    split false false = (
      refl,
      ensure_entry-OneBehind m (ros_topic_of m.topic_name s) (ros_type_of m.ros_types) s.metrics
          fair,
    )

pub poll_once-Taken :
    (c : Consumed) (s : Source) → All IsFair s.metrics → Taken s (poll_once c s).0 (poll_once c s).1
unfolding poll_once
poll_once-Taken c s fair = split s.has_consumer c
  where
    split :
        (b : Bool) (c : Consumed)
        → let r : Option Received × Source =
            if not b then (none, s) else elim c as (λ _. Option Received × Source) [
              | nothing ↦ (none, s)
              | timed_out ↦ (none, s)
              | partition_eof ↦ (none, s)
              | consume_error clock_ns ↦ (none, (should_log_throttled clock_ns s).1)
              | consumed m ↦ receive_message m s
            ] in
          Taken s r.0 r.1
    split false c = (refl, fair)
    split true nothing = (refl, fair)
    split true timed_out = (refl, fair)
    split true partition_eof = (refl, fair)
    split true (consume_error clock_ns) = should_log_throttled-Taken clock_ns s fair
    split true (consumed m) = receive_message-Taken m s fair

-- A message that is done with: the node runs as before, and every entry is fair.
abbrev Handled : Source → Outcome Bool × Source → Type 0
Handled s (r, u) = (flags_of u ≡ flags_of s) × (r ≡ ok true → All IsFair u.metrics)

-- The node still has the message in hand.
abbrev Holding : Received → Source → Source → Type 0
Holding r s u = (flags_of u ≡ flags_of s) × (u.metrics ≡ s.metrics) × OneBehind r.key s.metrics

reject-Handled : (r : Received) (s u : Source) → Holding r s u → Handled s (ok true, reject r u)
unfolding reject
reject-Handled r s u (flags, same, behind) =
    let u' : Source = record u { metrics = update_entry r.key note_failed u.metrics } in
    let (flags', metrics) = should_log_throttled-same r.message.clock_ns u' in
    let fair = update_entry-AllFair r.key note_failed s.metrics note_failed-IsFair behind in
    (flags' ∙ flags, (λ _. subst (All IsFair) (sym metrics) (rw same fair)))

publish_payload-Handled :
    (r : Received) (s : Source) (x : Outcome Bool × Source)
    → Holding r s x.1
    → Handled s (publish_payload r x)
unfolding publish_payload
publish_payload-Handled r s (ok false, u) h = reject-Handled r s u h
publish_payload-Handled r s (ok true, u) (flags, same, behind) =
    let fair = update_entry-AllFair r.key note_decoded s.metrics note_decoded-IsFair behind in
    (flags, (λ _. rw same fair))
publish_payload-Handled r s (fail e, u) h = (h.0, (λ q. ground (arith, q)))
publish_payload-Handled r s (thrown e, u) h = (h.0, (λ q. ground (arith, q)))

module _ (ros : Ros) where
  get_or_create_publisher-same :
      (topic type : String) (s : Source)
      → (flags_of (get_or_create_publisher ros topic type s).1 ≡ flags_of s)
        × ((get_or_create_publisher ros topic type s).1.metrics ≡ s.metrics)
  unfolding get_or_create_publisher
  get_or_create_publisher-same topic type s = ground arith

  ensure_type_support-same :
      (type : String) (s : Source)
      → (flags_of (ensure_type_support ros type s).1 ≡ flags_of s)
        × ((ensure_type_support ros type s).1.metrics ≡ s.metrics)
  unfolding ensure_type_support
  ensure_type_support-same type s = ground arith

  decode-Handled :
      (r : Received) (s : Source) (x : Option String × Source)
      → Holding r s x.1
      → Handled s (decode ros r x)
  unfolding decode
  decode-Handled r s (some e, u) h = reject-Handled r s u h
  decode-Handled r s (none, u) (flags, same, behind) =
      let (flags', metrics) = get_or_create_publisher-same r.ros_topic r.ros_type u in
      publish_payload-Handled r s (get_or_create_publisher ros r.ros_topic r.ros_type u)
        (flags' ∙ flags, metrics ∙ same, behind)

  pub process_message-Handled :
      (r : Received) (s : Source) → OneBehind r.key s.metrics → Handled s (process_message ros r s)
  unfolding process_message
  process_message-Handled r s behind =
      let (flags, metrics) = ensure_type_support-same r.ros_type s in
      decode-Handled r s (ensure_type_support ros r.ros_type s) (flags, metrics, behind)
