-- ===== src/Sink/Accounting.antt =====
-- kafka_sink_node.cpp: the counters and the samples of the subscriptions, over any session.
use ros2_dispatcher.Prelude.{
  String, ℕ, zero, suc, ◌+◌, ◌%◌, ◌≤◌, ◌≡◌, refl, sym, ap, subst, ◌∙◌, Bool, true, false, List, [],
  ◌∷◌, ◌++◌, arith, length, length-append, All, All-append, leb, Bool-cases, inl, inr,
}
use ros2_dispatcher.Producer.Types.{KafkaSendResult, u64_mod}
use ros2_dispatcher.Producer.Ops.{send}
use ros2_dispatcher.Controller.World.{Outcome, ok, fail, thrown}
use ros2_dispatcher.Sink.Types.{
  SubscriptionConfig, cdr, KafkaParameters, SubscriptionRuntime, ActiveSubscription, ProducerObject,
  Sink,
}
use ros2_dispatcher.Sink.Metrics.{note_all_published, note_published}
use ros2_dispatcher.Sink.Outside.{Outside, Created, subscribed, not_subscribed, subscription_throws}
use ros2_dispatcher.Sink.Stream.{
  Arrival, count, larger, max_samples, push_sample, note_serialized, count_result, note_sent,
  count_failure, record_of, payload_of, send_value, handle_message,
}
use ros2_dispatcher.Sink.Life.{Result, runtime_of, subscription_of, add_subscriptions}
use ros2_dispatcher.Sink.Session.{deliver}

-- Each message of a CDR subscription is counted once, as sent, dropped or an error; the sequence
-- number is the number of messages, and so it was when the metrics were published last; the samples are those of the last thousand at most.
abbrev pub IsCounted : SubscriptionRuntime → Type 0
IsCounted rt =
    (rt.payload_format ≡ cdr
      → (rt.sent_ok + rt.dropped + rt.errors) % u64_mod ≡ rt.msgs_total % u64_mod)
    × (rt.payload_format ≡ cdr
        → (rt.prev_sent_ok + rt.prev_dropped + rt.prev_errors) % u64_mod
          ≡ rt.prev_msgs_total % u64_mod)
    × (rt.msg_seq ≡ rt.msgs_total)
    × (length rt.serialize_samples ≤ max_samples)
    × (length rt.send_samples ≤ max_samples)

pub push_sample-bounded :
    (x : ℕ) (xs : List ℕ) → length xs ≤ max_samples → length (push_sample x xs) ≤ max_samples
unfolding push_sample
push_sample-bounded x [] h = ground arith
push_sample-bounded x (y ∷ ys) h = ground (arith, length-append ys (x ∷ []))

abbrev pub total : SubscriptionRuntime → ℕ
total rt = rt.sent_ok + rt.dropped + rt.errors

-- What the last publish_metrics has seen.
abbrev published : SubscriptionRuntime → ℕ × ℕ
published rt = (rt.prev_sent_ok + rt.prev_dropped + rt.prev_errors, rt.prev_msgs_total)

abbrev SameBooks : SubscriptionRuntime → SubscriptionRuntime → Type 0
SameBooks rt t =
    (t.payload_format ≡ rt.payload_format)
    × (t.msgs_total ≡ rt.msgs_total)
    × (t.msg_seq ≡ rt.msg_seq)
    × (t.serialize_samples ≡ rt.serialize_samples)
    × (published t ≡ published rt)

count_result-one :
    (result : KafkaSendResult) (rt : SubscriptionRuntime)
    → (total (count_result result rt) % u64_mod ≡ (total rt + 1) % u64_mod)
      × SameBooks rt (count_result result rt)
      × ((count_result result rt).send_samples ≡ rt.send_samples)
unfolding count_result
count_result-one result rt = ground arith

note_sent-one :
    (m : Arrival) (result : KafkaSendResult) (rt : SubscriptionRuntime)
    → (total (note_sent m result rt) % u64_mod ≡ (total rt + 1) % u64_mod)
      × SameBooks rt (note_sent m result rt)
      × ((note_sent m result rt).send_samples ≡ push_sample m.send_ns rt.send_samples)
unfolding note_sent
note_sent-one m result rt =
    let sampled : SubscriptionRuntime = record rt {
      send_time_ns_accum = count rt.send_time_ns_accum m.send_ns;
      send_time_ns_max = larger rt.send_time_ns_max m.send_ns;
      send_samples = push_sample m.send_ns rt.send_samples;
    } in
    let one = count_result-one result sampled in
    elim (Bool-cases (leb rt.next_log_time_ns m.now_ns)) [ inl e ↦ rw e one | inr e ↦ rw e one ]

-- A runtime after a message that is given to the producer.
noted-IsCounted :
    (m : Arrival) (value : List ℕ) (result : KafkaSendResult) (rt : SubscriptionRuntime)
    → IsCounted rt
    → IsCounted (note_sent m result (note_serialized m value rt))
unfolding note_serialized
noted-IsCounted m value result rt (counts, before, seq, a, b) =
    let noted = note_serialized m value rt in
    let (one, (format, msgs, number, samples, seen), sends) = note_sent-one m result noted in
    (
      (λ e. ground (arith, counts (sym format ∙ e), one, msgs)),
      (λ e.
          ap (λ (p : ℕ × ℕ). p.0 % u64_mod) seen
          ∙ before (sym format ∙ e)
          ∙ sym (ap (λ (p : ℕ × ℕ). p.1 % u64_mod) seen)),
      number ∙ ap (λ n. count n 1) seq ∙ sym msgs,
      subst (λ xs. length xs ≤ max_samples) (sym samples)
          (push_sample-bounded m.serialize_ns rt.serialize_samples a),
      subst (λ xs. length xs ≤ max_samples) (sym sends)
          (push_sample-bounded m.send_ns rt.send_samples b),
    )

abbrev pub AllCounted : List ActiveSubscription → Type 0
AllCounted subs = All (λ (a : ActiveSubscription). IsCounted a.runtime_state) subs

module _ (out : Outside) where
  payload_of-cdr :
      (rt : SubscriptionRuntime) (m : Arrival) (e : String)
      → payload_of out rt m ≡ fail e
      → ¬ (rt.payload_format ≡ cdr)
  unfolding payload_of
  payload_of-cdr rt m e q h = ground arith

  handle_message-IsCounted :
      (m : Arrival) (rt : SubscriptionRuntime) (o : ProducerObject)
      → IsCounted rt
      → IsCounted (handle_message out m rt o).1
  unfolding handle_message send_value count_failure
  handle_message-IsCounted m rt o h = split (payload_of out rt m) refl
    where
      split :
          (r : Outcome (List ℕ))
          → payload_of out rt m ≡ r
          → IsCounted
              (elim r as (λ _. Bool × SubscriptionRuntime × ProducerObject) [
                | ok value ↦ let (rt', o') = send_value out m value rt o in (false, rt', o')
                | fail e ↦ (false, count_failure rt, o)
                | thrown e ↦ (true, rt, o)
              ]).1
      split (ok value) q =
          noted-IsCounted m value (send out.kafka o.config (record_of m value rt) o.state).0 rt h
      split (fail e) q =
          let (counts, before, seq, a, b) = h in
          ((λ c. absurd (payload_of-cdr rt m e q c)), before, seq, a, b)
      split (thrown e) q = h

  pub deliver-AllCounted :
      (i : ℕ) (m : Arrival) (subs : List ActiveSubscription) (o : ProducerObject)
      → AllCounted subs
      → AllCounted (deliver out i m subs o).0
  unfolding deliver
  deliver-AllCounted zero m [] o h = h
  deliver-AllCounted (suc i) m [] o h = h
  deliver-AllCounted zero m (a ∷ rest) o (h, hs) =
      (handle_message-IsCounted m a.runtime_state o h, hs)
  deliver-AllCounted (suc i) m (a ∷ rest) o (h, hs) = (h, deliver-AllCounted i m rest o hs)

  subscription_of-IsCounted :
      (p : KafkaParameters) (c : SubscriptionConfig)
      → IsCounted (subscription_of out p c).runtime_state
  unfolding subscription_of runtime_of
  subscription_of-IsCounted p c = ground arith

  pub note_all_published-AllCounted :
      (subs : List ActiveSubscription)
      → AllCounted subs
      → AllCounted (note_all_published out.doubles subs)
  unfolding note_all_published note_published
  note_all_published-AllCounted [] h = tt
  note_all_published-AllCounted (a ∷ rest) ((counts, before, seq, c, d), hs) =
      ((counts, counts, seq, c, d), note_all_published-AllCounted rest hs)

  pub add_subscriptions-AllCounted :
      (cs : List SubscriptionConfig) (s : Sink)
      → AllCounted s.active_subscriptions
      → AllCounted (add_subscriptions out cs s).1.active_subscriptions
  unfolding add_subscriptions
  add_subscriptions-AllCounted [] s h = h
  add_subscriptions-AllCounted (c ∷ cs) s h =
      let added : Sink = record s {
        active_subscriptions =
            s.active_subscriptions ++ subscription_of out s.kafka_parameters c ∷ [];
      } in
      let one = subscription_of-IsCounted s.kafka_parameters c in
      let h' =
        All-append (λ (a : ActiveSubscription). IsCounted a.runtime_state) s.active_subscriptions
          (subscription_of out s.kafka_parameters c ∷ []) h (one, tt) in
      next added (out.create_subscription c.topic_name c.msg_type) h'
        (add_subscriptions-AllCounted cs added h')
    where
      next :
          (added : Sink) (r : Created)
          → AllCounted added.active_subscriptions
          → AllCounted (add_subscriptions out cs added).1.active_subscriptions
          → AllCounted
              (elim r as (λ _. Result) [
                | subscribed ↦ add_subscriptions out cs added
                | not_subscribed ↦ (ok false, added)
                | subscription_throws e ↦ (thrown e, added)
              ]).1.active_subscriptions
      next added subscribed h1 h2 = h2
      next added not_subscribed h1 h2 = h1
      next added (subscription_throws e) h1 h2 = h1
