-- ===== src/Sink/Agreement.antt =====
-- kafka_sink_node.cpp with producer.cpp: the counters of the subscriptions against those of the
-- producer that they share.
use ros2_dispatcher.Prelude.{
  ℕ, zero, suc, ◌+◌, ◌%◌, ◌≡◌, refl, sym, subst, true, List, [], ◌∷◌, arith, length, length-append,
  All,
}
use ros2_dispatcher.Producer.Types.{
  KafkaSendResult, QueuedRecord, KafkaProducerConfig, Librdkafka, State, u64_mod,
}
use ros2_dispatcher.Producer.Ops.{
  send, try_produce_locked, after_produce, buffer_record, is_queue_full, count_dropped,
}
use ros2_dispatcher.Sink.Types.{cdr, SubscriptionRuntime, ActiveSubscription, ProducerObject}
use ros2_dispatcher.Sink.Outside.{Outside}
use ros2_dispatcher.Sink.Stream.{
  Arrival, note_serialized, count_result, note_sent, record_of, payload_of, send_value,
  handle_message,
}
use ros2_dispatcher.Sink.Session.{deliver}

-- The sums of the counters of the subscriptions.
abbrev pub all_sent : List ActiveSubscription → ℕ
all_sent [] = 0
all_sent (a ∷ rest) = a.runtime_state.sent_ok + all_sent rest

abbrev pub all_dropped : List ActiveSubscription → ℕ
all_dropped [] = 0
all_dropped (a ∷ rest) = a.runtime_state.dropped + all_dropped rest

abbrev pub all_errors : List ActiveSubscription → ℕ
all_errors [] = 0
all_errors (a ∷ rest) = a.runtime_state.errors + all_errors rest

-- The records that the producer has failed to send, or that wait in it.
abbrev pub failed_or_waiting : State → ℕ
failed_or_waiting s = s.send_errors + length s.pending_records

-- What the subscriptions have counted more is what the producer has counted more, where a record
-- that failed or waits there is an error here.
pub record Agrees (subs subs' : List ActiveSubscription) (s s' : State) : Type 0 where
  pub same_sent : (all_sent subs' + s.sent_ok) % u64_mod ≡ (all_sent subs + s'.sent_ok) % u64_mod
  pub same_dropped :
      (all_dropped subs' + s.dropped_queue_full) % u64_mod
      ≡ (all_dropped subs + s'.dropped_queue_full) % u64_mod
  pub same_errors :
      (all_errors subs' + failed_or_waiting s) % u64_mod
      ≡ (all_errors subs + failed_or_waiting s') % u64_mod

abbrev with_runtime : ActiveSubscription → SubscriptionRuntime → ActiveSubscription
with_runtime a rt = record a { runtime_state = rt }

module _ (kafka : Librdkafka) (c : KafkaProducerConfig) where
  send-Agrees :
      (r : QueuedRecord) (s : State) (rt : SubscriptionRuntime) (a : ActiveSubscription)
      → s.is_running ≡ true
      → Agrees
          (with_runtime a rt ∷ [])
          (with_runtime a (count_result (send kafka c r s).0 rt) ∷ [])
          s
          (send kafka c r s).1
  unfolding send try_produce_locked after_produce buffer_record is_queue_full count_dropped
      count_result
  send-Agrees r s rt a h = record {
    same_sent = ground (arith, length-append s.pending_records (r ∷ []));
    same_dropped = ground (arith, length-append s.pending_records (r ∷ []));
    same_errors = ground (arith, length-append s.pending_records (r ∷ []));
  }

-- The parts of the callback around the result leave these counters.
abbrev SameCounters : SubscriptionRuntime → SubscriptionRuntime → Type 0
SameCounters rt t = (t.sent_ok ≡ rt.sent_ok) × (t.dropped ≡ rt.dropped) × (t.errors ≡ rt.errors)

note_sent-SameCounters :
    (m : Arrival) (value : List ℕ) (result : KafkaSendResult) (rt : SubscriptionRuntime)
    → SameCounters (count_result result rt) (note_sent m result (note_serialized m value rt))
unfolding note_sent note_serialized count_result
note_sent-SameCounters m value result rt = ground arith

module _ (out : Outside) where
  handle_message-cdr :
      (m : Arrival) (rt : SubscriptionRuntime) (o : ProducerObject)
      → rt.payload_format ≡ cdr
      → ((handle_message out m rt o).1 ≡ (send_value out m m.bytes rt o).0)
        × ((handle_message out m rt o).2 ≡ (send_value out m m.bytes rt o).1)
  unfolding handle_message payload_of
  handle_message-cdr m rt o h = ground arith

  send_value-Agrees :
      (m : Arrival) (value : List ℕ) (a : ActiveSubscription) (rest : List ActiveSubscription)
      (o : ProducerObject)
      → o.state.is_running ≡ true
      → Agrees
          (a ∷ rest)
          (with_runtime a (send_value out m value a.runtime_state o).0 ∷ rest)
          o.state
          (send_value out m value a.runtime_state o).1.state
  unfolding send_value
  send_value-Agrees m value a rest o h =
      let rt = a.runtime_state in
      let r = record_of m value rt in
      let one = send-Agrees out.kafka o.config r o.state rt a h in
      let result = (send out.kafka o.config r o.state).0 in
      let (sent, dropped, errors) = note_sent-SameCounters m value result rt in
      record {
        same_sent = ground (arith, one.same_sent, sent);
        same_dropped = ground (arith, one.same_dropped, dropped);
        same_errors = ground (arith, one.same_errors, errors);
      }

  -- A message for a node whose subscriptions all send CDR, with a running producer: the sums of what
  -- the subscriptions count as sent and as dropped grow by as much as the producer's counters, and
  -- the sum of their errors by as much as the producer's failures and the records that wait in it.
  pub deliver-Agrees :
      (i : ℕ) (m : Arrival) (subs : List ActiveSubscription) (o : ProducerObject)
      → All (λ (a : ActiveSubscription). a.runtime_state.payload_format ≡ cdr) subs
      → o.state.is_running ≡ true
      → Agrees subs (deliver out i m subs o).0 o.state (deliver out i m subs o).1.state
  unfolding deliver
  deliver-Agrees zero m [] o h g = record {
    same_sent = refl;
    same_dropped = refl;
    same_errors = refl;
  }
  deliver-Agrees (suc i) m [] o h g = record {
    same_sent = refl;
    same_dropped = refl;
    same_errors = refl;
  }
  deliver-Agrees zero m (a ∷ rest) o h g =
      let (runtime, object) = handle_message-cdr m a.runtime_state o h.0 in
      subst
        (λ (rt : SubscriptionRuntime).
          Agrees (a ∷ rest) (with_runtime a rt ∷ rest) o.state
            (handle_message out m a.runtime_state o).2.state)
        (sym runtime)
        (subst
          (λ (p : ProducerObject).
            Agrees (a ∷ rest) (with_runtime a (send_value out m m.bytes a.runtime_state o).0 ∷ rest)
              o.state p.state)
          (sym object) (send_value-Agrees m m.bytes a rest o g))
  deliver-Agrees (suc i) m (a ∷ rest) o h g =
      let later = deliver-Agrees i m rest o h.1 g in
      record {
        same_sent = ground (arith, later.same_sent);
        same_dropped = ground (arith, later.same_dropped);
        same_errors = ground (arith, later.same_errors);
      }
