-- ===== src/Sink/Serving.antt =====
-- What holds of kafka_sink in each state of its lifecycle.
use ros2_dispatcher.Prelude.{
  ℕ, zero, suc, String, Bool, true, false, List, [], ◌∷◌, map, ◌≡◌, refl, ap, ◌∙◌, arith,
}
use ros2_dispatcher.Producer.Types.{KafkaProducerConfig, QueuedRecord, State, Librdkafka}
use ros2_dispatcher.Producer.Ops.{
  send, try_produce_locked, after_produce, buffer_record, count_dropped, drain, connect,
  create_producer_locked, update_last_error_locked, poll_round,
}
use ros2_dispatcher.Controller.World.{Outcome, ok, fail, thrown}
use ros2_dispatcher.Sink.Types.{
  SubscriptionConfig, KafkaParameters, SubscriptionRuntime, ActiveSubscription, ProducerObject,
}
use ros2_dispatcher.Sink.Outside.{Outside}
use ros2_dispatcher.Sink.Names.{map_kafka_topic}
use ros2_dispatcher.Sink.Settings.{build_producer_config}
use ros2_dispatcher.Sink.Stream.{
  Arrival, note_serialized, record_of, note_sent, count_result, count_failure, payload_of,
  send_value, handle_message,
}
use ros2_dispatcher.Sink.Life.{either_or, runtime_of, subscription_of}
use ros2_dispatcher.Sink.Session.{deliver}

module _ (kafka : Librdkafka) (c : KafkaProducerConfig) where
  pub send-running : (r : QueuedRecord) (s : State) → (send kafka c r s).1.is_running ≡ s.is_running
  unfolding send try_produce_locked after_produce buffer_record count_dropped
  send-running r s = ground arith

  drain-running :
      (rs : List QueuedRecord) (s : State) → (drain kafka c rs s).is_running ≡ s.is_running
  unfolding drain try_produce_locked after_produce count_dropped
  drain-running [] s = refl
  drain-running (r ∷ rs) s =
      let s' = (try_produce_locked kafka r s).1 in
      ground (arith, drain-running rs s', drain-running rs (count_dropped s'))

  connect-running : (s : State) → (connect kafka c s).is_running ≡ s.is_running
  unfolding connect create_producer_locked update_last_error_locked
  connect-running s = ground arith

  pub poll_round-running : (s : State) → (poll_round kafka c s).is_running ≡ s.is_running
  unfolding poll_round
  poll_round-running s =
      let s' = connect kafka c s in
      ground (arith, connect-running s, drain-running s'.pending_records s')

-- Where a subscription's messages go: its topic and type, the Kafka topic and the key.
abbrev pub Route : Type 0
Route = String × String × String × List ℕ

abbrev pub route_of : ActiveSubscription → Route
route_of a =
    (a.topic_name, a.msg_type, a.runtime_state.kafka_topic, a.runtime_state.message_key_bytes)

abbrev pub route_for : (String → List ℕ) → KafkaParameters → SubscriptionConfig → Route
route_for utf8 p c = (
  c.topic_name,
  c.msg_type,
  map_kafka_topic p (either_or c.kafka_name c.topic_name),
  utf8 (either_or c.kafka_key p.message_key),
)

module _ (out : Outside) where
  -- The producer runs with the node's settings.
  abbrev pub IsServing : KafkaParameters → ProducerObject → Type 0
  IsServing p o = (o.state.is_running ≡ true) × (o.config ≡ build_producer_config p)

  abbrev SameRoute : SubscriptionRuntime → SubscriptionRuntime → Type 0
  SameRoute r t = (t.kafka_topic ≡ r.kafka_topic) × (t.message_key_bytes ≡ r.message_key_bytes)

  note-SameRoute :
      (m : Arrival) (value : List ℕ) (rt : SubscriptionRuntime) (o : ProducerObject)
      → SameRoute rt (send_value out m value rt o).0
  unfolding send_value note_serialized note_sent count_result
  note-SameRoute m value rt o = ground arith

  send_value-IsServing :
      (p : KafkaParameters) (m : Arrival) (value : List ℕ) (rt : SubscriptionRuntime)
      (o : ProducerObject)
      → IsServing p o
      → IsServing p (send_value out m value rt o).1
  unfolding send_value
  send_value-IsServing p m value rt o h =
      (send-running out.kafka o.config (record_of m value rt) o.state ∙ h.0, h.1)

  handle_message-kept :
      (p : KafkaParameters) (m : Arrival) (rt : SubscriptionRuntime) (o : ProducerObject)
      → IsServing p o
      → SameRoute rt (handle_message out m rt o).1 × IsServing p (handle_message out m rt o).2
  unfolding handle_message count_failure
  handle_message-kept p m rt o h = split (payload_of out rt m)
    where
      split :
          (r : Outcome (List ℕ))
          → SameRoute rt
              (elim r as (λ _. Bool × SubscriptionRuntime × ProducerObject) [
                | ok value ↦ let (rt', o') = send_value out m value rt o in (false, rt', o')
                | fail e ↦ (false, count_failure rt, o)
                | thrown e ↦ (true, rt, o)
              ]).1
            × IsServing p
                (elim r as (λ _. Bool × SubscriptionRuntime × ProducerObject) [
                  | ok value ↦ let (rt', o') = send_value out m value rt o in (false, rt', o')
                  | fail e ↦ (false, count_failure rt, o)
                  | thrown e ↦ (true, rt, o)
                ]).2
      split (ok value) = (note-SameRoute m value rt o, send_value-IsServing p m value rt o h)
      split (fail e) = ((refl, refl), h)
      split (thrown e) = ((refl, refl), h)

  pub deliver-kept :
      (p : KafkaParameters) (i : ℕ) (m : Arrival) (subs : List ActiveSubscription)
      (o : ProducerObject)
      → IsServing p o
      → (map route_of (deliver out i m subs o).0 ≡ map route_of subs)
        × IsServing p (deliver out i m subs o).1
  unfolding deliver
  deliver-kept p zero m [] o h = (refl, h)
  deliver-kept p (suc i) m [] o h = (refl, h)
  deliver-kept p zero m (a ∷ rest) o h =
      let (route, serving) = handle_message-kept p m a.runtime_state o h in
      (rw (route.0, route.1) refl, serving)
  deliver-kept p (suc i) m (a ∷ rest) o h =
      let (routes, serving) = deliver-kept p i m rest o h in
      (ap (λ rs. route_of a ∷ rs) routes, serving)

  pub subscription_of-route :
      (p : KafkaParameters) (c : SubscriptionConfig)
      → route_of (subscription_of out p c) ≡ route_for out.utf8 p c
  unfolding subscription_of runtime_of
  subscription_of-route p c = ground arith
