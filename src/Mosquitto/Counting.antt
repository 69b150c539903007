-- ===== src/Mosquitto/Counting.antt =====
-- mosquitto_sink_node.cpp: what the subscriptions count, and the topics that they publish to.
use ros2_dispatcher.Prelude.{
  All, ℕ, zero, suc, ◌+◌, ◌%◌, ◌≤◌, String, Bool, true, false, Option, none, some, List, [], ◌∷◌,
  map, ◌≡◌, refl, sym, ap, ◌∙◌, arith, length,
}
use ros2_dispatcher.Producer.Types.{u64_mod}
use ros2_dispatcher.Controller.World.{Outcome, ok, fail, thrown}
use ros2_dispatcher.Sink.Accounting.{push_sample-bounded}
use ros2_dispatcher.Sink.Life.{either_or}
use ros2_dispatcher.Sink.Stream.{Arrival, count, larger, max_samples, push_sample}
use ros2_dispatcher.Sink.Types.{cdr}
use ros2_dispatcher.Mosquitto.Client.{MqttClient, publish}
use ros2_dispatcher.Mosquitto.Life.{runtime_of, subscription_of, look_again, stored}
use ros2_dispatcher.Mosquitto.Metrics.{note_published, note_all_published}
use ros2_dispatcher.Mosquitto.Names.{map_mqtt_topic}
use ros2_dispatcher.Mosquitto.Outside.{Outside}
use ros2_dispatcher.Mosquitto.Session.{deliver}
use ros2_dispatcher.Mosquitto.Serving.{IsServing, publish-IsServing}
use ros2_dispatcher.Mosquitto.Stream.{
  note_serialized, count_published, note_sent, count_failure, payload_of, publish_value,
  handle_message,
}
use ros2_dispatcher.Mosquitto.Types.{
  SubscriptionConfig, MqttParameters, SubscriptionRuntime, ActiveSubscription,
}

-- Where the messages of a subscription go.
abbrev pub Route : Type 0
Route = String × String × String

abbrev pub route_of : ActiveSubscription → Route
route_of a = (a.topic_name, a.msg_type, a.runtime_state.mqtt_topic)

abbrev pub route_for : MqttParameters → SubscriptionConfig → Route
route_for p c = (c.topic_name, c.msg_type, map_mqtt_topic p (either_or c.mqtt_name c.topic_name))

-- Each message of a CDR subscription is counted once, as sent or an error, and so it was when the
-- metrics were published last; nothing is dropped; the samples are those of the last thousand at most.
abbrev pub IsCounted : SubscriptionRuntime → Type 0
IsCounted rt =
    (rt.payload_format ≡ cdr → (rt.sent_ok + rt.errors) % u64_mod ≡ rt.msgs_total % u64_mod)
    × (rt.payload_format ≡ cdr
        → (rt.prev_sent_ok + rt.prev_errors) % u64_mod ≡ rt.prev_msgs_total % u64_mod)
    × (rt.dropped ≡ 0)
    × (length rt.serialize_samples ≤ max_samples)
    × (length rt.send_samples ≤ max_samples)

abbrev pub AllCounted : List ActiveSubscription → Type 0
AllCounted subs = All (λ (a : ActiveSubscription). IsCounted a.runtime_state) subs

note_sent-same :
    (m : Arrival) (e : Option String) (rt : SubscriptionRuntime)
    → let t : SubscriptionRuntime = note_sent m e rt in
      ((t.sent_ok + t.errors) % u64_mod ≡ (rt.sent_ok + rt.errors + 1) % u64_mod)
      × (t ≡ record rt {
        next_log_time_ns = t.next_log_time_ns;
        sent_ok = t.sent_ok;
        errors = t.errors;
        send_time_ns_accum = count rt.send_time_ns_accum m.send_ns;
        send_time_ns_max = larger rt.send_time_ns_max m.send_ns;
        send_samples = push_sample m.send_ns rt.send_samples;
      })
unfolding note_sent count_published
note_sent-same m none rt = ground arith
note_sent-same m (some e) rt = ground arith

noted-IsCounted :
    (m : Arrival) (value : List ℕ) (e : Option String) (rt : SubscriptionRuntime)
    → IsCounted rt
    → IsCounted (note_sent m e (note_serialized m value rt))
unfolding note_serialized
noted-IsCounted m value e rt (counts, before, dropped, a, b) =
    let (one, same) = note_sent-same m e (note_serialized m value rt) in
    let same_format = ap (λ (x : SubscriptionRuntime). x.payload_format) same in
    let same_total = ap (λ (x : SubscriptionRuntime). x.msgs_total) same in
    (
      (λ c. ground (arith, counts (sym same_format ∙ c), one, same_total)),
      (λ c. rw same (before (sym same_format ∙ c))),
      rw same dropped,
      rw same (push_sample-bounded m.serialize_ns rt.serialize_samples a),
      rw same (push_sample-bounded m.send_ns rt.send_samples b),
    )

module _ (out : Outside) where
  payload_of-cdr :
      (rt : SubscriptionRuntime) (m : Arrival) (e : String)
      → payload_of out rt m ≡ fail e
      → ¬ (rt.payload_format ≡ cdr)
  unfolding payload_of
  payload_of-cdr rt m e q h = ground arith

  -- What a message does to the books, the topic and the client.
  abbrev Handled : MqttParameters → SubscriptionRuntime → SubscriptionRuntime → MqttClient → Type 0
  Handled p rt t c =
      (t.mqtt_topic ≡ rt.mqtt_topic) × (IsCounted rt → IsCounted t) × IsServing out.paho p c

  publish_value-Handled :
      (p : MqttParameters) (m : Arrival) (value : List ℕ) (rt : SubscriptionRuntime)
      (c : MqttClient)
      → IsServing out.paho p c
      → Handled p rt (publish_value out p m value rt c).0 (publish_value out p m value rt c).1
  unfolding publish_value note_serialized
  publish_value-Handled p m value rt c h =
      let noted = note_serialized m value rt in
      let e = (publish out.paho rt.mqtt_topic value p.qos p.retain c).0 in
      (
        ap (λ (x : SubscriptionRuntime). x.mqtt_topic) (note_sent-same m e noted).1,
        noted-IsCounted m value e rt,
        publish-IsServing out.paho p rt.mqtt_topic value c h,
      )

  count_failure-IsCounted :
      (rt : SubscriptionRuntime)
      → ¬ (rt.payload_format ≡ cdr)
      → IsCounted rt
      → IsCounted (count_failure rt)
  unfolding count_failure
  count_failure-IsCounted rt other (counts, before, dropped, a, b) =
      ((λ c. absurd (other c)), before, dropped, a, b)

  handle_message-Handled :
      (p : MqttParameters) (m : Arrival) (rt : SubscriptionRuntime) (c : MqttClient)
      → IsServing out.paho p c
      → Handled p rt (handle_message out p m rt c).1 (handle_message out p m rt c).2
  unfolding handle_message
  handle_message-Handled p m rt c h = split (payload_of out rt m) (payload_of-cdr rt m)
    where
      split :
          (r : Outcome (List ℕ))
          → ((e : String) → r ≡ fail e → ¬ (rt.payload_format ≡ cdr))
          → let after : Bool × SubscriptionRuntime × MqttClient = elim r [
            | ok value ↦ let (rt', c') = publish_value out p m value rt c in (false, rt', c')
            | fail e ↦ (false, count_failure rt, c)
            | thrown e ↦ (true, rt, c)
          ] in
            Handled p rt after.1 after.2
      split (ok value) q = publish_value-Handled p m value rt c h
      split (fail e) q = (refl, count_failure-IsCounted rt (q e refl), h)
      split (thrown e) q = (refl, (λ k. k), h)

  pub deliver-Handled :
      (p : MqttParameters) (i : ℕ) (m : Arrival) (subs : List ActiveSubscription) (c : MqttClient)
      → IsServing out.paho p c
      → AllCounted subs
      → let (subs', c') = deliver out p i m subs c in
        (map route_of subs' ≡ map route_of subs) × AllCounted subs' × IsServing out.paho p c'
  unfolding deliver
  deliver-Handled p zero m [] c h k = (refl, k, h)
  deliver-Handled p (suc i) m [] c h k = (refl, k, h)
  deliver-Handled p zero m (a ∷ rest) c h (k, ks) =
      let (route, counted, serving) = handle_message-Handled p m a.runtime_state c h in
      (ap (λ t. (a.topic_name, a.msg_type, t) ∷ map route_of rest) route, (counted k, ks), serving)
  deliver-Handled p (suc i) m (a ∷ rest) c h (k, ks) =
      let (routes, counted, serving) = deliver-Handled p i m rest c h ks in
      (ap (λ rs. route_of a ∷ rs) routes, (k, counted), serving)

  -- A subscription before its first message.
  abbrev pub Fresh : MqttParameters → SubscriptionConfig → ActiveSubscription → Type 0
  Fresh p config a = (route_of a ≡ route_for p config) × IsCounted a.runtime_state

  pub subscription_of-Fresh :
      (p : MqttParameters) (config : SubscriptionConfig)
      → Fresh p config (subscription_of out p config)
  unfolding subscription_of runtime_of
  subscription_of-Fresh p config = ground arith

  pub look_again-Fresh :
      (p : MqttParameters) (config : SubscriptionConfig)
      → let a = subscription_of out p config in
        Fresh p config (stored (look_again out a.runtime_state) a)
  unfolding subscription_of runtime_of look_again
  look_again-Fresh p config = ground arith

pub note_all_published-Fair :
    (subs : List ActiveSubscription)
    → AllCounted subs
    → (map route_of (note_all_published subs) ≡ map route_of subs)
      × AllCounted (note_all_published subs)
unfolding note_all_published note_published
note_all_published-Fair [] h = (refl, tt)
note_all_published-Fair (a ∷ rest) ((counts, before, dropped, c, d), hs) =
    let (routes, counted) = note_all_published-Fair rest hs in
    (ap (λ rs. route_of a ∷ rs) routes, ((counts, counts, dropped, c, d), counted))
