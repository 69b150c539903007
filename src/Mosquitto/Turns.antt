-- ===== src/Mosquitto/Turns.antt =====
-- mosquitto_sink_node.cpp: what messages, reports and the callbacks of Paho leave of the node.
use ros2_dispatcher.Prelude.{
  ℕ, String, Bool, true, false, not, ◌||◌, ◌⊎◌, Option, none, some, map, ◌≡◌, refl, sym, subst, ◌∙◌,
  arith, if◌then◌else◌, inl, inr, Option-cases,
}
use ros2_dispatcher.Controller.Types.{
  LifecycleState, unconfigured, inactive, active, finalized, other_state,
}
use ros2_dispatcher.Controller.World.{Outcome, ok}
use ros2_dispatcher.Sink.Stream.{Arrival}
use ros2_dispatcher.Mosquitto.Client.{MqttClient}
use ros2_dispatcher.Mosquitto.Counting.{route_of, deliver-Handled, note_all_published-Fair}
use ros2_dispatcher.Mosquitto.Facts.{StateFacts, NodeFacts}
use ros2_dispatcher.Mosquitto.Metrics.{note_all_published, publish_metrics}
use ros2_dispatcher.Mosquitto.Outside.{Outside}
use ros2_dispatcher.Mosquitto.Serving.{IsServing}
use ros2_dispatcher.Mosquitto.Session.{deliver, on_client, on_message, on_metrics}
use ros2_dispatcher.Mosquitto.Types.{MqttParameters, MosquittoSink}

module _ (out : Outside) where
  on_message-closed :
      (i : ℕ) (m : Arrival) (s : MosquittoSink) → s.is_active ≡ false → on_message out i m s ≡ s
  unfolding on_message
  on_message-closed i m s shut = rw shut refl

  on_message-open :
      (i : ℕ) (m : Arrival) (s : MosquittoSink) (c : MqttClient)
      → s.is_active ≡ true
      → s.mqtt_runtime ≡ some c
      → on_message out i m s ≡ record s {
        active_subscriptions = (deliver out s.mqtt_parameters i m s.active_subscriptions c).0;
        mqtt_runtime = some (deliver out s.mqtt_parameters i m s.active_subscriptions c).1;
      }
  unfolding on_message
  on_message-open i m s c opened has = ground arith

  -- Where the callbacks are closed, a message changes nothing.
  ignored :
      (p : LifecycleState) (i : ℕ) (m : Arrival) (s : MosquittoSink)
      → s.is_active ≡ false
      → NodeFacts out (p, s)
      → NodeFacts out (p, on_message out i m s)
  ignored p i m s shut h = subst (λ t. NodeFacts out (p, t)) (sym (on_message-closed i m s shut)) h

  pub on_message-facts :
      (p : LifecycleState) (i : ℕ) (m : Arrival) (s : MosquittoSink)
      → NodeFacts out (p, s)
      → NodeFacts out (p, on_message out i m s)
  on_message-facts active i m s ((valid, counted, closed), (c, opened, has, serving, routes)) =
      let (kept, counted', still) =
        deliver-Handled out s.mqtt_parameters i m s.active_subscriptions c serving counted in
      subst (λ t. NodeFacts out (active, t)) (sym (on_message-open i m s c opened has))
        (
          (valid, counted', closed),
          (
            (deliver out s.mqtt_parameters i m s.active_subscriptions c).1,
            opened,
            refl,
            still,
            kept ∙ routes,
          ),
        )
  on_message-facts unconfigured i m s h = ignored unconfigured i m s h.1.0 h
  on_message-facts inactive i m s h = ignored inactive i m s h.1.0 h
  on_message-facts finalized i m s h = ignored finalized i m s h.1 h
  on_message-facts (other_state n) i m s h = ignored (other_state n) i m s h.1 h

  on_client-same :
      (f : MqttClient → MqttClient) (s : MosquittoSink)
      → on_client f s ≡ record s { mqtt_runtime = (on_client f s).mqtt_runtime }
  unfolding on_client
  on_client-same f s = elim (Option-cases s.mqtt_runtime) [
    | inl e ↦ ground arith
    | inr (c, e) ↦ ground arith
  ]

  on_client-none :
      (f : MqttClient → MqttClient) (s : MosquittoSink)
      → s.mqtt_runtime ≡ none
      → (on_client f s).mqtt_runtime ≡ none
  unfolding on_client
  on_client-none f s e = ground arith

  on_client-some :
      (f : MqttClient → MqttClient) (s : MosquittoSink) (c : MqttClient)
      → s.mqtt_runtime ≡ some c
      → (on_client f s).mqtt_runtime ≡ some (f c)
  unfolding on_client
  on_client-some f s c e = ground arith

  -- A callback of Paho that keeps what the client serves.
  pub on_client-facts :
      (f : MqttClient → MqttClient) (p : LifecycleState) (s : MosquittoSink)
      → ((q : MqttParameters) (c : MqttClient)
          → IsServing out.paho q c
          → IsServing out.paho q (f c))
      → NodeFacts out (p, s)
      → NodeFacts out (p, on_client f s)
  on_client-facts f p s keeps (common, h) =
      subst (λ t. NodeFacts out (p, t)) (sym (on_client-same f s)) (common, next p h)
    where
      next :
          (q : LifecycleState)
          → StateFacts out q s
          → StateFacts out q (record s { mqtt_runtime = (on_client f s).mqtt_runtime })
      next active (c, opened, has, serving, routes) =
          (f c, opened, on_client-some f s c has, keeps s.mqtt_parameters c serving, routes)
      next unconfigured (shut, gone) = (shut, on_client-none f s gone)
      next inactive (shut, gone) = (shut, on_client-none f s gone)
      next finalized shut = shut
      next (other_state n) shut = shut

  on_metrics-same :
      (s : MosquittoSink)
      → (on_metrics out s ≡ s)
        ⊎ (on_metrics out s
            ≡ record s { active_subscriptions = note_all_published s.active_subscriptions })
  unfolding on_metrics publish_metrics
  on_metrics-same s = split s.metrics_enabled s.metrics_pub _
    where
      split :
          (enabled publisher : Bool) (x : Outcome (Option String))
          → let t : MosquittoSink = record s {
            active_subscriptions = note_all_published s.active_subscriptions;
          } in
            let r : Outcome (Option String) × MosquittoSink =
              if not enabled || not publisher then (ok none, s) else (x, t) in
            (r.1 ≡ s) ⊎ (r.1 ≡ t)
      split false b x = inl refl
      split true false x = inl refl
      split true true x = inr refl

  published-facts :
      (p : LifecycleState) (s : MosquittoSink)
      → NodeFacts out (p, s)
      → NodeFacts out
          (p, record s { active_subscriptions = note_all_published s.active_subscriptions })
  published-facts p s ((valid, counted, closed), h) =
      let (routes, counted') = note_all_published-Fair s.active_subscriptions counted in
      ((valid, counted', closed), next p routes h)
    where
      next :
          (q : LifecycleState)
          → map route_of (note_all_published s.active_subscriptions)
            ≡ map route_of s.active_subscriptions
          → StateFacts out q s
          → StateFacts out q
              (record s { active_subscriptions = note_all_published s.active_subscriptions })
      next active same (c, opened, has, serving, routes) = (c, opened, has, serving, same ∙ routes)
      next unconfigured same k = k
      next inactive same k = k
      next finalized same k = k
      next (other_state n) same k = k

  pub on_metrics-facts :
      (p : LifecycleState) (s : MosquittoSink)
      → NodeFacts out (p, s)
      → NodeFacts out (p, on_metrics out s)
  on_metrics-facts p s h = elim (on_metrics-same s) [
    | inl e ↦ subst (λ t. NodeFacts out (p, t)) (sym e) h
    | inr e ↦ subst (λ t. NodeFacts out (p, t)) (sym e) (published-facts p s h)
  ]
