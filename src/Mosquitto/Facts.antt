-- ===== src/Mosquitto/Facts.antt =====
-- mosquitto_sink_node.cpp: what holds of mosquitto_sink in each state, and what the loop of
-- build_subscriptions leaves.
use mathlib.Core.List.{append_assoc, append-nil, map-append}
use ros2_dispatcher.Prelude.{
  All, All-append, true, false, none, some, List, [], ◌∷◌, ◌++◌, map, ◌≡◌, refl, ap, ◌∙◌,
}
use ros2_dispatcher.Controller.Types.{
  LifecycleState, unconfigured, inactive, active, finalized, other_state,
}
use ros2_dispatcher.Controller.World.{ok, fail, thrown}
use ros2_dispatcher.Sink.Outside.{Created, subscribed, not_subscribed, subscription_throws}
use ros2_dispatcher.Mosquitto.Client.{MqttClient}
use ros2_dispatcher.Mosquitto.Counting.{
  IsCounted, AllCounted, route_of, route_for, Fresh, Route, subscription_of-Fresh, look_again-Fresh,
}
use ros2_dispatcher.Mosquitto.Guards.{HasChecked}
use ros2_dispatcher.Mosquitto.Life.{subscription_of, look_again, stored, add_subscriptions, Result}
use ros2_dispatcher.Mosquitto.Outside.{Outside}
use ros2_dispatcher.Mosquitto.Serving.{IsServing, IsClosed}
use ros2_dispatcher.Mosquitto.Types.{SubscriptionConfig, ActiveSubscription, MosquittoSink}

module _ (out : Outside) where
  abbrev pub routes_of : MosquittoSink → List Route
  routes_of s = map (route_for s.mqtt_parameters) s.configured_subscriptions

  -- In `active` the callbacks are open, there is a client of the broker of the settings, and the
  -- subscriptions are those configured, each with the MQTT topic that the settings give it. In the
  -- states before it there is no client.
  abbrev pub StateFacts : LifecycleState → MosquittoSink → Type 0
  StateFacts active s =
      (c : MqttClient) × (s.is_active ≡ true)
      × (s.mqtt_runtime ≡ some c)
      × IsServing out.paho s.mqtt_parameters c
      × (map route_of s.active_subscriptions ≡ routes_of s)
  StateFacts unconfigured s = (s.is_active ≡ false) × (s.mqtt_runtime ≡ none)
  StateFacts inactive s = (s.is_active ≡ false) × (s.mqtt_runtime ≡ none)
  StateFacts finalized s = s.is_active ≡ false
  StateFacts (other_state n) s = s.is_active ≡ false

  -- In every state the settings are checked, the subscriptions have counted their messages, and the
  -- clients that were let go are closed.
  abbrev pub CommonFacts : MosquittoSink → Type 0
  CommonFacts s =
      HasChecked s × AllCounted s.active_subscriptions × All (IsClosed out.paho) s.retired

  abbrev pub NodeFacts : LifecycleState × MosquittoSink → Type 0
  NodeFacts (p, s) = CommonFacts s × StateFacts p s

  abbrev SameBut : MosquittoSink → MosquittoSink → Type 0
  SameBut s t = t ≡ record s { active_subscriptions = t.active_subscriptions }

  -- What the loop of build_subscriptions leaves.
  abbrev pub Built : List SubscriptionConfig → MosquittoSink → Result → Type 0
  Built cs s (ok true, t) =
      SameBut s t
      × AllCounted t.active_subscriptions
      × (map route_of t.active_subscriptions
          ≡ map route_of s.active_subscriptions ++ map (route_for s.mqtt_parameters) cs)
  Built cs s (_, t) = SameBut s t × AllCounted t.active_subscriptions

  abbrev extended : ActiveSubscription → MosquittoSink → MosquittoSink
  extended a s = record s { active_subscriptions = s.active_subscriptions ++ a ∷ [] }

  extended-AllCounted :
      (c : SubscriptionConfig) (a : ActiveSubscription) (s : MosquittoSink)
      → Fresh out s.mqtt_parameters c a
      → AllCounted s.active_subscriptions
      → AllCounted (extended a s).active_subscriptions
  extended-AllCounted c a s (route, one) h =
      All-append (λ (a : ActiveSubscription). IsCounted a.runtime_state) s.active_subscriptions
        (a ∷ []) h (one, tt)

  Built-extended :
      (c : SubscriptionConfig) (cs : List SubscriptionConfig) (a : ActiveSubscription)
      (s : MosquittoSink) (r : Result)
      → Fresh out s.mqtt_parameters c a
      → Built cs (extended a s) r
      → Built (c ∷ cs) s r
  Built-extended c cs a s (ok true, t) (route, one) (same, counted, routes) = (
    same,
    counted,
    routes
        ∙ ap (λ rs. rs ++ map (route_for s.mqtt_parameters) cs)
            (map-append route_of s.active_subscriptions (a ∷ []))
        ∙ append_assoc (map route_of s.active_subscriptions) (route_of a ∷ [])
            (map (route_for s.mqtt_parameters) cs)
        ∙ ap (λ r. map route_of s.active_subscriptions ++ r ∷ map (route_for s.mqtt_parameters) cs)
            route,
  )
  Built-extended c cs a s (ok false, t) fresh same = same
  Built-extended c cs a s (fail e, t) fresh same = same
  Built-extended c cs a s (thrown e, t) fresh same = same

  pub add_subscriptions-Built :
      (cs : List SubscriptionConfig) (s : MosquittoSink)
      → AllCounted s.active_subscriptions
      → Built cs s (add_subscriptions out cs s)
  unfolding add_subscriptions
  add_subscriptions-Built [] s h = (refl, h, simp append-nil)
  add_subscriptions-Built (c ∷ cs) s h =
      let a = subscription_of out s.mqtt_parameters c in
      let found = stored (look_again out a.runtime_state) a in
      let fresh = look_again-Fresh out s.mqtt_parameters c in
      next (out.create_subscription c.topic_name c.msg_type)
        (extended-AllCounted c a s (subscription_of-Fresh out s.mqtt_parameters c) h)
        (Built-extended c cs found s (add_subscriptions out cs (extended found s)) fresh
          (add_subscriptions-Built cs (extended found s) (extended-AllCounted c found s fresh h)))
    where
      next :
          let a = subscription_of out s.mqtt_parameters c in
          let found = stored (look_again out a.runtime_state) a in
          (r : Created)
          → AllCounted (extended a s).active_subscriptions
          → Built (c ∷ cs) s (add_subscriptions out cs (extended found s))
          → Built (c ∷ cs) s (elim r as (λ _. Result) [
            | subscribed ↦ add_subscriptions out cs (extended found s)
            | not_subscribed ↦ (ok false, extended a s)
            | subscription_throws e ↦ (thrown e, extended a s)
          ])
      next subscribed k h' = h'
      next not_subscribed k h' = (refl, k)
      next (subscription_throws e) k h' = (refl, k)
