-- ===== src/Sink/Facts.antt =====
-- The states of kafka_sink over any session: the facts, and that each step keeps them.
use mathlib.Core.List.{append_assoc, append-nil, map-append}
use ros2_dispatcher.Prelude.{
  ℕ, String, true, false, none, some, List, [], ◌∷◌, ◌++◌, map, ◌≡◌, refl, ap, ◌∙◌,
}
use ros2_dispatcher.Controller.Types.{
  LifecycleState, unconfigured, inactive, active, finalized, other_state,
}
use ros2_dispatcher.Controller.World.{ok, fail, thrown}
use ros2_dispatcher.Sink.Types.{SubscriptionConfig, ProducerObject, Sink}
use ros2_dispatcher.Sink.Outside.{Outside, Created, subscribed, not_subscribed, subscription_throws}
use ros2_dispatcher.Sink.Life.{subscription_of, add_subscriptions, Result}
use ros2_dispatcher.Sink.Guards.{HasValidSettings}
use ros2_dispatcher.Sink.Serving.{route_of, route_for, IsServing, subscription_of-route}

module _ (out : Outside) where
  abbrev pub routes_of : Sink → List (String × String × String × List ℕ)
  routes_of s = map (route_for out.utf8 s.kafka_parameters) s.configured_subscriptions

  -- In `active` the callbacks are open, the producer runs with the node's settings, and the
  -- subscriptions are those configured, each with the Kafka topic and the key that the settings
  -- give it. In the states before it there is no producer.
  abbrev pub StateFacts : LifecycleState → Sink → Type 0
  StateFacts active s =
      (o : ProducerObject) × (s.is_active ≡ true)
      × (s.kafka_producer ≡ some o)
      × IsServing out s.kafka_parameters o
      × (map route_of s.active_subscriptions ≡ routes_of s)
  StateFacts unconfigured s = (s.is_active ≡ false) × (s.kafka_producer ≡ none)
  StateFacts inactive s = (s.is_active ≡ false) × (s.kafka_producer ≡ none)
  StateFacts finalized s = s.is_active ≡ false
  StateFacts (other_state n) s = s.is_active ≡ false

  abbrev pub SinkFacts : LifecycleState × Sink → Type 0
  SinkFacts (p, s) = HasValidSettings s × StateFacts p s

  -- What the loop of build_subscriptions leaves.
  abbrev pub Built : List SubscriptionConfig → Sink → Result → Type 0
  Built cs s (ok true, t) =
      (t ≡ record s { active_subscriptions = t.active_subscriptions })
      × (map route_of t.active_subscriptions
          ≡ map route_of s.active_subscriptions ++ map (route_for out.utf8 s.kafka_parameters) cs)
  Built cs s (_, t) = t ≡ record s { active_subscriptions = t.active_subscriptions }

  abbrev extended : SubscriptionConfig → Sink → Sink
  extended c s = record s {
    active_subscriptions = s.active_subscriptions ++ subscription_of out s.kafka_parameters c ∷ [];
  }

  Built-extended :
      (c : SubscriptionConfig) (cs : List SubscriptionConfig) (s : Sink) (r : Result)
      → Built cs (extended c s) r
      → Built (c ∷ cs) s r
  Built-extended c cs s (ok true, t) (same, routes) = (
    same,
    routes
        ∙ ap (λ rs. rs ++ map (route_for out.utf8 s.kafka_parameters) cs)
            (map-append route_of s.active_subscriptions
              (subscription_of out s.kafka_parameters c ∷ []))
        ∙ append_assoc (map route_of s.active_subscriptions)
            (route_of (subscription_of out s.kafka_parameters c) ∷ [])
            (map (route_for out.utf8 s.kafka_parameters) cs)
        ∙ ap
            (λ r.
              map route_of s.active_subscriptions
              ++ r ∷ map (route_for out.utf8 s.kafka_parameters) cs)
            (subscription_of-route out s.kafka_parameters c),
  )
  Built-extended c cs s (ok false, t) same = same
  Built-extended c cs s (fail e, t) same = same
  Built-extended c cs s (thrown e, t) same = same

  pub add_subscriptions-Built :
      (cs : List SubscriptionConfig) (s : Sink) → Built cs s (add_subscriptions out cs s)
  unfolding add_subscriptions
  add_subscriptions-Built [] s = (refl, simp append-nil)
  add_subscriptions-Built (c ∷ cs) s = next (out.create_subscription c.topic_name c.msg_type) (
      Built-extended c cs s (add_subscriptions out cs (extended c s))
        (add_subscriptions-Built cs (extended c s)))
    where
      next :
          (r : Created)
          → Built (c ∷ cs) s (add_subscriptions out cs (extended c s))
          → Built (c ∷ cs) s (elim r as (λ _. Result) [
            | subscribed ↦ add_subscriptions out cs (extended c s)
            | not_subscribed ↦ (ok false, extended c s)
            | subscription_throws e ↦ (thrown e, extended c s)
          ])
      next subscribed h = h
      next not_subscribed h = refl
      next (subscription_throws e) h = refl
