-- ===== src/Sink/Steps.antt =====
-- kafka_sink_node.cpp: the states of kafka_sink over any session: that each step keeps the facts.
use ros2_dispatcher.Sink.Reached.{on_activate-facts}
use ros2_dispatcher.Sink.Transitions.{on_configure-facts, stopped-facts}
use ros2_dispatcher.Sink.Facts.{SinkFacts, StateFacts}
use ros2_dispatcher.Prelude.{
  ℕ, String, Bool, true, false, not, ◌||◌, ◌⊎◌, Option, none, some, List, [], ◌∷◌, map, ◌≡◌, refl,
  sym, ap, subst, ◌∙◌, arith, if◌then◌else◌, inl, inr, Option-cases,
}
use ros2_dispatcher.Producer.Ops.{poll_round}
use ros2_dispatcher.Controller.Types.{
  Parameter, LifecycleState, unconfigured, inactive, active, finalized, other_state,
}
use ros2_dispatcher.Controller.World.{Outcome, ok}
use ros2_dispatcher.Sink.Types.{ActiveSubscription, ProducerObject, Sink}
use ros2_dispatcher.Sink.Metrics.{note_all_published, note_published, publish_metrics}
use ros2_dispatcher.Sink.Outside.{Outside}
use ros2_dispatcher.Sink.Settings.{validate_kafka_parameters}
use ros2_dispatcher.Sink.Parameters.{on_parameters_set}
use ros2_dispatcher.Sink.Stream.{Arrival}
use ros2_dispatcher.Sink.Session.{
  is_active_state, deliver, on_message, on_round, Step, configures, activates, deactivates,
  cleans_up, shuts_down, sets_parameters, receives, publishes, on_metrics, polls, Reach, launched,
  later,
}
use ros2_dispatcher.Sink.Guards.{
  SameStream, on_parameters_set-SameStream, on_parameters_set-HasValidSettings,
  on_parameters_set-SameSettings,
}
use ros2_dispatcher.Sink.Serving.{route_of, deliver-kept, poll_round-running}

module _ (out : Outside) where
  pub on_message-closed :
      (i : ℕ) (m : Arrival) (s : Sink) → s.is_active ≡ false → on_message out i m s ≡ s
  unfolding on_message
  on_message-closed i m s closed = rw closed refl

  pub on_message-open :
      (i : ℕ) (m : Arrival) (s : Sink) (o : ProducerObject)
      → s.is_active ≡ true
      → s.kafka_producer ≡ some o
      → on_message out i m s ≡ record s {
        active_subscriptions = (deliver out i m s.active_subscriptions o).0;
        kafka_producer = some (deliver out i m s.active_subscriptions o).1;
      }
  unfolding on_message
  on_message-open i m s o opened has = ground arith

  on_message-facts :
      (p : LifecycleState) (i : ℕ) (m : Arrival) (s : Sink)
      → SinkFacts out (p, s)
      → SinkFacts out (p, on_message out i m s)
  on_message-facts active i m s (valid, (o, opened, has, serving, routes)) =
      let (kept, still) =
        deliver-kept out s.kafka_parameters i m s.active_subscriptions o serving in
      subst (λ t. SinkFacts out (active, t)) (sym (on_message-open i m s o opened has))
        (valid, ((deliver out i m s.active_subscriptions o).1, opened, refl, still, kept ∙ routes))
  on_message-facts unconfigured i m s h =
      subst (λ t. SinkFacts out (unconfigured, t)) (sym (on_message-closed i m s h.1.0)) h
  on_message-facts inactive i m s h =
      subst (λ t. SinkFacts out (inactive, t)) (sym (on_message-closed i m s h.1.0)) h
  on_message-facts finalized i m s h =
      subst (λ t. SinkFacts out (finalized, t)) (sym (on_message-closed i m s h.1)) h
  on_message-facts (other_state n) i m s h =
      subst (λ t. SinkFacts out (other_state n, t)) (sym (on_message-closed i m s h.1)) h

  pub on_round-same :
      (s : Sink) → on_round out s ≡ record s { kafka_producer = (on_round out s).kafka_producer }
  unfolding on_round
  on_round-same s = elim (Option-cases s.kafka_producer) [
    | inl e ↦ ground arith
    | inr (o, e) ↦ ground arith
  ]

  on_round-none : (s : Sink) → s.kafka_producer ≡ none → (on_round out s).kafka_producer ≡ none
  unfolding on_round
  on_round-none s e = ground arith

  on_round-some :
      (s : Sink) (o : ProducerObject)
      → s.kafka_producer ≡ some o
      → (on_round out s).kafka_producer
        ≡ some (record o { state = poll_round out.kafka o.config o.state })
  unfolding on_round
  on_round-some s o e = ground arith

  on_round-facts :
      (p : LifecycleState) (s : Sink) → SinkFacts out (p, s) → SinkFacts out (p, on_round out s)
  on_round-facts p s (valid, h) =
      subst (λ t. SinkFacts out (p, t)) (sym (on_round-same s)) (valid, next p h)
    where
      next :
          (q : LifecycleState)
          → StateFacts out q s
          → StateFacts out q (record s { kafka_producer = (on_round out s).kafka_producer })
      next active (o, opened, has, serving, routes) = (
        record o { state = poll_round out.kafka o.config o.state },
        opened,
        on_round-some s o has,
        (poll_round-running out.kafka o.config o.state ∙ serving.0, serving.1),
        routes,
      )
      next unconfigured (closed, gone) = (closed, on_round-none s gone)
      next inactive (closed, gone) = (closed, on_round-none s gone)
      next finalized closed = closed
      next (other_state n) closed = closed

  note_all_published-route :
      (subs : List ActiveSubscription)
      → map route_of (note_all_published out.doubles subs) ≡ map route_of subs
  unfolding note_all_published note_published
  note_all_published-route [] = refl
  note_all_published-route (a ∷ rest) = ap (λ rs. route_of a ∷ rs) (note_all_published-route rest)

  pub on_metrics-same :
      (s : Sink)
      → (on_metrics out s ≡ s)
        ⊎ (on_metrics out s ≡ record s {
          active_subscriptions = note_all_published out.doubles s.active_subscriptions;
        })
  unfolding on_metrics publish_metrics
  on_metrics-same s = split s.metrics_enabled s.metrics_pub _
    where
      split :
          (enabled publisher : Bool) (x : Outcome (Option String))
          → let t : Sink = record s {
            active_subscriptions = note_all_published out.doubles s.active_subscriptions;
          } in
            let r : Outcome (Option String) × Sink =
              if not enabled || not publisher then (ok none, s) else (x, t) in
            (r.1 ≡ s) ⊎ (r.1 ≡ t)
      split false b x = inl refl
      split true false x = inl refl
      split true true x = inr refl

  published-facts :
      (p : LifecycleState) (s : Sink)
      → StateFacts out p s
      → StateFacts out p (record s {
        active_subscriptions = note_all_published out.doubles s.active_subscriptions;
      })
  published-facts active s (o, opened, has, serving, routes) =
      (o, opened, has, serving, note_all_published-route s.active_subscriptions ∙ routes)
  published-facts unconfigured s h = h
  published-facts inactive s h = h
  published-facts finalized s h = h
  published-facts (other_state n) s h = h

  on_metrics-facts :
      (p : LifecycleState) (s : Sink) → SinkFacts out (p, s) → SinkFacts out (p, on_metrics out s)
  on_metrics-facts p s (valid, h) = elim (on_metrics-same s) [
    | inl e ↦ subst (λ t. SinkFacts out (p, t)) (sym e) (valid, h)
    | inr e ↦ subst (λ t. SinkFacts out (p, t)) (sym e) (valid, published-facts p s h)
  ]

  on_parameters_set-facts :
      (p : LifecycleState) (ps : List Parameter) (s : Sink)
      → SinkFacts out (p, s)
      → SinkFacts out (p, (on_parameters_set out.yaml out.load (is_active_state p) ps s).1)
  on_parameters_set-facts p ps s (valid, h) = (
    on_parameters_set-HasValidSettings out.yaml out.load (is_active_state p) ps s valid,
    next p (on_parameters_set-SameStream out.yaml out.load (is_active_state p) ps s) h,
  )
    where
      next :
          (q : LifecycleState)
          → SameStream s (on_parameters_set out.yaml out.load (is_active_state q) ps s).1
          → StateFacts out q s
          → StateFacts out q (on_parameters_set out.yaml out.load (is_active_state q) ps s).1
      next active same (o, opened, has, serving, routes) =
          let (configs, settings) = on_parameters_set-SameSettings out.yaml out.load ps s in
          (
            o,
            same.same_active ∙ opened,
            same.same_producer ∙ has,
            rw settings serving,
            rw (settings, configs, same.same_subscriptions) routes,
          )
      next unconfigured same (closed, gone) = (same.same_active ∙ closed, same.same_producer ∙ gone)
      next inactive same (closed, gone) = (same.same_active ∙ closed, same.same_producer ∙ gone)
      next finalized same closed = same.same_active ∙ closed
      next (other_state n) same closed = same.same_active ∙ closed

  Step-SinkFacts : {y z : LifecycleState × Sink} → Step out y z → SinkFacts out y → SinkFacts out z
  Step-SinkFacts (configures d s) h = on_configure-facts out d s h
  Step-SinkFacts (activates s) h = on_activate-facts out s h
  Step-SinkFacts (deactivates s) h = (stopped-facts out s h.0).0
  Step-SinkFacts (cleans_up s) h = (stopped-facts out s h.0).1
  Step-SinkFacts (shuts_down p s) h = (stopped-facts out s h.0).2
  Step-SinkFacts (sets_parameters p ps s) h = on_parameters_set-facts p ps s h
  Step-SinkFacts (receives p i m s) h = on_message-facts p i m s h
  Step-SinkFacts (publishes p s) h = on_metrics-facts p s h
  Step-SinkFacts (polls p s) h = on_round-facts p s h

  pub Reach-SinkFacts : {y : LifecycleState × Sink} → Reach out y → SinkFacts out y
  unfolding validate_kafka_parameters
  Reach-SinkFacts launched = (refl, (refl, refl))
  Reach-SinkFacts (later before step) = Step-SinkFacts step (Reach-SinkFacts before)
