-- ===== src/Sink/Reached.antt =====
-- kafka_sink_node.cpp: what start_producer and the transitions leave of the node.
use ros2_dispatcher.Sink.Facts.{SinkFacts, Built, add_subscriptions-Built}
use ros2_dispatcher.Prelude.{
  Bool, true, false, none, some, [], ◌≡◌, refl, sym, ap, subst, ◌∙◌, arith, if◌then◌else◌, is_some,
  inl, inr, Option-cases,
}
use ros2_dispatcher.Producer.Ops.{
  init, begin_start, finish_start, create_producer_locked, update_last_error_locked,
}
use ros2_dispatcher.Controller.Types.{inactive, active}
use ros2_dispatcher.Controller.World.{ok, fail, thrown}
use ros2_dispatcher.Sink.Types.{ProducerObject, KafkaParameters, Sink}
use ros2_dispatcher.Sink.Outside.{Outside}
use ros2_dispatcher.Sink.Settings.{build_producer_config}
use ros2_dispatcher.Sink.Life.{
  add_subscriptions, build_subscriptions, clear_subscriptions, let_go, stop_producer,
  started_object, start_producer, finish_activate, on_activate, Result,
}
use ros2_dispatcher.Sink.Session.{settled}
use ros2_dispatcher.Sink.Guards.{HasValidSettings}
use ros2_dispatcher.Sink.Serving.{IsServing}

module _ (out : Outside) where
  -- What start_producer leaves.
  abbrev pub Started : Sink → Bool × Sink → Type 0
  Started s (true, t) =
      (o : ProducerObject) × IsServing out s.kafka_parameters o
      × (t ≡ record s { kafka_producer = some o; retired = t.retired })
  Started s (false, t) = t ≡ record s { kafka_producer = none; retired = t.retired }

  started_object-IsServing :
      (p : KafkaParameters)
      → (started_object out (build_producer_config p)).0 ≡ true
      → IsServing out p (started_object out (build_producer_config p)).1
  unfolding started_object begin_start finish_start init create_producer_locked
      update_last_error_locked
  started_object-IsServing p h = ground arith

  pub stop_producer-same :
      (s : Sink)
      → stop_producer s ≡ record s { kafka_producer = none; retired = (stop_producer s).retired }
  unfolding stop_producer
  stop_producer-same s = elim (Option-cases s.kafka_producer) [
    | inl e ↦ ground arith
    | inr (o, e) ↦ ground arith
  ]

  start_result-Started :
      (s u : Sink) (r : Bool × ProducerObject)
      → u ≡ record s { kafka_producer = none; retired = u.retired }
      → (r.0 ≡ true → IsServing out u.kafka_parameters r.1)
      → Started s
          (if r.0 then (true, record u { kafka_producer = some r.1 }) else (false, let_go r.1 u))
  unfolding let_go
  start_result-Started s u (true, o) same h = (
    o,
    subst (λ p. IsServing out p o) (ap (λ (t : Sink). t.kafka_parameters) same) (h refl),
    ap (λ (t : Sink). record t { kafka_producer = some o }) same,
  )
  start_result-Started s u (false, o) same h = ap (λ (t : Sink). let_go o t) same

  pub start_producer-Started : (s : Sink) → Started s (start_producer out s)
  unfolding start_producer
  start_producer-Started s =
      let p = (stop_producer s).kafka_parameters in
      start_result-Started s (stop_producer s) (started_object out (build_producer_config p))
        (stop_producer-same s) (started_object-IsServing p)

  -- What on_activate leaves of an inactive node.
  finish_activate-facts :
      (s : Sink) (o : ProducerObject) (r : Result)
      → HasValidSettings s
      → s.is_active ≡ false
      → s.kafka_producer ≡ some o
      → s.active_subscriptions ≡ []
      → IsServing out s.kafka_parameters o
      → Built out s.configured_subscriptions s r
      → SinkFacts out (settled inactive active (finish_activate out r).0, (finish_activate out r).1)
  unfolding finish_activate settled
  finish_activate-facts s o (ok true, t) valid closed has none_yet serving (same, routes) =
      let settings = ap (λ (x : Sink). x.kafka_parameters) same in
      let configured = ap (λ (x : Sink). x.configured_subscriptions) same in
      (
        rw settings valid,
        (
          o,
          refl,
          ap (λ (x : Sink). x.kafka_producer) same ∙ has,
          rw settings serving,
          rw (settings, configured) (routes ∙ simp none_yet),
        ),
      )
  finish_activate-facts s o (ok false, t) valid closed has none_yet serving same =
      let stopped = stop_producer-same t in
      (
        rw
            (
              ap (λ (x : Sink). x.kafka_parameters) stopped,
              ap (λ (x : Sink). x.kafka_parameters) same,
            )
            valid,
        (
          ap (λ (x : Sink). x.is_active) stopped ∙ ap (λ (x : Sink). x.is_active) same ∙ closed,
          ap (λ (x : Sink). x.kafka_producer) stopped,
        ),
      )
  finish_activate-facts s o (fail e, t) valid closed has none_yet serving same = (
    rw (ap (λ (x : Sink). x.kafka_parameters) same) valid,
    ap (λ (x : Sink). x.is_active) same ∙ closed,
  )
  finish_activate-facts s o (thrown e, t) valid closed has none_yet serving same = (
    rw (ap (λ (x : Sink). x.kafka_parameters) same) valid,
    ap (λ (x : Sink). x.is_active) same ∙ closed,
  )

  build_subscriptions-Built :
      (t : Sink) (o : ProducerObject)
      → t.kafka_producer ≡ some o
      → Built out t.configured_subscriptions (clear_subscriptions t) (build_subscriptions out t)
  unfolding build_subscriptions clear_subscriptions
  build_subscriptions-Built t o has =
      let u = clear_subscriptions t in
      let added = add_subscriptions out t.configured_subscriptions u in
      subst
        (λ p. Built out t.configured_subscriptions u (if is_some p then added else (ok false, u)))
        (sym has) (add_subscriptions-Built out t.configured_subscriptions u)

  activated : (s : Sink) (r : Bool × Sink) → Result
  activated s r = if r.0 then finish_activate out (build_subscriptions out r.1) else (ok false, r.1)

  activated-facts :
      (s : Sink) (r : Bool × Sink)
      → SinkFacts out (inactive, s)
      → Started s r
      → SinkFacts out (settled inactive active (activated s r).0, (activated s r).1)
  unfolding activated settled clear_subscriptions
  activated-facts s (false, t) (valid, (closed, none_yet)) same = (
    rw (ap (λ (x : Sink). x.kafka_parameters) same) valid,
    (ap (λ (x : Sink). x.is_active) same ∙ closed, ap (λ (x : Sink). x.kafka_producer) same),
  )
  activated-facts s (true, t) (valid, (closed, none_yet)) (o, serving, same) =
      let settings = ap (λ (x : Sink). x.kafka_parameters) same in
      let has = ap (λ (x : Sink). x.kafka_producer) same in
      finish_activate-facts (clear_subscriptions t) o (build_subscriptions out t)
        (rw settings valid) (ap (λ (x : Sink). x.is_active) same ∙ closed) has refl
        (rw settings serving) (build_subscriptions-Built t o has)

  pub on_activate-facts :
      (s : Sink)
      → SinkFacts out (inactive, s)
      → SinkFacts out (settled inactive active (on_activate out s).0, (on_activate out s).1)
  unfolding on_activate activated
  on_activate-facts s h = activated-facts s (start_producer out s) h (start_producer-Started s)
