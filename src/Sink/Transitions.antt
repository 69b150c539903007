-- ===== src/Sink/Transitions.antt =====
-- kafka_sink_node.cpp: what on_configure and the callbacks that stop the node leave of it.
use ros2_dispatcher.Sink.Reached.{stop_producer-same}
use ros2_dispatcher.Sink.Facts.{SinkFacts}
use ros2_dispatcher.Prelude.{
  String, Bool, true, false, not, Option, none, some, List, ◌≡◌, refl, ap, ◌∙◌, arith,
  if◌then◌else◌, is_some,
}
use ros2_dispatcher.Controller.Types.{unconfigured, inactive, finalized}
use ros2_dispatcher.Controller.World.{Outcome, ok, fail, thrown}
use ros2_dispatcher.Sink.Types.{SubscriptionConfig, KafkaParameters, Sink}
use ros2_dispatcher.Sink.Types.{PayloadFormat, TopicMappingMode}
use ros2_dispatcher.Sink.Subscriptions.{parse_subscriptions_yaml}
use ros2_dispatcher.Sink.Outside.{Outside}
use ros2_dispatcher.Sink.Settings.{
  NodeParameters, to_int, is_positive, pending_kafka, parse_mapping_mode, parse_payload_format,
  take_kafka, configure_kafka_parameters, configure_subscriptions, configure_from_parameters,
  validate_qos_depth,
}
use ros2_dispatcher.Sink.Life.{
  clear_subscriptions, stop_producer, on_configure, on_deactivate, on_cleanup, on_shutdown,
}
use ros2_dispatcher.Sink.Session.{settled}
use ros2_dispatcher.Sink.Guards.{HasValidSettings}

module _ (out : Outside) where
  -- What on_configure leaves of the node, whether it succeeds or not.
  abbrev pub Kept : Sink → Sink → Type 0
  Kept s t =
      HasValidSettings t
      × (t.is_active ≡ s.is_active)
      × (t.kafka_producer ≡ s.kafka_producer)
      × (t.active_subscriptions ≡ s.active_subscriptions)
      × (t.retired ≡ s.retired)

  take_kafka-Kept :
      (k : KafkaParameters) (s : Sink) → HasValidSettings s → Kept s (take_kafka k s).1
  unfolding take_kafka
  take_kafka-Kept k s h = ground arith

  configure_kafka_parameters-Kept :
      (d : NodeParameters) (s : Sink)
      → HasValidSettings s
      → Kept s (configure_kafka_parameters d s).1
  unfolding configure_kafka_parameters
  configure_kafka_parameters-Kept d s h =
      split (parse_mapping_mode d.topic_mapping_mode) (parse_payload_format d.payload_format)
    where
      split :
          (mode : Option TopicMappingMode) (format : Option PayloadFormat)
          → Kept s
              (elim mode as (λ _. Option String × Sink) [
                | none ↦ (some "Invalid kafka.topic_mapping_mode value.", s)
                | some m ↦ elim format as (λ _. Option String × Sink) [
                  | none ↦ (some "Invalid kafka.payload_format value.", s)
                  | some f ↦ take_kafka (pending_kafka d m f) s
                ]
              ]).1
      split none format = (h, refl, refl, refl, refl)
      split (some m) none = (h, refl, refl, refl, refl)
      split (some m) (some f) = take_kafka-Kept (pending_kafka d m f) s h

  configure_subscriptions-Kept :
      (d : NodeParameters) (s : Sink)
      → HasValidSettings s
      → Kept s (configure_subscriptions out.yaml out.load d s).1
  unfolding configure_subscriptions
  configure_subscriptions-Kept d s h =
      split (parse_subscriptions_yaml out.yaml out.load d.subscriptions_yaml)
    where
      split :
          (r : Outcome (List SubscriptionConfig))
          → Kept s
              (elim r as (λ _. Option String × Sink) [
                | fail e ↦ (some e, s)
                | thrown e ↦ (some e, s)
                | ok configs ↦
                    configure_kafka_parameters d (record s { configured_subscriptions = configs })
              ]).1
      split (fail e) = (h, refl, refl, refl, refl)
      split (thrown e) = (h, refl, refl, refl, refl)
      split (ok configs) =
          configure_kafka_parameters-Kept d (record s { configured_subscriptions = configs }) h

  pub configure_from_parameters-Kept :
      (d : NodeParameters) (s : Sink)
      → HasValidSettings s
      → Kept s (configure_from_parameters out.yaml out.load d s).1
  unfolding configure_from_parameters
  configure_from_parameters-Kept d s h =
      let s' : Sink = record s {
        qos_depth = to_int d.qos_depth;
        metrics_enabled = d.metrics_enabled;
        metrics_interval_ms = to_int d.metrics_interval_ms;
        metrics_topic = d.metrics_topic;
        telemetry_enabled = d.telemetry_enabled;
        telemetry_log_every_n = to_int d.telemetry_log_every_n;
      } in
      split s' (validate_qos_depth s'.qos_depth) (is_positive s'.telemetry_log_every_n)
        (h, refl, refl, refl, refl) (configure_subscriptions-Kept d s' h)
    where
      split :
          (t : Sink) (refused : Option String) (often : Bool)
          → Kept s t
          → Kept s (configure_subscriptions out.yaml out.load d t).1
          → Kept s
              (elim refused as (λ _. Option String × Sink) [
                | some e ↦ (some e, t)
                | none ↦
                    if often
                    then configure_subscriptions out.yaml out.load d t
                    else (some "telemetry.log_every_n must be >= 1.", t)
              ]).1
      split t (some e) often same kept = same
      split t none true same kept = kept
      split t none false same kept = same

  idle :
      (b : Bool) (s : Sink)
      → SinkFacts out (unconfigured, s)
      → SinkFacts out (settled unconfigured inactive (ok b), s)
  unfolding settled
  idle true s h = h
  idle false s h = h

  pub on_configure-facts :
      (d : NodeParameters) (s : Sink)
      → SinkFacts out (unconfigured, s)
      → SinkFacts out
          (settled unconfigured inactive (on_configure out d s).0, (on_configure out d s).1)
  unfolding on_configure
  on_configure-facts d s (valid, (closed, no_producer)) =
      let (kept, same_active, same_producer, subscriptions, retired) =
        configure_from_parameters-Kept d s valid in
      let (failure, t) = configure_from_parameters out.yaml out.load d s in
      idle (not (is_some failure)) t (kept, (same_active ∙ closed, same_producer ∙ no_producer))

  pub stopped-facts :
      (s : Sink)
      → HasValidSettings s
      → SinkFacts out (inactive, (on_deactivate s).1)
        × SinkFacts out (unconfigured, (on_cleanup s).1)
        × SinkFacts out (finalized, (on_shutdown s).1)
  unfolding on_deactivate on_cleanup on_shutdown clear_subscriptions
  stopped-facts s valid =
      let t : Sink = record s { is_active = false } in
      let first = stop_producer-same out (clear_subscriptions t) in
      let same = stop_producer-same out t in
      let closed = ap (λ (x : Sink). x.is_active) same in
      let kept : HasValidSettings (stop_producer t) =
        rw (ap (λ (x : Sink). x.kafka_parameters) same) valid in
      (
        (
          rw (ap (λ (x : Sink). x.kafka_parameters) first) valid,
          (ap (λ (x : Sink). x.is_active) first, ap (λ (x : Sink). x.kafka_producer) first),
        ),
        (kept, (closed, ap (λ (x : Sink). x.kafka_producer) same)),
        (kept, closed),
      )
