-- ===== src/Mosquitto/Transitions.antt =====
-- mosquitto_sink_node.cpp: what on_configure and the callbacks that stop the node leave of it.
use ros2_dispatcher.Prelude.{
  All, String, Bool, true, false, not, Option, none, some, List, ◌≡◌, refl, ap, ◌∙◌, arith, is_some,
  inl, inr, Option-cases,
}
use ros2_dispatcher.Controller.Types.{unconfigured, inactive, finalized}
use ros2_dispatcher.Controller.World.{Outcome, ok, fail, thrown}
use ros2_dispatcher.Sink.Session.{settled}
use ros2_dispatcher.Sink.Settings.{
  to_int, parse_mapping_mode, parse_payload_format, validate_qos_depth,
}
use ros2_dispatcher.Sink.Types.{TopicMappingMode, PayloadFormat}
use ros2_dispatcher.Mosquitto.Facts.{CommonFacts, NodeFacts}
use ros2_dispatcher.Mosquitto.Guards.{Kept, HasChecked}
use ros2_dispatcher.Mosquitto.Life.{
  clear_subscriptions, stop_client, on_configure, on_deactivate, on_cleanup, on_shutdown,
}
use ros2_dispatcher.Mosquitto.Outside.{Outside}
use ros2_dispatcher.Mosquitto.Serving.{IsClosed, disconnect-IsClosed}
use ros2_dispatcher.Mosquitto.Settings.{
  NodeParameters, pending_mqtt, take_mqtt, take_modes, configure_mqtt_parameters, take_configs,
  configure_from_parameters,
}
use ros2_dispatcher.Mosquitto.Subscriptions.{parse_subscriptions_yaml}
use ros2_dispatcher.Mosquitto.Types.{MqttParameters, SubscriptionConfig, MosquittoSink}

take_mqtt-Kept : (p : MqttParameters) (s : MosquittoSink) → HasChecked s → Kept s (take_mqtt p s).1
unfolding take_mqtt
take_mqtt-Kept p s h = ground arith

take_modes-Kept :
    (d : NodeParameters) (mode : Option TopicMappingMode) (format : Option PayloadFormat)
    (s : MosquittoSink)
    → HasChecked s
    → Kept s (take_modes d mode format s).1
unfolding take_modes
take_modes-Kept d none format s h = (h, (refl, refl, refl, refl))
take_modes-Kept d (some m) none s h = (h, (refl, refl, refl, refl))
take_modes-Kept d (some m) (some f) s h = take_mqtt-Kept (pending_mqtt d m f) s h

take_configs-Kept :
    (d : NodeParameters) (r : Outcome (List SubscriptionConfig)) (s : MosquittoSink)
    → HasChecked s
    → Kept s (take_configs d r s).1
unfolding take_configs configure_mqtt_parameters
take_configs-Kept d (fail e) s h = (h, (refl, refl, refl, refl))
take_configs-Kept d (thrown e) s h = (h, (refl, refl, refl, refl))
take_configs-Kept d (ok configs) s h =
    take_modes-Kept d (parse_mapping_mode d.topic_mapping_mode)
      (parse_payload_format d.payload_format) (record s { configured_subscriptions = configs }) h

module _ (out : Outside) where
  configure_from_parameters-Kept :
      (d : NodeParameters) (s : MosquittoSink)
      → HasChecked s
      → Kept s (configure_from_parameters out.yaml out.load d s).1
  unfolding configure_from_parameters
  configure_from_parameters-Kept d s h =
      let s' : MosquittoSink = record s {
        qos_depth = to_int d.qos_depth;
        metrics_enabled = d.metrics_enabled;
        metrics_interval_ms = to_int d.metrics_interval_ms;
        metrics_topic = d.metrics_topic;
      } in
      split s' (validate_qos_depth s'.qos_depth)
        (take_configs d (parse_subscriptions_yaml out.yaml out.load d.subscriptions_yaml) s')
        (h, (refl, refl, refl, refl))
        (take_configs-Kept d (parse_subscriptions_yaml out.yaml out.load d.subscriptions_yaml) s' h)
    where
      split :
          (t : MosquittoSink) (refused : Option String) (r : Option String × MosquittoSink)
          → Kept s t
          → Kept s r.1
          → Kept s
              (elim refused as (λ _. Option String × MosquittoSink) [
                | some e ↦ (some e, t)
                | none ↦ r
              ]).1
      split t (some e) r same kept = same
      split t none r same kept = kept

  idle :
      (b : Bool) (s : MosquittoSink)
      → NodeFacts out (unconfigured, s)
      → NodeFacts out (settled unconfigured inactive (ok b), s)
  unfolding settled
  idle true s h = h
  idle false s h = h

  pub on_configure-facts :
      (d : NodeParameters) (s : MosquittoSink)
      → NodeFacts out (unconfigured, s)
      → NodeFacts out
          (settled unconfigured inactive (on_configure out d s).0, (on_configure out d s).1)
  unfolding on_configure
  on_configure-facts d s ((valid, counted, closed), (shut, no_client)) =
      let (kept, (same_active, same_client, subscriptions, retired)) =
        configure_from_parameters-Kept d s valid in
      let (failure, t) = configure_from_parameters out.yaml out.load d s in
      idle (not (is_some failure)) t (
        (kept, rw subscriptions counted, rw retired closed),
        (same_active ∙ shut, same_client ∙ no_client),
      )

  stop_client-same :
      (s : MosquittoSink)
      → stop_client out s ≡ record s { mqtt_runtime = none; retired = (stop_client out s).retired }
  unfolding stop_client
  stop_client-same s = elim (Option-cases s.mqtt_runtime) [
    | inl e ↦ ground arith
    | inr (c, e) ↦ ground arith
  ]

  stop_client-IsClosed :
      (s : MosquittoSink)
      → All (IsClosed out.paho) s.retired
      → All (IsClosed out.paho) (stop_client out s).retired
  unfolding stop_client
  stop_client-IsClosed s h = elim (Option-cases s.mqtt_runtime) [
    | inl e ↦ rw e h
    | inr (c, e) ↦ rw e (disconnect-IsClosed out.paho c, h)
  ]

  -- A node that has let its client go.
  pub stop_client-facts :
      (s : MosquittoSink)
      → CommonFacts out s
      → CommonFacts out (stop_client out s)
        × ((stop_client out s).is_active ≡ s.is_active)
        × ((stop_client out s).mqtt_runtime ≡ none)
  stop_client-facts s (valid, counted, closed) =
      let same = stop_client-same s in
      (
        (
          rw (ap (λ (x : MosquittoSink). x.mqtt_parameters) same) valid,
          rw (ap (λ (x : MosquittoSink). x.active_subscriptions) same) counted,
          stop_client-IsClosed s closed,
        ),
        ap (λ (x : MosquittoSink). x.is_active) same,
        ap (λ (x : MosquittoSink). x.mqtt_runtime) same,
      )

  pub stopped-facts :
      (s : MosquittoSink)
      → CommonFacts out s
      → NodeFacts out (inactive, (on_deactivate out s).1)
        × NodeFacts out (unconfigured, (on_cleanup out s).1)
        × NodeFacts out (finalized, (on_shutdown out s).1)
  unfolding on_deactivate on_cleanup on_shutdown clear_subscriptions
  stopped-facts s (valid, counted, closed) =
      let t : MosquittoSink = record s { is_active = false } in
      let (first, shut, gone) = stop_client-facts (clear_subscriptions t) (valid, tt, closed) in
      let (last, shut', gone') = stop_client-facts t (valid, counted, closed) in
      ((first, (shut, gone)), ((last.0, tt, last.2), (shut', gone')), ((last.0, tt, last.2), shut'))
