-- ===== src/Mosquitto/Started.antt =====
-- mosquitto_sink_node.cpp: what start_client and on_activate leave of the node.
use ros2_dispatcher.Prelude.{
  String, true, false, Option, none, some, [], ◌≡◌, refl, sym, ap, subst, ◌∙◌, if◌then◌else◌,
  is_some,
}
use ros2_dispatcher.Controller.Types.{inactive, active}
use ros2_dispatcher.Controller.World.{ok, fail, thrown}
use ros2_dispatcher.Sink.Session.{settled}
use ros2_dispatcher.Mosquitto.Client.{MqttClient, connect, new_client}
use ros2_dispatcher.Mosquitto.Counting.{AllCounted}
use ros2_dispatcher.Mosquitto.Facts.{CommonFacts, NodeFacts, Built, add_subscriptions-Built}
use ros2_dispatcher.Mosquitto.Life.{
  add_subscriptions, build_subscriptions, clear_subscriptions, take_client, start_client,
  finish_activate, finish_start, on_activate, Result,
}
use ros2_dispatcher.Mosquitto.Outside.{Outside}
use ros2_dispatcher.Mosquitto.Serving.{IsServing, connect-IsServing}
use ros2_dispatcher.Mosquitto.Settings.{server_uri_of, connect_options_of}
use ros2_dispatcher.Mosquitto.Types.{MosquittoSink}
use ros2_dispatcher.Mosquitto.Transitions.{stop_client-facts}

module _ (out : Outside) where
  -- What start_client leaves.
  abbrev Started : MosquittoSink → Result → Type 0
  Started s (ok true, t) =
      (c : MqttClient) × IsServing out.paho s.mqtt_parameters c
      × (t ≡ record s { mqtt_runtime = some c })
  Started s (ok false, t) = t ≡ record s { mqtt_runtime = none }
  Started s (fail e, t) = t ≡ s
  Started s (thrown e, t) = t ≡ s

  take_client-Started :
      (r : Option String × MqttClient) (s : MosquittoSink)
      → IsServing out.paho s.mqtt_parameters r.1
      → Started s (take_client r s)
  unfolding take_client
  take_client-Started (none, c) s h = (c, h, refl)
  take_client-Started (some e, c) s h = refl

  start_client-Started : (s : MosquittoSink) → Started s (start_client out s)
  unfolding start_client
  start_client-Started s =
      let p = s.mqtt_parameters in
      split (out.paho.create (server_uri_of p) p.client_id) (
        take_client-Started
          (connect out.paho (connect_options_of p) (new_client (server_uri_of p) p.client_id)) s
          (connect-IsServing out.paho p))
    where
      split :
          (r : Option String)
          → let p = s.mqtt_parameters in
            let taken : Result =
              take_client
                (connect out.paho (connect_options_of p) (new_client (server_uri_of p) p.client_id))
                s in
            Started s taken
            → Started s (elim r as (λ _. Result) [ some e ↦ (thrown e, s) | none ↦ taken ])
      split none h = h
      split (some e) h = refl

  common-same :
      (s t : MosquittoSink)
      → CommonFacts out s
      → t ≡ record s { active_subscriptions = t.active_subscriptions }
      → AllCounted t.active_subscriptions
      → CommonFacts out t
  common-same s t (valid, k, closed) same counted = (
    rw (ap (λ (x : MosquittoSink). x.mqtt_parameters) same) valid,
    counted,
    rw (ap (λ (x : MosquittoSink). x.retired) same) closed,
  )

  finish_activate-facts :
      (s : MosquittoSink) (c : MqttClient) (r : Result)
      → CommonFacts out s
      → s.is_active ≡ false
      → s.mqtt_runtime ≡ some c
      → s.active_subscriptions ≡ []
      → IsServing out.paho s.mqtt_parameters c
      → Built out s.configured_subscriptions s r
      → NodeFacts out (settled inactive active (finish_activate out r).0, (finish_activate out r).1)
  unfolding finish_activate settled
  finish_activate-facts s c (ok true, t) (valid, k, closed) shut has none_yet serving
        (same, counted, routes) =
      let settings = ap (λ (x : MosquittoSink). x.mqtt_parameters) same in
      let configured = ap (λ (x : MosquittoSink). x.configured_subscriptions) same in
      (
        (rw settings valid, counted, rw (ap (λ (x : MosquittoSink). x.retired) same) closed),
        (
          c,
          refl,
          ap (λ (x : MosquittoSink). x.mqtt_runtime) same ∙ has,
          rw settings serving,
          rw (settings, configured) (routes ∙ simp none_yet),
        ),
      )
  finish_activate-facts s c (ok false, t) common shut has none_yet serving (same, counted) =
      let (after, same_active, gone) =
        stop_client-facts out t (common-same s t common same counted) in
      (after, (same_active ∙ ap (λ (x : MosquittoSink). x.is_active) same ∙ shut, gone))
  finish_activate-facts s c (fail e, t) common shut has none_yet serving (same, counted) =
      (common-same s t common same counted, ap (λ (x : MosquittoSink). x.is_active) same ∙ shut)
  finish_activate-facts s c (thrown e, t) common shut has none_yet serving (same, counted) =
      (common-same s t common same counted, ap (λ (x : MosquittoSink). x.is_active) same ∙ shut)

  build_subscriptions-Built :
      (t : MosquittoSink) (c : MqttClient)
      → t.mqtt_runtime ≡ some c
      → Built out t.configured_subscriptions (clear_subscriptions t) (build_subscriptions out t)
  unfolding build_subscriptions clear_subscriptions
  build_subscriptions-Built t c has =
      let u = clear_subscriptions t in
      let added = add_subscriptions out t.configured_subscriptions u in
      subst
        (λ p. Built out t.configured_subscriptions u (if is_some p then added else (ok false, u)))
        (sym has) (add_subscriptions-Built out t.configured_subscriptions u tt)

  finish_start-facts :
      (s : MosquittoSink) (r : Result)
      → NodeFacts out (inactive, s)
      → Started s r
      → NodeFacts out (settled inactive active (finish_start out r).0, (finish_start out r).1)
  unfolding finish_start settled clear_subscriptions
  finish_start-facts s (ok true, t) ((valid, counted, closed), (shut, none_yet))
        (c, serving, same) =
      let settings = ap (λ (x : MosquittoSink). x.mqtt_parameters) same in
      let has = ap (λ (x : MosquittoSink). x.mqtt_runtime) same in
      finish_activate-facts (clear_subscriptions t) c (build_subscriptions out t)
        (rw settings valid, tt, rw (ap (λ (x : MosquittoSink). x.retired) same) closed)
        (ap (λ (x : MosquittoSink). x.is_active) same ∙ shut) has refl (rw settings serving)
        (build_subscriptions-Built t c has)
  finish_start-facts s (ok false, t) (common, (shut, none_yet)) same = (
    subst (CommonFacts out) (sym same) common,
    (
      ap (λ (x : MosquittoSink). x.is_active) same ∙ shut,
      ap (λ (x : MosquittoSink). x.mqtt_runtime) same,
    ),
  )
  finish_start-facts s (fail e, t) (common, (shut, none_yet)) same = (
    subst (CommonFacts out) (sym same) common,
    ap (λ (x : MosquittoSink). x.is_active) same ∙ shut,
  )
  finish_start-facts s (thrown e, t) (common, (shut, none_yet)) same = (
    subst (CommonFacts out) (sym same) common,
    ap (λ (x : MosquittoSink). x.is_active) same ∙ shut,
  )

  pub on_activate-facts :
      (s : MosquittoSink)
      → NodeFacts out (inactive, s)
      → NodeFacts out (settled inactive active (on_activate out s).0, (on_activate out s).1)
  unfolding on_activate
  on_activate-facts s h = finish_start-facts s (start_client out s) h (start_client-Started s)
