-- ===== src/Mosquitto/Steps.antt =====
-- mosquitto_sink_node.cpp: what holds of mosquitto_sink in any session.
use ros2_dispatcher.Prelude.{List, refl, ◌∙◌}
use ros2_dispatcher.Controller.Types.{
  Parameter, LifecycleState, unconfigured, inactive, active, finalized, other_state,
}
use ros2_dispatcher.Sink.Session.{is_active_state}
use ros2_dispatcher.Mosquitto.Client.{handle_connected, connection_lost}
use ros2_dispatcher.Mosquitto.Facts.{StateFacts, NodeFacts}
use ros2_dispatcher.Mosquitto.Guards.{
  Untouched, on_parameters_set-Kept, on_parameters_set-SameSettings,
}
use ros2_dispatcher.Mosquitto.Outside.{Outside}
use ros2_dispatcher.Mosquitto.Parameters.{on_parameters_set}
use ros2_dispatcher.Mosquitto.Serving.{handle_connected-IsServing, connection_lost-IsServing}
use ros2_dispatcher.Mosquitto.Session.{
  Step, configures, activates, deactivates, cleans_up, shuts_down, sets_parameters, receives,
  publishes, connects_again, drops_out, Reach, launched, later,
}
use ros2_dispatcher.Mosquitto.Settings.{validate_mqtt_parameters}
use ros2_dispatcher.Mosquitto.Transitions.{on_configure-facts, stopped-facts}
use ros2_dispatcher.Mosquitto.Started.{on_activate-facts}
use ros2_dispatcher.Mosquitto.Turns.{on_message-facts, on_client-facts, on_metrics-facts}
use ros2_dispatcher.Mosquitto.Types.{MosquittoSink}

module _ (out : Outside) where
  on_parameters_set-facts :
      (p : LifecycleState) (ps : List Parameter) (s : MosquittoSink)
      → NodeFacts out (p, s)
      → NodeFacts out (p, (on_parameters_set out.yaml out.load (is_active_state p) ps s).1)
  on_parameters_set-facts p ps s ((valid, counted, closed), h) =
      let (checked, (a, b, same_subscriptions, same_retired)) =
        on_parameters_set-Kept out.yaml out.load (is_active_state p) ps s valid in
      (
        (checked, rw same_subscriptions counted, rw same_retired closed),
        next p (a, b, same_subscriptions, same_retired) h,
      )
    where
      next :
          (q : LifecycleState)
          → Untouched s (on_parameters_set out.yaml out.load (is_active_state q) ps s).1
          → StateFacts out q s
          → StateFacts out q (on_parameters_set out.yaml out.load (is_active_state q) ps s).1
      next active (a, b, same, r) (c, opened, has, serving, routes) =
          let (configs, settings) = on_parameters_set-SameSettings out.yaml out.load ps s in
          (c, a ∙ opened, b ∙ has, rw settings serving, rw (settings, configs, same) routes)
      next unconfigured (a, b, same, r) (shut, gone) = (a ∙ shut, b ∙ gone)
      next inactive (a, b, same, r) (shut, gone) = (a ∙ shut, b ∙ gone)
      next finalized (a, b, same, r) shut = a ∙ shut
      next (other_state n) (a, b, same, r) shut = a ∙ shut

  Step-NodeFacts :
      {y z : LifecycleState × MosquittoSink} → Step out y z → NodeFacts out y → NodeFacts out z
  Step-NodeFacts (configures d s) h = on_configure-facts out d s h
  Step-NodeFacts (activates s) h = on_activate-facts out s h
  Step-NodeFacts (deactivates s) h = (stopped-facts out s h.0).0
  Step-NodeFacts (cleans_up s) h = (stopped-facts out s h.0).1
  Step-NodeFacts (shuts_down p s) h = (stopped-facts out s h.0).2
  Step-NodeFacts (sets_parameters p ps s) h = on_parameters_set-facts p ps s h
  Step-NodeFacts (receives p i m s) h = on_message-facts out p i m s h
  Step-NodeFacts (publishes p s) h = on_metrics-facts out p s h
  Step-NodeFacts (connects_again p s) h =
      on_client-facts out (handle_connected out.paho) p s
        (λ q c k. handle_connected-IsServing out.paho q c k) h
  Step-NodeFacts (drops_out p cause s) h =
      on_client-facts out (connection_lost cause) p s
        (λ q c k. connection_lost-IsServing out.paho q cause c k) h

  pub Reach-NodeFacts : {y : LifecycleState × MosquittoSink} → Reach out y → NodeFacts out y
  unfolding validate_mqtt_parameters
  Reach-NodeFacts launched = ((refl, tt, tt), (refl, refl))
  Reach-NodeFacts (later before step) = Step-NodeFacts step (Reach-NodeFacts before)
