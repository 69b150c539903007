-- ===== src/Mosquitto/Session.antt =====
-- mosquitto_sink in use: the transitions that rclcpp_lifecycle makes of the callbacks' results, with
-- parameters, messages, metrics and the callbacks of Paho between them, in any order.
use ros2_dispatcher.Prelude.{
  ℕ, zero, suc, false, String, none, some, List, [], ◌∷◌, if◌then◌else◌, pos,
}
use ros2_dispatcher.Controller.Types.{
  Parameter, LifecycleState, unconfigured, inactive, active, finalized,
}
use ros2_dispatcher.Sink.Session.{settled, is_active_state}
use ros2_dispatcher.Sink.Stream.{Arrival}
use ros2_dispatcher.Sink.Types.{prefix_ros_topic, cdr}
use ros2_dispatcher.Mosquitto.Client.{MqttClient, handle_connected, connection_lost}
use ros2_dispatcher.Mosquitto.Life.{
  on_configure, on_activate, on_deactivate, on_cleanup, on_shutdown,
}
use ros2_dispatcher.Mosquitto.Metrics.{publish_metrics}
use ros2_dispatcher.Mosquitto.Outside.{Outside}
use ros2_dispatcher.Mosquitto.Parameters.{on_parameters_set}
use ros2_dispatcher.Mosquitto.Settings.{NodeParameters}
use ros2_dispatcher.Mosquitto.Stream.{handle_message}
use ros2_dispatcher.Mosquitto.Types.{MqttParameters, ActiveSubscription, MosquittoSink}

-- The members as they are declared.
abbrev pub initial_sink : MosquittoSink
initial_sink = record {
  configured_subscriptions = [];
  active_subscriptions = [];
  mqtt_parameters = record {
    broker_host = "localhost";
    broker_port = pos 1883;
    client_id = "mosquitto_sink";
    username = "";
    password = "";
    qos = pos 1;
    retain = false;
    keep_alive_seconds = pos 60;
    topic_prefix = "ros2";
    topic_mapping_mode = prefix_ros_topic;
    fixed_topic = "ros2/raw";
    payload_format = cdr;
    use_tls = false;
    ca_cert_path = "";
    lwt_topic = "";
    lwt_payload = "mosquitto_sink disconnected";
    lwt_qos = pos 1;
    lwt_retain = false;
    message_key = "";
  };
  mqtt_runtime = none;
  retired = [];
  is_active = false;
  qos_depth = pos 10;
  metrics_enabled = false;
  metrics_interval_ms = pos 1000;
  metrics_topic = "mosquitto_sink/metrics";
  metrics_pub = false;
  metrics_timer = false;
}

-- What a callback of Paho does to the client of the node.
unfoldable pub on_client : (MqttClient → MqttClient) → MosquittoSink → MosquittoSink
on_client f s = elim s.mqtt_runtime [ none ↦ s | some c ↦ record s { mqtt_runtime = some (f c) } ]

module _ (out : Outside) where
  -- A message for the i-th subscription, with the client that the callback has taken.
  unfoldable pub deliver :
      MqttParameters
      → ℕ
      → Arrival
      → List ActiveSubscription
      → MqttClient
      → List ActiveSubscription × MqttClient
  unfolding handle_message
  deliver p i m [] c = ([], c)
  deliver p zero m (a ∷ rest) c =
      let (threw, rt, c') = handle_message out p m a.runtime_state c in
      (record a { runtime_state = rt } ∷ rest, c')
  deliver p (suc i) m (a ∷ rest) c = let (rest', c') = deliver p i m rest c in (a ∷ rest', c')

  unfoldable pub on_message : ℕ → Arrival → MosquittoSink → MosquittoSink
  unfolding deliver
  on_message i m s =
      if s.is_active
      then elim s.mqtt_runtime [
        | none ↦ s
        | some c ↦
            let (subscriptions, c') = deliver s.mqtt_parameters i m s.active_subscriptions c in
            record s { active_subscriptions = subscriptions; mqtt_runtime = some c' }
      ]
      else s

  -- The callback of metrics_timer_.
  unfoldable pub on_metrics : MosquittoSink → MosquittoSink
  unfolding publish_metrics
  on_metrics s = (publish_metrics out.doubles out.paho out.nl s).1

  pub data Step : LifecycleState × MosquittoSink → LifecycleState × MosquittoSink → Type 0 where
    configures :
        (d : NodeParameters) (s : MosquittoSink)
        → Step
            (unconfigured, s)
            (settled unconfigured inactive (on_configure out d s).0, (on_configure out d s).1)
    activates :
        (s : MosquittoSink)
        → Step (inactive, s) (settled inactive active (on_activate out s).0, (on_activate out s).1)
    deactivates : (s : MosquittoSink) → Step (active, s) (inactive, (on_deactivate out s).1)
    cleans_up : (s : MosquittoSink) → Step (inactive, s) (unconfigured, (on_cleanup out s).1)
    shuts_down :
        (p : LifecycleState) (s : MosquittoSink) → Step (p, s) (finalized, (on_shutdown out s).1)
    sets_parameters :
        (p : LifecycleState) (ps : List Parameter) (s : MosquittoSink)
        → Step (p, s) (p, (on_parameters_set out.yaml out.load (is_active_state p) ps s).1)
    receives :
        (p : LifecycleState) (i : ℕ) (m : Arrival) (s : MosquittoSink)
        → Step (p, s) (p, on_message i m s)
    publishes : (p : LifecycleState) (s : MosquittoSink) → Step (p, s) (p, on_metrics s)
    connects_again :
        (p : LifecycleState) (s : MosquittoSink)
        → Step (p, s) (p, on_client (handle_connected out.paho) s)
    drops_out :
        (p : LifecycleState) (cause : String) (s : MosquittoSink)
        → Step (p, s) (p, on_client (connection_lost cause) s)

  pub data Reach : LifecycleState × MosquittoSink → Type 0 where
    launched : Reach (unconfigured, initial_sink)
    later : {y z : LifecycleState × MosquittoSink} → Reach y → Step y z → Reach z
