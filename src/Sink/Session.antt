-- ===== src/Sink/Session.antt =====
-- kafka_sink in use: the transitions that rclcpp_lifecycle makes of the callbacks' results, with
-- parameters, messages, metrics and rounds of the producer's thread between them, in any order.
use ros2_dispatcher.Prelude.{
  ℕ, zero, suc, Bool, true, false, none, some, List, [], ◌∷◌, if◌then◌else◌, pos,
}
use ros2_dispatcher.Producer.Ops.{poll_round}
use ros2_dispatcher.Controller.Types.{
  Parameter, LifecycleState, unconfigured, inactive, active, finalized,
}
use ros2_dispatcher.Controller.World.{Outcome, ok, fail, thrown}
use ros2_dispatcher.Sink.Types.{prefix_ros_topic, cdr, ActiveSubscription, ProducerObject, Sink}
use ros2_dispatcher.Sink.Outside.{Outside}
use ros2_dispatcher.Sink.Settings.{NodeParameters}
use ros2_dispatcher.Sink.Parameters.{on_parameters_set}
use ros2_dispatcher.Sink.Stream.{Arrival, handle_message}
use ros2_dispatcher.Sink.Metrics.{publish_metrics}
use ros2_dispatcher.Sink.Life.{on_configure, on_activate, on_deactivate, on_cleanup, on_shutdown}

-- The members as they are declared.
abbrev pub initial_sink : Sink
initial_sink = record {
  configured_subscriptions = [];
  active_subscriptions = [];
  kafka_parameters = record {
    bootstrap_servers = "localhost:9092";
    client_id = "kafka_sink";
    acks = "all";
    topic_prefix = "ros2";
    message_key = "robot";
    topic_mapping_mode = prefix_ros_topic;
    fixed_topic = "ros2.raw";
    strict_startup = false;
    max_queue_messages = 1024;
    drop_when_full = true;
    linger_ms = none;
    batch_size = none;
    payload_format = cdr;
  };
  kafka_producer = none;
  retired = [];
  is_active = false;
  qos_depth = pos 10;
  metrics_enabled = false;
  metrics_interval_ms = pos 1000;
  metrics_topic = "kafka_sink/metrics";
  metrics_pub = false;
  metrics_timer = false;
  telemetry_enabled = false;
  telemetry_log_every_n = pos 1;
}

abbrev pub is_active_state : LifecycleState → Bool
is_active_state active = true
is_active_state _ = false

-- What rclcpp_lifecycle makes of a result: the target, the state before, or after an exception
-- the final state, as with no on_error.
unfoldable pub settled : LifecycleState → LifecycleState → Outcome Bool → LifecycleState
settled before target (ok true) = target
settled before target (ok false) = before
settled before target (fail e) = finalized
settled before target (thrown e) = finalized

module _ (out : Outside) where
  -- A message for the i-th subscription, with the producer that the callback has taken.
  unfoldable pub deliver :
      ℕ
      → Arrival
      → List ActiveSubscription
      → ProducerObject
      → List ActiveSubscription × ProducerObject
  unfolding handle_message
  deliver i m [] o = ([], o)
  deliver zero m (a ∷ rest) o =
      let (threw, rt, o') = handle_message out m a.runtime_state o in
      (record a { runtime_state = rt } ∷ rest, o')
  deliver (suc i) m (a ∷ rest) o = let (rest', o') = deliver i m rest o in (a ∷ rest', o')

  unfoldable pub on_message : ℕ → Arrival → Sink → Sink
  unfolding deliver
  on_message i m s =
      if s.is_active
      then elim s.kafka_producer [
        | none ↦ s
        | some o ↦
            let (subscriptions, o') = deliver i m s.active_subscriptions o in
            record s { active_subscriptions = subscriptions; kafka_producer = some o' }
      ]
      else s

  unfoldable pub on_round : Sink → Sink
  unfolding poll_round
  on_round s = elim s.kafka_producer [
    | none ↦ s
    | some o ↦ record s {
      kafka_producer = some (record o { state = poll_round out.kafka o.config o.state });
    }
  ]

  -- The callback of metrics_timer_.
  unfoldable pub on_metrics : Sink → Sink
  unfolding publish_metrics
  on_metrics s = (publish_metrics out.doubles out.nl s).1

  pub data Step : LifecycleState × Sink → LifecycleState × Sink → Type 0 where
    configures :
        (d : NodeParameters) (s : Sink)
        → Step
            (unconfigured, s)
            (settled unconfigured inactive (on_configure out d s).0, (on_configure out d s).1)
    activates :
        (s : Sink)
        → Step (inactive, s) (settled inactive active (on_activate out s).0, (on_activate out s).1)
    deactivates : (s : Sink) → Step (active, s) (inactive, (on_deactivate s).1)
    cleans_up : (s : Sink) → Step (inactive, s) (unconfigured, (on_cleanup s).1)
    shuts_down : (p : LifecycleState) (s : Sink) → Step (p, s) (finalized, (on_shutdown s).1)
    sets_parameters :
        (p : LifecycleState) (ps : List Parameter) (s : Sink)
        → Step (p, s) (p, (on_parameters_set out.yaml out.load (is_active_state p) ps s).1)
    receives :
        (p : LifecycleState) (i : ℕ) (m : Arrival) (s : Sink) → Step (p, s) (p, on_message i m s)
    publishes : (p : LifecycleState) (s : Sink) → Step (p, s) (p, on_metrics s)
    polls : (p : LifecycleState) (s : Sink) → Step (p, s) (p, on_round s)

  pub data Reach : LifecycleState × Sink → Type 0 where
    launched : Reach (unconfigured, initial_sink)
    later : {y z : LifecycleState × Sink} → Reach y → Step y z → Reach z
