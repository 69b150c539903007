-- ===== src/Source/Session.antt =====
-- kafka_source in use: the transitions that rclcpp_lifecycle makes of the callbacks' results, with
-- parameters, turns of poll_loop and metrics between them, in any order. A turn of the thread is two
-- steps, with the message that it has received in hand between them: there the metrics can be
-- reported, and parameters set. What the thread does behind the counters of what is received and
-- before the last counter touches nothing that a report reads, so a report there is one before the
-- second step. on_deactivate, on_cleanup and on_shutdown wait in join for the turn to end. A turn
-- that throws ends the process.
use ros2_dispatcher.Prelude.{ℕ, true, false, Option, none, some, List, [], ◌≡◌, pos}
use ros2_dispatcher.Controller.Types.{
  Parameter, LifecycleState, unconfigured, inactive, active, finalized,
}
use ros2_dispatcher.Controller.World.{ok}
use ros2_dispatcher.Sink.Session.{settled}
use ros2_dispatcher.Source.Life.{
  KafkaConsumer, on_configure, on_activate, on_deactivate, on_cleanup, on_shutdown,
}
use ros2_dispatcher.Source.Metrics.{Fixed, publish_metrics}
use ros2_dispatcher.Source.Settings.{NodeParameters, on_parameters_set}
use ros2_dispatcher.Source.Stream.{Ros, Consumed, poll_once, process_message}
use ros2_dispatcher.Source.Types.{Received, Source}

-- The members as they are declared.
abbrev pub initial_source : Source
initial_source = record {
  kafka_parameters = record {
    bootstrap_servers = "localhost:9092";
    group_id = "ros2-kafka-source";
    topic_pattern = "^ros2\\..*";
    offset_reset = "latest";
  };
  ros_topic_prefix = "/kafka_decoded";
  qos_depth = pos 10;
  metrics_enabled = true;
  metrics_interval_ms = pos 1000;
  metrics_topic = "kafka_source/metrics";
  topic_mappings = [];
  has_consumer = false;
  has_thread = false;
  is_running = false;
  is_active = false;
  type_support_cache = [];
  publishers = [];
  metrics = [];
  next_error_log_time_ns = 0;
  metrics_pub = false;
  metrics_timer = false;
  attempts = 0;
  published = [];
}

-- The state of the lifecycle, the message that the thread has in hand, and the node.
abbrev pub Running : Type 0
Running = LifecycleState × Option Received × Source

module _ (kafka : KafkaConsumer) (ros : Ros) (fx : Fixed) where
  pub data Step : Running → Running → Type 0 where
    configures :
        (d : NodeParameters) (s : Source)
        → Step
            (unconfigured, none, s)
            (settled unconfigured inactive (ok (on_configure d s).0), none, (on_configure d s).1)
    activates :
        (s : Source)
        → Step
            (inactive, none, s)
            (settled inactive active (ok (on_activate kafka s).0), none, (on_activate kafka s).1)
    deactivates : (s : Source) → Step (active, none, s) (inactive, none, (on_deactivate s).1)
    cleans_up : (s : Source) → Step (inactive, none, s) (unconfigured, none, (on_cleanup s).1)
    shuts_down :
        (p : LifecycleState) (s : Source) → Step (p, none, s) (finalized, none, (on_shutdown s).1)
    sets_parameters :
        (p : LifecycleState) (in_hand : Option Received) (ps : List Parameter) (s : Source)
        → Step (p, in_hand, s) (p, in_hand, (on_parameters_set ps s).1)
    polls :
        (p : LifecycleState) (c : Consumed) (s : Source)
        → s.has_thread ≡ true
        → Step (p, none, s) (p, (poll_once c s).0, (poll_once c s).1)
    processes :
        (p : LifecycleState) (r : Received) (s : Source)
        → (process_message ros r s).0 ≡ ok true
        → Step (p, some r, s) (p, none, (process_message ros r s).1)
    reports :
        (p : LifecycleState) (in_hand : Option Received) (now_ns : ℕ) (s : Source)
        → Step (p, in_hand, s) (p, in_hand, (publish_metrics fx now_ns s).1)

  pub data Reach : Running → Type 0 where
    launched : Reach (unconfigured, none, initial_source)
    later : {y z : Running} → Reach y → Step y z → Reach z
