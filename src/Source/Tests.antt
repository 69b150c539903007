-- ===== src/Source/Tests.antt =====
-- kafka_source at concrete inputs: a consumer that starts, and a message of a topic of kafka_sink.
use ros2_dispatcher.Prelude.{
  ℕ, ◌<◌, String, Bool, true, false, none, some, List, [], ◌∷◌, ◌≡◌, ◌⊕◌, refl, subst, arith,
  eq_iff, pos,
}
use ros2_dispatcher.Controller.Types.{integer_value, unconfigured, inactive, active}
use ros2_dispatcher.Controller.World.{ok}
use ros2_dispatcher.Sink.Names.{map_kafka_topic}
use ros2_dispatcher.Sink.Session.{settled, initial_sink}
use ros2_dispatcher.Sink.Settings.{to_int}
use ros2_dispatcher.Sink.Tests.{doubles, scan-IsTopicName}
use ros2_dispatcher.Source.Life.{KafkaConsumer, on_configure, on_activate}
use ros2_dispatcher.Source.Metrics.{Fixed, publish_metrics}
use ros2_dispatcher.Source.Refused.{on_parameters_set-stored}
use ros2_dispatcher.Source.Session.{initial_source, Reach, launched, later, configures, activates}
use ros2_dispatcher.Source.Settings.{NodeParameters, validate_parameters, on_parameters_set}
use ros2_dispatcher.Source.Stream.{Ros, publisher_made, consumed, poll_once, process_message}
use ros2_dispatcher.Source.Topics.{derive_ros_topic, parse_topic_mappings}
use ros2_dispatcher.Source.Topics.Laws.{derive_ros_topic-map_kafka_topic}
use ros2_dispatcher.Source.Types.{Message, Received, Source}

abbrev kafka : KafkaConsumer
kafka = record {
  conf_create = λ _. none;
  conf_set = λ _ _ _. none;
  create = λ _ _. none;
  subscribe = λ _ _. none;
}

abbrev ros : Ros
ros = record { type_support_error = λ _. none; create_publisher = λ _ _. publisher_made }

abbrev fx : Fixed
fx = record {
  doubles = doubles;
  min = λ a b. b;
  max = λ a b. b;
  ceil = λ a. a;
  three_decimals = λ _. "0.000";
}

abbrev parameters : NodeParameters
parameters = record {
  bootstrap_servers = "localhost:9092";
  group_id = "group";
  topic_pattern = "^ros2\\..*";
  offset_reset = "earliest";
  ros_topic_prefix = "/kafka_decoded/";
  qos_depth = 10;
  metrics_enabled = true;
  metrics_interval_ms = 1000;
  metrics_topic = "kafka_source/metrics";
  topic_mappings = "a = b ,c";
}

mappings_example : parse_topic_mappings "a = b ,c,=d, e=f" ≡ ("a", "b") ∷ ("e", "f") ∷ []
unfolding parse_topic_mappings ros2_dispatcher.Source.Topics.put
mappings_example = refl

derived_example : derive_ros_topic "kafka_decoded/" "ros2.a..b." ≡ "/kafka_decoded/a/b"
unfolding derive_ros_topic
derived_example = refl

abbrev message : Message
message = record {
  topic_name = "ros2.scan";
  payload = 1 ∷ 2 ∷ [];
  ros_types = some ("sensor_msgs/msg/LaserScan" ∷ []);
  timestamp = some (pos 3);
  system_ns = 4000000;
  clock_ns = 4000000;
}

abbrev configured : Source
configured = (on_configure parameters initial_source).1

abbrev running : Source
running = (on_activate kafka configured).1

abbrev in_hand : Received
in_hand = record {
  key = "/kafka_decoded/scan|sensor_msgs/msg/LaserScan";
  ros_topic = "/kafka_decoded/scan";
  ros_type = "sensor_msgs/msg/LaserScan";
  message = message;
}

abbrev received : Source
received = (poll_once (consumed message) running).1

-- The timer reports while the message is in hand.
abbrev reported : Source
reported = (publish_metrics fx 9 received).1

configured_ok : (on_configure parameters initial_source).0 ≡ true
unfolding on_configure
configured_ok = refl

activated_ok : (on_activate kafka configured).0 ≡ true
unfolding on_activate
activated_ok = refl

activated : Reach kafka ros fx (active, none, running)
unfolding settled
activated =
    let step : Reach kafka ros fx (inactive, none, configured) =
      subst (λ r. Reach kafka ros fx (settled unconfigured inactive (ok r), none, configured))
        configured_ok (later launched (configures parameters initial_source)) in
    subst (λ r. Reach kafka ros fx (settled inactive active (ok r), none, running)) activated_ok
      (later step (activates configured))

-- The report lies between: the message is received and decoded now, and was received only then.
counted :
    ((process_message ros in_hand reported).1.metrics
      ≡ (
        "/kafka_decoded/scan|sensor_msgs/msg/LaserScan",
        record {
          ros_topic = "/kafka_decoded/scan";
          ros_type = "sensor_msgs/msg/LaserScan";
          received = 1;
          decoded = 1;
          failed = 0;
          bytes = 2;
          latency_ns_accum = 1000000;
          latency_ns_max = 1000000;
          latency_samples = 1000000 ∷ [];
          prev_received = 1;
          prev_decoded = 0;
          prev_failed = 0;
          prev_bytes = 2;
        },
      )
        ∷ [])
unfolding process_message poll_once on_activate on_configure publish_metrics
    ros2_dispatcher.Prelude.contains ros2_dispatcher.OrderedMap.find
    ros2_dispatcher.Source.Topics.put
counted = refl

derive_ros_topic-map_kafka_topic_example :
    derive_ros_topic "/k" (map_kafka_topic initial_sink.kafka_parameters "/scan") ≡ "/k/scan"
unfolding ros2_dispatcher.Source.Topics.pop_slash ros2_dispatcher.Source.Topics.lead_slash
    ros2_dispatcher.Mosquitto.Names.ends_with_slash
derive_ros_topic-map_kafka_topic_example =
    derive_ros_topic-map_kafka_topic initial_sink.kafka_parameters "/k" "/scan" refl refl
      scan-IsTopicName (ground (arith, eq_iff "/scan" "/"))
      (refl, (refl, (refl, (refl, (refl, (refl, tt)))))) refl

on_parameters_set-stored_example :
    let (answer, t) =
      on_parameters_set
        (record { name = "qos_depth"; value = integer_value 0 } ∷ [])
        initial_source in
    (answer ≡ ok (record { successful = false; reason = "qos_depth must be > 0." }))
    × ((on_activate kafka t).0 ≡ true)
    × ((on_activate kafka t).1.qos_depth ≡ to_int 0)
unfolding validate_parameters to_int ros2_dispatcher.Source.Life.consumer_error
on_parameters_set-stored_example =
    on_parameters_set-stored kafka 0 initial_source refl refl refl refl
