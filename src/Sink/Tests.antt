-- ===== src/Sink/Tests.antt =====
-- kafka_sink at concrete inputs: two subscriptions, a broker that takes every record but the first,
-- and a type support of one header.
use ros2_dispatcher.Prelude.{
  ℕ, zero, suc, ◌+◌, ◌<◌, ◌≤◌, ◌*◌, leb, String, true, false, Option, none, some, List, [], ◌∷◌,
  map, All, ◌≡◌, refl, subst, arith, if◌then◌else◌, ◌==◌, pos, negsuc, eq_iff,
}
use ros2_dispatcher.Json.{
  text, number, object, JsonMembers, no_members, json_member, find_member, member_of, Nlohmann,
}
use ros2_dispatcher.Producer.Types.{Librdkafka, no_error, err_queue_full}
use ros2_dispatcher.Controller.Types.{
  TopicInfo, integer_value, string_value, unconfigured, inactive, active,
}
use ros2_dispatcher.Controller.World.{Yaml, scalar, sequence, mapping, ok}
use ros2_dispatcher.Controller.LoadFile.{YamlCpp, topics_to_yaml, topics_document}
use ros2_dispatcher.Sink.Types.{ActiveSubscription, ProducerObject, Sink}
use ros2_dispatcher.Sink.Outside.{Outside, subscribed}
use ros2_dispatcher.Sink.Message.{
  FieldType, MemberInfo, message_members, MemberList, members_end, member, plain, Memory, Sizes,
  build_json_message,
}
use ros2_dispatcher.Sink.Message.Members.{declared, build_json_message-declared}
use ros2_dispatcher.Sink.Envelope.{envelope}
use ros2_dispatcher.Sink.Envelope.Members.{IsStamped, envelope-IsStamped}
use ros2_dispatcher.Sink.Names.{IsTopicName}
use ros2_dispatcher.Sink.Names.Laws.{map_kafka_topic_inj}
use ros2_dispatcher.Sink.Settings.{NodeParameters, to_int, build_producer_config}
use ros2_dispatcher.Sink.Subscriptions.{parse_subscriptions_yaml}
use ros2_dispatcher.Sink.Subscriptions.Laws.{
  ReadsScalars, IsPlain, entry_of, config_of, parse_subscriptions_yaml-topics_to_yaml,
}
use ros2_dispatcher.Sink.Stream.{Arrival}
use ros2_dispatcher.Sink.Samples.{Doubles, percentile_index, calculate_percentile}
use ros2_dispatcher.Sink.Samples.Percentile.{how_many, calculate_percentile-rank}
use ros2_dispatcher.Sink.Parameters.{on_parameters_set}
use ros2_dispatcher.Sink.Life.{on_configure, on_activate, subscription_of, started_object}
use ros2_dispatcher.Sink.Session.{
  initial_sink, deliver, on_message, on_round, on_metrics, Reach, launched, later, configures,
  activates, receives, publishes, polls, settled,
}
use ros2_dispatcher.Sink.Accounting.{AllCounted}
use ros2_dispatcher.Sink.Counted.{Reach-AllCounted}
use ros2_dispatcher.Sink.Agreement.{Agrees, deliver-Agrees}
use ros2_dispatcher.Sink.Refused.{on_parameters_set-refused}

abbrev pub scan : TopicInfo
scan = record { name = "/scan"; type = "sensor_msgs/msg/LaserScan" }

abbrev pub odom : TopicInfo
odom = record { name = "/odom"; type = "nav_msgs/msg/Odometry" }

abbrev pub topics : List TopicInfo
topics = scan ∷ odom ∷ []

abbrev text_of : Yaml → Option String
text_of (scalar s) = some s
text_of _ = none

abbrev child_of : Yaml → String → Option (Option Yaml)
child_of (mapping es) key = some (entry_of key es)
child_of _ key = some none

abbrev pub yaml : YamlCpp
yaml = record {
  as_bool = λ _. none;
  as_int64 = λ _. none;
  as_double = λ _. none;
  as_string = text_of;
  child = child_of;
  what = "bad conversion";
  emit = λ _. "two topics";
}

abbrev pub load : String → Option Yaml
load s = if s == "two topics" then some (sequence (topics_document yaml topics)) else none

abbrev kafka : Librdkafka
kafka = record {
  conf_set = λ _ _. none;
  create = λ _. none;
  produce = λ h _. elim h [ [] ↦ err_queue_full | _ ∷ _ ↦ no_error ];
  err2str = λ _. "queue full";
}

-- Doubles as hundredths.
abbrev pub doubles : Doubles
doubles = record {
  of_nat = λ n. n;
  of_int = λ z. elim z [ pos n ↦ n | negsuc n ↦ 0 ];
  hundredths = λ n. n;
  multiply = λ a b. a;
  divide = λ a b. 0;
  is_above_zero = λ n. false;
  to_size = λ n. elim n [ zero ↦ 0 | suc _ ↦ 1 ];
}

abbrev pub nl : Nlohmann
nl = record { dump = λ j. some "{}"; parse = λ s. none; truncate = λ b. pos 0 }

abbrev pub memory : Memory
memory = record {
  bool_at = λ p. true;
  char_at = λ p. pos 97;
  unsigned_at = λ w p. p;
  signed_at = λ w p. pos p;
  is_finite = λ w p. true;
  as_double = λ w p. 0;
  string_at = λ p. "map";
  utf8_of_wstring_at = λ p. "map";
}

abbrev pub sizes : Sizes
sizes = record { string_size = 32; wstring_size = 32 }

abbrev out : Outside
out = record {
  kafka = kafka;
  yaml = yaml;
  load = load;
  nl = nl;
  doubles = doubles;
  rmw = record { allocate = λ n. 64; deserialize = λ b p. some memory; sizes = sizes };
  utf8 = λ s. [];
  find_type_support = λ t. none;
  create_subscription = λ n t. subscribed;
}

abbrev parameters : NodeParameters
parameters = record {
  subscriptions_yaml = "two topics";
  qos_depth = 10;
  metrics_enabled = true;
  metrics_interval_ms = 1000;
  metrics_topic = "kafka_sink/metrics";
  telemetry_enabled = false;
  telemetry_log_every_n = 1;
  bootstrap_servers = "localhost:9092";
  client_id = "kafka_sink";
  acks = "all";
  topic_prefix = "ros2";
  message_key = "robot";
  topic_mapping_mode = "prefix_ros_topic";
  fixed_topic = "ros2.raw";
  strict_startup = false;
  max_queue_messages = 1024;
  drop_when_full = true;
  linger_ms = 5;
  batch_size = 1000;
  payload_format = "cdr";
}

abbrev pub arrival : Arrival
arrival = record { bytes = 1 ∷ 2 ∷ []; now_ns = 5; serialize_ns = 1; send_ns = 2 }

abbrev configured : Sink
configured = (on_configure out parameters initial_sink).1

abbrev running : Sink
running = (on_activate out configured).1

abbrev streaming : Sink
streaming =
    on_metrics out (on_round out (on_message out 1 arrival (on_message out 0 arrival running)))

configured_ok : (on_configure out parameters initial_sink).0 ≡ ok true
unfolding on_configure parse_subscriptions_yaml topics_document
    ros2_dispatcher.Sink.Subscriptions.parse_subscription
configured_ok = refl

activated_ok : (on_activate out configured).0 ≡ ok true
unfolding on_activate on_configure ros2_dispatcher.Producer.Config.configure
    parse_subscriptions_yaml topics_document ros2_dispatcher.Sink.Subscriptions.parse_subscription
activated_ok = refl

activated : Reach out (active, running)
unfolding settled
activated =
    let step : Reach out (inactive, configured) =
      subst (λ r. Reach out (settled unconfigured inactive r, configured)) configured_ok
        (later launched (configures parameters initial_sink)) in
    subst (λ r. Reach out (settled inactive active r, running)) activated_ok
      (later step (activates configured))

-- Two messages, a round of the producer and a report.
streamed : Reach out (active, streaming)
streamed =
    later
      (later
        (later (later activated (receives active 0 arrival running))
          (receives active 1 arrival (on_message out 0 arrival running)))
        (polls active (on_message out 1 arrival (on_message out 0 arrival running))))
      (publishes active
        (on_round out (on_message out 1 arrival (on_message out 0 arrival running))))

Reach-AllCounted_example : AllCounted streaming.active_subscriptions
Reach-AllCounted_example = Reach-AllCounted out streamed

abbrev serving : ProducerObject
serving = (started_object out (build_producer_config initial_sink.kafka_parameters)).1

abbrev two : List ActiveSubscription
two =
    subscription_of out initial_sink.kafka_parameters (config_of scan)
    ∷ subscription_of out initial_sink.kafka_parameters (config_of odom)
    ∷ []

deliver-Agrees_example :
    Agrees two
      (deliver out 1 arrival two serving).0
      serving.state
      (deliver out 1 arrival two serving).1.state
unfolding subscription_of started_object ros2_dispatcher.Producer.Config.configure
    build_producer_config
deliver-Agrees_example = deliver-Agrees out 1 arrival two serving (refl, (refl, tt)) refl

pub reads : ReadsScalars yaml
reads = record { as_string-scalar = λ s. refl; child-mapping = λ es key. refl }

pub topics-AllPlain : All IsPlain topics
unfolding ros2_dispatcher.Text.trim
topics-AllPlain = (
  (refl, ground (arith, eq_iff scan.name ""), refl, ground (arith, eq_iff scan.type "")),
  ((refl, ground (arith, eq_iff odom.name ""), refl, ground (arith, eq_iff odom.type "")), tt),
)

parse_subscriptions_yaml-topics_to_yaml_example :
    parse_subscriptions_yaml yaml load (topics_to_yaml yaml topics) ≡ ok (map config_of topics)
unfolding topics_to_yaml
parse_subscriptions_yaml-topics_to_yaml_example =
    parse_subscriptions_yaml-topics_to_yaml yaml reads load topics refl
      (ground (arith, eq_iff "two topics" "")) topics-AllPlain

pub scan-IsTopicName : IsTopicName scan.name
scan-IsTopicName = (refl, (ground arith, (ground arith, (ground arith, (ground arith, tt)))))

map_kafka_topic_inj_example : scan.name ≡ scan.name
map_kafka_topic_inj_example =
    map_kafka_topic_inj initial_sink.kafka_parameters scan.name scan.name refl scan-IsTopicName
      scan-IsTopicName refl

abbrev stamp_members : JsonMembers
stamp_members =
    json_member "nanosec" (number (pos 7)) (json_member "sec" (number (pos 3)) no_members)

abbrev header_members : JsonMembers
header_members =
    json_member "frame_id" (text "map") (json_member "stamp" (object stamp_members) no_members)

abbrev message_members_json : JsonMembers
message_members_json = json_member "header" (object header_members) no_members

envelope-IsStamped_example :
    (ns : JsonMembers) × (envelope nl (object message_members_json) (pos 5) ≡ ok (object ns))
    × IsStamped message_members_json ns (pos (1000000000 * 3 + 7)) (pos 5)
unfolding find_member
envelope-IsStamped_example =
    envelope-IsStamped nl message_members_json 3 7 (pos 5)
      (record {
        header = header_members;
        stamp = stamp_members;
        header_is = refl;
        stamp_is = refl;
        sec_is = refl;
        nanosec_is = refl;
      })
      (ground arith) (ground arith)

abbrev frame_id : MemberInfo
frame_id = record {
  name = "frame_id";
  type_id = FieldType.string;
  offset = 8;
  is_array = false;
  array_size = 0;
  size_function = none;
  get_const_function = none;
}

abbrev header : MemberList
header = member frame_id plain members_end

build_json_message-declared_example :
    member_of "frame_id" (build_json_message memory sizes (message_members 40 header) 64)
    ≡ declared memory sizes "frame_id" header 64
build_json_message-declared_example =
    build_json_message-declared memory sizes "frame_id" 40 header 64

calculate_percentile-rank_example :
    (v : ℕ) × (calculate_percentile doubles (9 ∷ 4 ∷ 6 ∷ []) 95 ≡ some v)
    × (percentile_index doubles 95 3 < how_many (λ z. leb z v) (9 ∷ 4 ∷ 6 ∷ []))
    × (3 ≤ percentile_index doubles 95 3 + how_many (λ z. leb v z) (9 ∷ 4 ∷ 6 ∷ []))
unfolding percentile_index
calculate_percentile-rank_example =
    calculate_percentile-rank doubles 9 (4 ∷ 6 ∷ []) 95 (ground arith)

on_parameters_set-refused_example :
    on_parameters_set yaml load false
      (record { name = "subscriptions_yaml"; value = string_value "" }
        ∷ record { name = "qos_depth"; value = integer_value 0 }
        ∷ [])
      configured
    ≡ (
      ok (record { successful = false; reason = "qos_depth must be greater than zero." }),
      record configured { configured_subscriptions = [] },
    )
unfolding parse_subscriptions_yaml to_int
on_parameters_set-refused_example = on_parameters_set-refused yaml load configured "" 0 [] refl refl
