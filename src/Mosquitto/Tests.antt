-- ===== src/Mosquitto/Tests.antt =====
-- mosquitto_sink at concrete inputs: two subscriptions, a broker that takes every message, a connection
-- that is lost and comes back, and a payload with a header.
use ros2_dispatcher.Prelude.{
  map, All, true, false, none, some, [], ◌≡◌, refl, subst, arith, pos, eq_iff,
}
use ros2_dispatcher.Json.{text, object, JsonMembers, no_members, json_member, find_member, Nlohmann}
use ros2_dispatcher.Controller.Types.{unconfigured, inactive, active}
use ros2_dispatcher.Controller.World.{ok}
use ros2_dispatcher.Controller.LoadFile.{topics_document, topics_to_yaml}
use ros2_dispatcher.Sink.Outside.{subscribed}
use ros2_dispatcher.Sink.Session.{settled}
use ros2_dispatcher.Sink.Tests.{
  yaml, load, topics, scan, reads, topics-AllPlain, doubles, nl, memory, sizes, arrival,
}
use ros2_dispatcher.Mosquitto.Client.{Paho, handle_connected, connection_lost}
use ros2_dispatcher.Mosquitto.Life.{on_configure, on_activate}
use ros2_dispatcher.Mosquitto.Outside.{Outside}
use ros2_dispatcher.Mosquitto.Payload.{apply_message_key_to_json}
use ros2_dispatcher.Mosquitto.Payload.Members.{IsKeyed, dumped, apply_message_key_to_json-IsKeyed}
use ros2_dispatcher.Mosquitto.Reported.{IsEven, Reach-IsEven}
use ros2_dispatcher.Mosquitto.Session.{
  initial_sink, on_client, on_message, on_metrics, Reach, launched, later, configures, activates,
  receives, publishes, connects_again, drops_out,
}
use ros2_dispatcher.Mosquitto.Settings.{NodeParameters}
use ros2_dispatcher.Mosquitto.Subscriptions.{parse_subscriptions_yaml}
use ros2_dispatcher.Mosquitto.Subscriptions.Laws.{unnamed, parse_subscriptions_yaml-unnamed}
use ros2_dispatcher.Mosquitto.Names.Laws.{map_mqtt_topic_inj}
use ros2_dispatcher.Mosquitto.Types.{MosquittoSink}

abbrev paho : Paho
paho = record {
  create = λ _ _. none;
  connect_error = λ _ _. none;
  is_connected = λ _. true;
  disconnect_error = λ _. none;
  publish_error = λ _ _ _. none;
  steady_clock = λ _. 7;
}

abbrev out : Outside
out = record {
  paho = paho;
  yaml = yaml;
  load = load;
  nl = nl;
  doubles = doubles;
  rmw = record { allocate = λ n. 64; deserialize = λ b p. some memory; sizes = sizes };
  writer = record { write_string = λ m p s. m; serialize = λ m p. none };
  utf8 = λ s. [];
  find_type_support = λ t. none;
  find_again = λ t. none;
  create_subscription = λ n t. subscribed;
}

abbrev parameters : NodeParameters
parameters = record {
  subscriptions_yaml = "two topics";
  qos_depth = 10;
  metrics_enabled = true;
  metrics_interval_ms = 1000;
  metrics_topic = "mosquitto_sink/metrics";
  broker_host = "broker";
  broker_port = 8883;
  client_id = "mosquitto_sink";
  username = "";
  password = "";
  qos = 2;
  retain = true;
  keep_alive_seconds = 60;
  topic_prefix = "ros2";
  topic_mapping_mode = "prefix_ros_topic";
  fixed_topic = "ros2/raw";
  payload_format = "json";
  use_tls = true;
  ca_cert_path = "";
  lwt_topic = "gone";
  lwt_payload = "mosquitto_sink disconnected";
  lwt_qos = 1;
  lwt_retain = false;
  message_key = "robot";
}

abbrev configured : MosquittoSink
configured = (on_configure out parameters initial_sink).1

abbrev running : MosquittoSink
running = (on_activate out configured).1

abbrev after_two : MosquittoSink
after_two = on_message out 1 arrival (on_message out 0 arrival running)

abbrev cut_off : MosquittoSink
cut_off = on_client (connection_lost "keep alive") after_two

abbrev streaming : MosquittoSink
streaming = on_metrics out (on_client (handle_connected paho) cut_off)

configured_ok : (on_configure out parameters initial_sink).0 ≡ ok true
unfolding on_configure parse_subscriptions_yaml topics_document
    ros2_dispatcher.Mosquitto.Subscriptions.parse_subscription
configured_ok = refl

activated_ok : (on_activate out configured).0 ≡ ok true
unfolding on_activate on_configure parse_subscriptions_yaml topics_document
    ros2_dispatcher.Mosquitto.Subscriptions.parse_subscription
activated_ok = refl

activated : Reach out (active, running)
unfolding settled
activated =
    let step : Reach out (inactive, configured) =
      subst (λ r. Reach out (settled unconfigured inactive r, configured)) configured_ok
        (later launched (configures parameters initial_sink)) in
    subst (λ r. Reach out (settled inactive active r, running)) activated_ok
      (later step (activates configured))

-- Two messages, a lost connection that comes back, and a report.
streamed : Reach out (active, streaming)
streamed =
    later
      (later
        (later
          (later (later activated (receives active 0 arrival running))
            (receives active 1 arrival (on_message out 0 arrival running)))
          (drops_out active "keep alive" after_two))
        (connects_again active cut_off))
      (publishes active (on_client (handle_connected paho) cut_off))

Reach-IsEven_example : All (IsEven out) streaming.active_subscriptions
Reach-IsEven_example = Reach-IsEven out streamed

parse_subscriptions_yaml-unnamed_example :
    parse_subscriptions_yaml yaml load (topics_to_yaml yaml topics) ≡ ok (map unnamed topics)
unfolding topics_to_yaml
parse_subscriptions_yaml-unnamed_example =
    parse_subscriptions_yaml-unnamed yaml reads load topics refl
      (ground (arith, eq_iff "two topics" "")) topics-AllPlain

map_mqtt_topic_inj_example : scan.name ≡ scan.name
map_mqtt_topic_inj_example =
    map_mqtt_topic_inj initial_sink.mqtt_parameters scan.name scan.name refl refl refl refl

abbrev header_members : JsonMembers
header_members = json_member "frame_id" (text "map") no_members

abbrev payload_members : JsonMembers
payload_members =
    json_member "data" (text "hello") (json_member "header" (object header_members) no_members)

abbrev json : Nlohmann
json = record {
  dump = λ j. some "{}";
  parse = λ s. some (object payload_members);
  truncate = λ b. pos 0;
}

apply_message_key_to_json-IsKeyed_example :
    (ns : JsonMembers) × (apply_message_key_to_json json "payload" "robot"
      ≡ dumped (json.dump (object ns)))
    × IsKeyed payload_members ns "robot"
unfolding find_member
apply_message_key_to_json-IsKeyed_example =
    apply_message_key_to_json-IsKeyed json "payload" "robot" payload_members header_members
      (ground (arith, eq_iff "robot" "")) refl refl
