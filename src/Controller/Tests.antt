-- ===== src/Controller/Tests.antt =====
-- The controller at concrete inputs: sinks that are inactive and accept every call, an
-- introspection_manager that knows two topics, and a component container that loads and unloads.
use ros2_dispatcher.Prelude.{
  ℕ, ◌≤◌, ◌≡◌, refl, ◌⊎◌, ◌↔◌, String, true, false, none, some, Option, List, [], ◌∷◌, ◌++◌, map,
  length, pos, All, arith, eq_iff, if◌then◌else◌, ◌==◌,
}
use ros2_dispatcher.OrderedMap
use ros2_dispatcher.Controller.Types.{
  file, TopicInfo, TopicSelection, Parameter, string_value, TopicToolsConfig, TopicToolsPlan,
  LifecycleState, ActiveTopicTool,
}
use ros2_dispatcher.Controller.World.{
  Env, Sys, Yaml, scalar, sequence, mapping, items_end, item, entries_end, entry, ok, fail, thrown,
  waited_for, unloaded_node,
}
use ros2_dispatcher.Controller.LoadFile.{
  YamlCpp, parse_document, parse_entries, parse_entry, parse_named, with_tools,
}
use ros2_dispatcher.Controller.LoadFile.Laws.{parse_document-plan}
use ros2_dispatcher.Controller.Names.{
  sanitize_topic_segment, IsClean, sanitize_topic_segment-IsClean,
}
use ros2_dispatcher.Controller.Plan.{build_topic_tools_plan, enabled_tools}
use ros2_dispatcher.Controller.Plan.Laws.{
  all_valid, tools_of, sink_topic_of, Fails, build_topic_tools_plan_cases,
}
use ros2_dispatcher.Controller.Selection.{
  infer_missing_types, discover_all_topics, needs_lookup, query_topics, fill_types, topic_types,
  introspected, ignore_failure, select_discovered, ensure_topic_limits, discovered_topics,
  discovered,
}
use ros2_dispatcher.Controller.Selection.Laws.{
  AllTyped, Wanted, infer_missing_types-AllTyped, discover_all_topics-Wanted,
}
use ros2_dispatcher.Controller.Tools.{
  clear_active_topic_tools, reconcile_topic_tools, unload_each, load_each,
}
use ros2_dispatcher.Controller.Tools.Laws.{
  Tools, AllUnloaded, IsKept, clear_active_topic_tools_cases,
}
use ros2_dispatcher.Controller.Apply.{
  is_active, apply_to_kafka, apply_selection, deactivate_if_active, configure_if_unconfigured,
  is_unconfigured, or_fail, stream_to_sink,
}
use ros2_dispatcher.Controller.Applied.{Applied, apply_selection_cases, apply_selection_no_kafka}
use ros2_dispatcher.Controller.Protocol.{LookedAgain, restart, apply_to_kafka-transitions}
use ros2_dispatcher.Controller.Silent.{transitions}
use ros2_dispatcher.Controller.Handlers.{is_busy, parse_mode, mode_to_string}
use ros2_dispatcher.Controller.Handlers.Laws.{parse_mode_iff, on_param_change_no_mode}
use ros2_dispatcher.Controller.Parameters.{Declared, on_param_change}
use ros2_dispatcher.Controller.Session.{
  Request, set_mode, apply, reload, stop, get_status, startup_timer, serve_all, boot,
  session-NotBusy,
}
use ros2_dispatcher.Controller.Services.{
  set_introspection_enabled, load_and_activate_topic_tool, set_sink_subscriptions_yaml,
  change_sink_state, get_sink_state, deactivate_and_unload_tool,
}

abbrev scan : TopicInfo
scan = record { name = "/scan"; type = "sensor_msgs/msg/LaserScan" }

abbrev odom : TopicInfo
odom = record { name = "/odom"; type = "nav_msgs/msg/Odometry" }

abbrev env : Env
env = record {
  service_ready = λ _. true;
  state_reply = λ _. some LifecycleState.inactive;
  change_reply = λ _. some true;
  parameters_reply = λ _. some [];
  topics_reply = λ _. some (scan ∷ odom ∷ []);
  load_reply =
      λ log. some (record { success = true; unique_id = length log; full_node_name = "/tool" });
  unload_reply = λ _. some true;
  clock = λ log. length log;
  file_document = λ _. none;
  file_error = λ _. "bad file";
}

-- Without any service.
abbrev deaf : Env
deaf = record env { service_ready = λ _. false }

-- A yaml-cpp that reads every scalar as a text, and finds `topic_name` in a map of one entry.
abbrev yaml : YamlCpp
yaml = record {
  as_bool = λ _. none;
  as_int64 = λ _. none;
  as_double = λ _. none;
  as_string = text_of;
  child = first_child;
  what = "bad conversion";
  emit = λ _. "yaml";
}
  where
    text_of : Yaml → Option String
    text_of (scalar s) = some s
    text_of _ = none

    first_child : Yaml → String → Option (Option Yaml)
    first_child (mapping (entry (scalar k) v rest)) key = some (if k == key then some v else none)
    first_child _ key = some none

abbrev declared : Declared
declared = record {
  node_namespace = "/";
  kafka_sink_node_name = "/kafka_sink";
  mosquitto_sink_node_name = "/mosquitto_sink";
  introspection_service_name = "/introspection_manager/get_topics";
  introspection_node_name = "/introspection_manager";
  validate_topics = true;
  disable_introspection_after_apply = true;
  selection_file_path = "";
  auto_apply_on_mode_change = true;
  allow_missing_sinks = true;
  all_mode_max_topics = pos 50;
  all_mode_allowlist = [];
  all_mode_denylist = "/odom" ∷ [];
  all_mode_hide_rosout = true;
  component_container_name = "/container";
  selection_mode = "gui";
}

abbrev started : Sys
started = boot env yaml declared

abbrev throttle : TopicToolsConfig
throttle = record {
  enabled = true;
  package_name = "topic_tools";
  plugin_name = "topic_tools::ThrottleNode";
  node_name = "";
  output_topic = "";
  output_type = "";
  parameters = [];
}

abbrev throttled_scan : TopicSelection
throttled_scan = record { topic = scan; topic_tools = some throttle }

abbrev untyped_odom : TopicSelection
untyped_odom = record { topic = record { name = "/odom"; type = "" }; topic_tools = none }

abbrev chosen : List TopicSelection
chosen = throttled_scan ∷ untyped_odom ∷ []

abbrev chosen_plan : TopicToolsPlan
chosen_plan = record { tools = tools_of chosen; sink_topics = map sink_topic_of chosen }

abbrev requests : List Request
requests =
    apply (scan ∷ [])
    ∷ get_status
    ∷ set_mode "all" "" true
    ∷ reload "/bad" true
    ∷ stop true
    ∷ startup_timer
    ∷ []

session-NotBusy_example : is_busy (serve_all env yaml requests started).node.phase ≡ false
session-NotBusy_example = session-NotBusy env yaml declared requests

apply_selection_cases_example :
    (((apply_selection env yaml chosen started).0 ≡ ok tt)
      × Applied env yaml chosen started (apply_selection env yaml chosen started).1.node)
    ⊎ ((e : String) × ((apply_selection env yaml chosen started).0 ≡ fail e)
        × ((apply_selection env yaml chosen started).1.node.applied_selection
            ≡ started.node.applied_selection))
apply_selection_cases_example = apply_selection_cases env yaml chosen started

abbrev loaded_tool : ℕ → ActiveTopicTool
loaded_tool id = record {
  config = record {
    input_topic = "/scan";
    output_topic = "/throttle/scan";
    package_name = "topic_tools";
    plugin_name = "topic_tools::ThrottleNode";
    node_name = "throttle";
    parameters = [];
    output_type = "";
  };
  unique_id = id;
  full_node_name = "/throttle";
}

-- Two tools are loaded.
abbrev tooled : Sys
tooled = record started {
  node = record (started.node) {
    active_topic_tools = ("/odom", loaded_tool 7) ∷ ("/scan", loaded_tool 4) ∷ [];
  };
}

clear_active_topic_tools_cases_example :
    ((u : Sys) × AllUnloaded env tooled.node.active_topic_tools tooled u
      × ((clear_active_topic_tools env tooled).0 ≡ ok tt)
      × ((clear_active_topic_tools env tooled).1.log ≡ u.log)
      × ((clear_active_topic_tools env tooled).1.node
          ≡ record (tooled.node) { active_topic_tools = [] }))
    ⊎ ((e : String) × (done : Tools) × (k : String) × (tool : ActiveTopicTool) × (rest : Tools)
        × (u : Sys) × (tooled.node.active_topic_tools ≡ done ++ ((k, tool) ∷ rest))
        × AllUnloaded env done tooled u
        × IsKept env tool u
        × ((clear_active_topic_tools env tooled).0 ≡ fail e)
        × ((clear_active_topic_tools env tooled).1.node ≡ tooled.node))
clear_active_topic_tools_cases_example = clear_active_topic_tools_cases env tooled

-- Both tools are unloaded, the one of the first topic first.
unloads :
    (clear_active_topic_tools env tooled).1.log
    ≡ unloaded_node "/container/_container/unload_node" 4
      ∷ waited_for "/container/_container/unload_node"
      ∷ unloaded_node "/container/_container/unload_node" 7
      ∷ waited_for "/container/_container/unload_node"
      ∷ []
unfolding clear_active_topic_tools unload_each deactivate_and_unload_tool boot
unloads = refl

build_topic_tools_plan_cases_example :
    ((all_valid chosen ≡ true)
      × (build_topic_tools_plan chosen
          ≡ ok (record { tools = tools_of chosen; sink_topics = map sink_topic_of chosen })))
    ⊎ ((all_valid chosen ≡ false) × Fails (build_topic_tools_plan chosen))
build_topic_tools_plan_cases_example = build_topic_tools_plan_cases chosen

parse_mode_iff_example : (parse_mode "file" ≡ some file) ↔ ("file" ≡ mode_to_string file)
parse_mode_iff_example = parse_mode_iff "file" file

sanitize_topic_segment-IsClean_example :
    IsClean (sanitize_topic_segment "/robot/scan")
    × ((sanitize_topic_segment "/robot/scan" ≡ "/robot/scan") ↔ IsClean "/robot/scan")
sanitize_topic_segment-IsClean_example = sanitize_topic_segment-IsClean "/robot/scan"

-- Neither is a segment of a ROS name.
digit_example : sanitize_topic_segment "/1/2" ≡ "1_2"
unfolding sanitize_topic_segment ros2_dispatcher.Controller.Names.replace_slashes
    ros2_dispatcher.Controller.Names.strip_underscores
digit_example = refl

space_example : sanitize_topic_segment "/a b-c" ≡ "a b-c"
unfolding sanitize_topic_segment ros2_dispatcher.Controller.Names.replace_slashes
    ros2_dispatcher.Controller.Names.strip_underscores
space_example = refl

abbrev document : Yaml
document =
    sequence (item (mapping (entry (scalar "topic_name") (scalar "/scan") entries_end)) items_end)

abbrev read_scan : TopicSelection
read_scan = record { topic = record { name = "/scan"; type = "" }; topic_tools = none }

parse_document-plan_example :
    (plan : TopicToolsPlan) × (build_topic_tools_plan (read_scan ∷ []) ≡ ok plan)
    × (all_valid (read_scan ∷ []) ≡ true)
unfolding parse_document parse_entries parse_entry parse_named with_tools
parse_document-plan_example = parse_document-plan yaml document (read_scan ∷ []) refl

abbrev typed : List TopicSelection
typed = throttled_scan ∷ record { topic = odom; topic_tools = none } ∷ []

infer_missing_types-AllTyped_example : AllTyped chosen typed
unfolding infer_missing_types boot needs_lookup query_topics fill_types OrderedMap.find topic_types
    OrderedMap.assign
infer_missing_types-AllTyped_example = infer_missing_types-AllTyped env chosen typed started refl

abbrev found : List TopicSelection
found = record { topic = scan; topic_tools = none } ∷ []

discover_all_topics-Wanted_example :
    All (λ x. Wanted started.node x.topic × (x.topic_tools ≡ none)) found
    × (length found ≤ started.node.all_mode_max_topics)
    × ((discover_all_topics env started).1.node ≡ started.node)
unfolding discover_all_topics boot introspected ignore_failure set_introspection_enabled
    select_discovered ensure_topic_limits discovered_topics discovered
discover_all_topics-Wanted_example = discover_all_topics-Wanted env found started refl

-- kafka_sink streams, and answers `unconfigured` once it is deactivated.
abbrev streaming : Env
streaming = record env { state_reply = λ _. some LifecycleState.unconfigured }

apply_to_kafka-transitions_example :
    (st' : LifecycleState) × (transitions
        (apply_to_kafka streaming yaml chosen_plan LifecycleState.active started).1.log
      ≡ restart started.node.change_state_client LifecycleState.active st'
        ++ transitions started.log)
    × LookedAgain streaming "kafka_sink" started.node.change_state_client
        started.node.get_state_client LifecycleState.active started st'
unfolding apply_to_kafka boot deactivate_if_active is_active configure_if_unconfigured
    is_unconfigured reconcile_topic_tools clear_active_topic_tools unload_each load_each
    enabled_tools load_and_activate_topic_tool stream_to_sink set_sink_subscriptions_yaml
    change_sink_state get_sink_state or_fail
apply_to_kafka-transitions_example =
    apply_to_kafka-transitions streaming yaml chosen_plan LifecycleState.active started refl

apply_selection_no_kafka_example :
    ((apply_selection deaf yaml chosen started).0 ≡ fail "Unable to get kafka_sink state")
    × ((apply_selection deaf yaml chosen started).1.node ≡ started.node)
    × ((apply_selection deaf yaml chosen started).1.log
        ≡ waited_for "/kafka_sink/get_state" ∷ started.log)
unfolding boot
apply_selection_no_kafka_example =
    apply_selection_no_kafka deaf yaml chosen started "/kafka_sink/get_state" (ground arith) refl
      refl

abbrev file_parameters : List Parameter
file_parameters =
    record { name = "selection_file_path"; value = string_value "/selection.yaml" } ∷ []

on_param_change_no_mode_example :
    ((on_param_change env yaml file_parameters started).1 ≡ started)
    × (((on_param_change env yaml file_parameters started).0
          ≡ ok (record { successful = true; reason = "" }))
        ⊎ ((e : String) × ((on_param_change env yaml file_parameters started).0 ≡ thrown e)))
on_param_change_no_mode_example =
    on_param_change_no_mode env yaml file_parameters started
      (ground (arith, eq_iff "selection_file_path" "selection_mode"))
