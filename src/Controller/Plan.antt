-- ===== src/Controller/Plan.antt =====
-- dispatcher_controller_node.cpp: build_topic_tools_plan, which tells from a selection the
-- topic_tools nodes to load and the topics that the sinks are to subscribe to.
pub mod Laws
use ros2_dispatcher.Prelude.{
  ℕ, ◌≡◌, refl, ◌⊎◌, inl, inr, ◌≢◌, String, Bool, true, false, ◌&&◌, Option, none, some, List, [],
  ◌∷◌, ◌++◌, map, arith, ◌==◌, eq_iff, is_empty, length, All, if◌then◌else◌,
}
use ros2_dispatcher.Controller.Types.{
  TopicInfo, Parameter, string_value, TopicToolsConfig, TopicSelection, ResolvedTopicTool,
  TopicToolsPlan,
}
use ros2_dispatcher.Controller.World.{Outcome, ok, fail, thrown}
use ros2_dispatcher.Controller.Names.{default_tool_node_name, default_output_topic}

unfoldable pub or_default : String → String → String
or_default s fallback = if is_empty s then fallback else s

unfoldable pub has_parameter : String → List Parameter → Bool
has_parameter name [] = false
has_parameter name (p ∷ ps) = if p.name == name then true else has_parameter name ps

-- parameters.emplace_back, if no parameter of the configuration has the name.
unfoldable pub add_parameter : String → String → List Parameter → List Parameter → List Parameter
add_parameter name value given ps =
    if has_parameter name given
    then ps
    else ps ++ record { name = name; value = string_value value } ∷ []

-- The enabled topic_tools of an entry.
unfoldable pub enabled_tools : TopicSelection → Option TopicToolsConfig
enabled_tools e = elim e.topic_tools [
  | none ↦ none
  | some cfg ↦ if cfg.enabled then some cfg else none
]

unfoldable pub resolve_tool : TopicInfo → TopicToolsConfig → ResolvedTopicTool
unfolding or_default add_parameter
resolve_tool topic cfg =
    let node_name = or_default cfg.node_name (default_tool_node_name cfg.plugin_name topic.name) in
    let output_topic = or_default cfg.output_topic (default_output_topic topic.name node_name) in
    record {
      input_topic = topic.name;
      output_topic = output_topic;
      package_name = cfg.package_name;
      plugin_name = cfg.plugin_name;
      node_name = node_name;
      parameters =
          add_parameter "output_topic" output_topic cfg.parameters
            (add_parameter "input_topic" topic.name cfg.parameters cfg.parameters);
      output_type = or_default cfg.output_type topic.type;
    }

unfoldable pub tool_sink_topic : TopicInfo → ResolvedTopicTool → TopicInfo
tool_sink_topic topic tool = record {
  name = tool.output_topic;
  type = or_default tool.output_type topic.type;
}

-- One turn of the loop.
unfoldable pub add_entry : TopicSelection → TopicToolsPlan → Outcome TopicToolsPlan
unfolding enabled_tools tool_sink_topic resolve_tool
add_entry e plan =
    if is_empty e.topic.name
    then fail "Selection entry missing topic_name"
    else elim (enabled_tools e) [
      | none ↦ ok (record plan { sink_topics = plan.sink_topics ++ e.topic ∷ [] })
      | some cfg ↦
          if is_empty cfg.plugin_name
          then fail "topic_tools.plugin is required when topic_tools is enabled"
          else (let tool = resolve_tool e.topic cfg in
              ok (record {
                tools = plan.tools ++ tool ∷ [];
                sink_topics = plan.sink_topics ++ tool_sink_topic e.topic tool ∷ [];
              }))
    ]

unfoldable pub add_entries : List TopicSelection → TopicToolsPlan → Outcome TopicToolsPlan
add_entries [] plan = ok plan
add_entries (e ∷ es) plan = elim (add_entry e plan) [
  | ok plan' ↦ add_entries es plan'
  | fail message ↦ fail message
  | thrown message ↦ thrown message
]

abbrev pub empty_plan : TopicToolsPlan
empty_plan = record { tools = []; sink_topics = [] }

unfoldable pub build_topic_tools_plan : List TopicSelection → Outcome TopicToolsPlan
unfolding add_entries add_entry
build_topic_tools_plan selection = add_entries selection empty_plan
