-- ===== src/Controller/Total.antt =====
-- Which outcomes apply_selection can have.
use ros2_dispatcher.Prelude.{String, Option, none, some, List, [], ◌∷◌, arith}
use ros2_dispatcher.Controller.Types.{
  TopicInfo, TopicSelection, LifecycleState, Client, ResolvedTopicTool, ActiveTopicTool,
  TopicToolsPlan,
}
use ros2_dispatcher.Controller.World.{Env}
use ros2_dispatcher.Controller.Plan.{build_topic_tools_plan}
use ros2_dispatcher.Controller.Plan.Laws.{build_topic_tools_plan_cases}
use ros2_dispatcher.Controller.LoadFile.{YamlCpp}
use ros2_dispatcher.Controller.Tools.{
  unload_each, clear_active_topic_tools, load_each, reconcile_topic_tools,
}
use ros2_dispatcher.Controller.Apply.{
  deactivate_if_active, configure_if_unconfigured, stream_to_sink, apply_to_known,
  apply_selection_to_sink, apply_to_kafka, apply_to_mosquitto, validated, disable_introspection,
  record_applied, apply_topics, apply_selection, kafka_sink_state, apply_known, apply_valid,
  apply_plan, lift,
}
use ros2_dispatcher.Controller.Logic.{
  NoThrow, Returns, no_throw_rules, NoThrow-lift, NoThrow-fails, NoThrow-pure, NoThrow-bind,
  NoThrow-modify,
}
use ros2_dispatcher.Controller.Quiet.{
  NoThrow-now, NoThrow-should_skip, NoThrow-get_sink_state, NoThrow-change_sink_state,
  NoThrow-set_subscriptions, NoThrow-set_introspection, NoThrow-load_tool, NoThrow-unload_tool,
  NoThrow-infer_missing_types,
}

ruleset service_rules = (
  no_throw_rules, NoThrow-now, NoThrow-should_skip, NoThrow-get_sink_state,
  NoThrow-change_sink_state, NoThrow-set_subscriptions, NoThrow-set_introspection,
  NoThrow-load_tool, NoThrow-unload_tool, NoThrow-infer_missing_types,
)

build-Returns : (es : List TopicSelection) → Returns (build_topic_tools_plan es)
build-Returns es = ground (arith, build_topic_tools_plan_cases es)

module _ (env : Env) where
  unload_each-NoThrow : (ts : List (String × ActiveTopicTool)) → NoThrow (unload_each env ts)
  unfolding unload_each
  unload_each-NoThrow [] = NoThrow-pure tt
  unload_each-NoThrow ((k, t) ∷ ts) =
      NoThrow-bind _ _ (NoThrow-unload_tool env t) (λ _. unload_each-NoThrow ts)

  load_each-NoThrow : (ts : List ResolvedTopicTool) → NoThrow (load_each env ts)
  unfolding load_each
  load_each-NoThrow [] = NoThrow-pure tt
  load_each-NoThrow (t ∷ ts) =
      NoThrow-bind _ _ (NoThrow-load_tool env t)
        (λ a. NoThrow-bind _ _ (NoThrow-modify _) (λ _. load_each-NoThrow ts))

  reconcile-NoThrow : (p : TopicToolsPlan) → NoThrow (reconcile_topic_tools env p)
  unfolding reconcile_topic_tools clear_active_topic_tools
  reconcile-NoThrow p = search (service_rules, unload_each-NoThrow, load_each-NoThrow)

  deactivate_if_active-NoThrow :
      (l : String) (c g : Option Client) (st : LifecycleState)
      → NoThrow (deactivate_if_active env l c g st)
  unfolding deactivate_if_active
  deactivate_if_active-NoThrow l c g st = search service_rules

  configure-NoThrow :
      (l : String) (c : Option Client) (st : LifecycleState)
      → NoThrow (configure_if_unconfigured env l c st)
  unfolding configure_if_unconfigured
  configure-NoThrow l c st = search service_rules

module _ (env : Env) (yaml : YamlCpp) where
  stream-NoThrow :
      (l : String) (c p : Option Client) (subs : List TopicInfo)
      → NoThrow (stream_to_sink env yaml l c p subs)
  unfolding stream_to_sink
  stream-NoThrow l c p subs = search service_rules

  apply_to_known-NoThrow :
      (l : String) (c g p : Option Client) (subs : List TopicInfo) (st : Option LifecycleState)
      → NoThrow (apply_to_known env yaml l c g p subs st)
  unfolding apply_to_known
  apply_to_known-NoThrow l c g p subs none = search service_rules
  apply_to_known-NoThrow l c g p subs (some st) =
      search (service_rules, deactivate_if_active-NoThrow, configure-NoThrow, stream-NoThrow)

  to_mosquitto-NoThrow : (subs : List TopicInfo) → NoThrow (apply_to_mosquitto env yaml subs)
  unfolding apply_to_mosquitto apply_selection_to_sink
  to_mosquitto-NoThrow subs = search (service_rules, apply_to_known-NoThrow) depth 8

  to_kafka-NoThrow :
      (plan : TopicToolsPlan) (st : LifecycleState) → NoThrow (apply_to_kafka env yaml plan st)
  unfolding apply_to_kafka
  to_kafka-NoThrow plan st =
      search
        (
          service_rules, deactivate_if_active-NoThrow, configure-NoThrow, stream-NoThrow,
          reconcile-NoThrow,
        )
        depth 12

  lift_plan-NoThrow : (es : List TopicSelection) → NoThrow (lift (build_topic_tools_plan es))
  lift_plan-NoThrow es = NoThrow-lift _ (build-Returns es)

  pub apply_selection-NoThrow : (ts : List TopicSelection) → NoThrow (apply_selection env yaml ts)
  unfolding apply_selection apply_topics kafka_sink_state apply_known apply_valid apply_plan
      validated record_applied disable_introspection
  apply_selection-NoThrow [] = NoThrow-fails _
  apply_selection-NoThrow (t ∷ ts) =
      search (service_rules, lift_plan-NoThrow, to_kafka-NoThrow, to_mosquitto-NoThrow) depth 12
