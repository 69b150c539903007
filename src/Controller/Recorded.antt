-- ===== src/Controller/Recorded.antt =====
-- What the parts of apply_selection that come before its end keep of applied_selection_.
use ros2_dispatcher.Prelude.{String, Option, none, some, List, [], ◌∷◌, ◌≡◌}
use ros2_dispatcher.Controller.Types.{
  TopicInfo, SelectionSnapshot, LifecycleState, Controller, Client, TopicToolsPlan,
  ResolvedTopicTool, ActiveTopicTool,
}
use ros2_dispatcher.Controller.World.{Env}
use ros2_dispatcher.Controller.LoadFile.{YamlCpp}
use ros2_dispatcher.Controller.Tools.{
  unload_each, clear_active_topic_tools, load_each, reconcile_topic_tools,
}
use ros2_dispatcher.Controller.Apply.{
  deactivate_if_active, configure_if_unconfigured, stream_to_sink, apply_to_known,
  apply_selection_to_sink, apply_to_kafka, apply_to_mosquitto, disable_introspection,
}
use ros2_dispatcher.Controller.Logic.{
  Keeps, Returns, keeps_rules, bind-ok, Keeps-bind, Keeps-modify, Keeps-lift,
}
use ros2_dispatcher.Controller.Quiet.{
  NoThrow-set_introspection, Keeps-now, Keeps-should_skip, Keeps-get_sink_state,
  Keeps-change_sink_state, Keeps-set_subscriptions, Keeps-set_introspection, Keeps-load_tool,
  Keeps-unload_tool, Keeps-infer_missing_types,
}

-- The recorded selection is `x`.
abbrev pub Recorded : SelectionSnapshot → Controller → Type 0
Recorded x n = n.applied_selection ≡ x

pub ruleset service_rules = (
  keeps_rules, Keeps-now, Keeps-should_skip, Keeps-get_sink_state, Keeps-change_sink_state,
  Keeps-set_subscriptions, Keeps-set_introspection, Keeps-load_tool, Keeps-unload_tool,
  Keeps-infer_missing_types,
)

module _ (env : Env) (x : SelectionSnapshot) where
  unload_each-Keeps :
      (ts : List (String × ActiveTopicTool)) → Keeps (Recorded x) (unload_each env ts)
  unfolding unload_each
  unload_each-Keeps [] = search keeps_rules
  unload_each-Keeps ((k, t) ∷ ts) =
      Keeps-bind _ _ (Keeps-unload_tool env t) (λ _. unload_each-Keeps ts)

  load_each-Keeps : (ts : List ResolvedTopicTool) → Keeps (Recorded x) (load_each env ts)
  unfolding load_each
  load_each-Keeps [] = search keeps_rules
  load_each-Keeps (t ∷ ts) =
      Keeps-bind _ _ (Keeps-load_tool env t)
        (λ a. Keeps-bind _ _ (Keeps-modify _ (λ n h. h)) (λ _. load_each-Keeps ts))

  reconcile-Keeps : (p : TopicToolsPlan) → Keeps (Recorded x) (reconcile_topic_tools env p)
  unfolding reconcile_topic_tools clear_active_topic_tools
  reconcile-Keeps p =
      search
        (
          service_rules,
          unload_each-Keeps,
          load_each-Keeps,
          λ (n : Controller) (h : Recorded x n). h,
        )
        depth 8

module _ (env : Env) (yaml : YamlCpp) (x : SelectionSnapshot) where
  apply_to_known-Keeps :
      (l : String) (c g p : Option Client) (subs : List TopicInfo) (st : Option LifecycleState)
      → Keeps (Recorded x) (apply_to_known env yaml l c g p subs st)
  unfolding apply_to_known deactivate_if_active configure_if_unconfigured stream_to_sink
  apply_to_known-Keeps l c g p subs none = search service_rules
  apply_to_known-Keeps l c g p subs (some st) = search service_rules depth 9

  pub to_mosquitto-Keeps :
      (subs : List TopicInfo) → Keeps (Recorded x) (apply_to_mosquitto env yaml subs)
  unfolding apply_to_mosquitto apply_selection_to_sink
  to_mosquitto-Keeps subs = search (service_rules, apply_to_known-Keeps) depth 8

  pub to_kafka-Keeps :
      (plan : TopicToolsPlan) (st : LifecycleState)
      → Keeps (Recorded x) (apply_to_kafka env yaml plan st)
  unfolding apply_to_kafka deactivate_if_active configure_if_unconfigured stream_to_sink
  to_kafka-Keeps plan st = search (service_rules, reconcile-Keeps) depth 14

  pub disable-Keeps : Keeps (Recorded x) (disable_introspection env yaml)
  unfolding disable_introspection
  disable-Keeps = search service_rules
