-- ===== src/Controller/Tools.antt =====
-- dispatcher_controller_node.cpp: the topic_tools nodes that are loaded, active_topic_tools_.
pub mod Laws
use ros2_dispatcher.Prelude.{String, List, [], ◌∷◌}
use ros2_dispatcher.OrderedMap
use ros2_dispatcher.Controller.Types.{ResolvedTopicTool, ActiveTopicTool, TopicToolsPlan}
use ros2_dispatcher.Controller.World.{Env, Action, pure, ◌>>=◌, ◌>>◌, gets, modify}
use ros2_dispatcher.Controller.Services.{load_and_activate_topic_tool, deactivate_and_unload_tool}

module _ (env : Env) where
  unfoldable pub unload_each : List (String × ActiveTopicTool) → Action (Unit {0})
  unload_each [] = pure tt
  unload_each ((k, tool) ∷ rest) = do deactivate_and_unload_tool env tool; unload_each rest

  -- The map is cleared after the last tool is unloaded; a failure leaves it whole.
  unfoldable pub clear_active_topic_tools : Action (Unit {0})
  clear_active_topic_tools = do
    tools ← gets (λ n. n.active_topic_tools)
    unload_each tools
    modify (λ n. record n { active_topic_tools = [] })

  unfoldable pub load_each : List ResolvedTopicTool → Action (Unit {0})
  load_each [] = pure tt
  load_each (tool ∷ rest) = do
    loaded ← load_and_activate_topic_tool env tool
    modify (λ n. record n {
      active_topic_tools = OrderedMap.assign tool.input_topic loaded n.active_topic_tools;
    })
    load_each rest

  unfoldable pub reconcile_topic_tools : TopicToolsPlan → Action (Unit {0})
  reconcile_topic_tools plan = do clear_active_topic_tools; load_each plan.tools
