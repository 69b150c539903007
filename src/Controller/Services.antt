-- ===== src/Controller/Services.antt =====
-- dispatcher_controller_node.cpp: the calls of the sinks, of introspection_manager and of the
-- component container, each with its waits, its timeouts and its error texts.
use ros2_dispatcher.Prelude.{
  ℕ, String, Bool, true, false, Option, none, some, List, [], ◌∷◌, ◌⊕◌, if◌then◌else◌,
}
use ros2_dispatcher.Controller.Types.{
  TopicInfo, string_value, bool_value, LifecycleState, Transition, Client, ResolvedTopicTool,
  ActiveTopicTool,
}
use ros2_dispatcher.Controller.World.{
  Env, waited_for, got_state, changed_state, set_parameters_of, loaded_node, unloaded_node,
  read_clock, ParameterResult, Action, pure, fails, ◌>>=◌, ◌>>◌, gets, ask,
}

-- The answer that came in time, or the error text of the timeout.
unfoldable pub or_timeout : {A : Type 0} → String → Option A → Action A
or_timeout message none = fails message
or_timeout message (some a) = pure a

unfoldable pub require : Bool → String → Action (Unit {0})
require true message = pure tt
require false message = fails message

-- The first result that is not successful ends the call.
unfoldable pub check_results : String → List ParameterResult → Action (Unit {0})
check_results prefix [] = pure tt
check_results prefix (r ∷ rs) =
    let rest = check_results prefix rs in if r.successful then rest else fails (prefix ⊕ r.reason)

module _ (env : Env) where
  unfoldable pub wait_for_service : Client → Action Bool
  unfolding ask
  wait_for_service client = ask env.service_ready (waited_for client)

  unfoldable pub now : Action ℕ
  unfolding ask
  now = ask env.clock read_clock

  unfoldable pub should_skip_unavailable_sink : String → Action (Unit {0})
  unfolding require
  should_skip_unavailable_sink sink_label = do
    allowed ← gets (λ n. n.allow_missing_sinks)
    require allowed ("Unable to reach " ⊕ sink_label ⊕ " services")

  ask_state : Client → Bool → Action (Option LifecycleState)
  unfolding ask
  ask_state client false = pure none
  ask_state client true = ask env.state_reply (got_state client)

  -- Every way to have no state is std::nullopt.
  unfoldable pub get_sink_state : Option Client → Action (Option LifecycleState)
  unfolding wait_for_service ask_state
  get_sink_state none = pure none
  get_sink_state (some client) = do ready ← wait_for_service client; ask_state client ready

  unfoldable pub change_sink_state :
      String → Option Client → Transition → String → Action (Unit {0})
  unfolding wait_for_service require or_timeout ask
  change_sink_state sink_label none transition action =
      fails (sink_label ⊕ " change_state client not initialized")
  change_sink_state sink_label (some client) transition action = do
    ready ← wait_for_service client
    require ready (sink_label ⊕ " change_state service not available")
    reply ← ask env.change_reply (changed_state client transition)
    success ← or_timeout ("Timeout during " ⊕ sink_label ⊕ " " ⊕ action) reply
    require success (sink_label ⊕ " rejected transition " ⊕ action)

  unfoldable pub send_subscriptions : String → Client → String → Action (Unit {0})
  unfolding ask or_timeout check_results
  send_subscriptions sink_label client yaml = do
    reply ← ask env.parameters_reply (
        set_parameters_of client
          (record { name = "subscriptions_yaml"; value = string_value yaml } ∷ []))
    results ← or_timeout ("Timeout setting " ⊕ sink_label ⊕ " subscriptions_yaml") reply
    check_results ("Failed to set " ⊕ sink_label ⊕ " subscriptions_yaml: ") results

  -- topics_to_yaml prints by YAML::Emitter, the parameter `emit`.
  unfoldable pub set_sink_subscriptions_yaml :
      (List TopicInfo → String) → String → Option Client → List TopicInfo → Action (Unit {0})
  unfolding wait_for_service should_skip_unavailable_sink send_subscriptions
  set_sink_subscriptions_yaml emit sink_label none subs = should_skip_unavailable_sink sink_label
  set_sink_subscriptions_yaml emit sink_label (some client) subs = do
    ready ← wait_for_service client
    if ready
        then send_subscriptions sink_label client (emit subs)
        else should_skip_unavailable_sink sink_label

  unfoldable pub set_introspection_enabled : Bool → Action (Unit {0})
  unfolding wait_for_service require ask or_timeout check_results
  set_introspection_enabled enabled = do
    client ← gets (λ n. n.introspection_param_client)
    ready ← wait_for_service client
    require ready "introspection_manager set_parameters unavailable"
    reply ← ask env.parameters_reply (
        set_parameters_of client
          (record { name = "introspection_enabled"; value = bool_value enabled } ∷ []))
    results ← or_timeout "Timeout toggling introspection_enabled" reply
    check_results "Failed to toggle introspection_enabled: " results

  unfoldable pub load_and_activate_topic_tool : ResolvedTopicTool → Action ActiveTopicTool
  unfolding wait_for_service require ask or_timeout
  load_and_activate_topic_tool tool = do
    client ← gets (λ n. n.load_node_client)
    ready ← wait_for_service client
    require ready "load_node service not available for component container"
    node_namespace ← gets (λ n. n.node_namespace)
    reply ← ask env.load_reply (
        loaded_node client (record {
          package_name = tool.package_name;
          plugin_name = tool.plugin_name;
          node_name = tool.node_name;
          node_namespace = node_namespace;
          parameters = tool.parameters;
        }))
    response ← or_timeout "Timeout loading topic_tools component" reply
    require response.success ("Failed to load topic_tools component " ⊕ tool.node_name)
    pure (record {
      unique_id = response.unique_id;
      full_node_name = response.full_node_name;
      config = tool;
    })

  unfoldable pub deactivate_and_unload_tool : ActiveTopicTool → Action (Unit {0})
  unfolding wait_for_service require ask or_timeout
  deactivate_and_unload_tool tool = do
    client ← gets (λ n. n.unload_node_client)
    ready ← wait_for_service client
    require ready "unload_node service not available for component container"
    reply ← ask env.unload_reply (unloaded_node client tool.unique_id)
    success ← or_timeout "Timeout unloading topic_tools component" reply
    require success "Failed to unload topic_tools component"
