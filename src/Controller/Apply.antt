-- ===== src/Controller/Apply.antt =====
-- dispatcher_controller_node.cpp: apply_selection, and what it does with each sink. The steps are
-- actions of their own: to take a sink out of `active`, to see that it is configured, and to
-- activate it with the new subscriptions.
use ros2_dispatcher.Prelude.{
  String, Bool, true, false, Option, none, some, List, [], ◌∷◌, ◌⊕◌, is_empty, if◌then◌else◌,
}
use ros2_dispatcher.Controller.Types.{
  TopicInfo, TopicSelection, TopicToolsPlan, LifecycleState, unconfigured, active, deactivate,
  configure, activate, Client,
}
use ros2_dispatcher.Controller.World.{Env, Outcome, Action, pure, fails, ◌>>=◌, ◌>>◌, gets, modify}
use ros2_dispatcher.Controller.Plan.{build_topic_tools_plan}
use ros2_dispatcher.Controller.LoadFile.{YamlCpp, topics_to_yaml}
use ros2_dispatcher.Controller.Services.{
  now, should_skip_unavailable_sink, get_sink_state, change_sink_state, set_introspection_enabled,
  set_sink_subscriptions_yaml,
}
use ros2_dispatcher.Controller.Tools.{reconcile_topic_tools}
use ros2_dispatcher.Controller.Selection.{infer_missing_types, ignore_failure}

unfoldable pub is_active : LifecycleState → Bool
is_active active = true
is_active _ = false

unfoldable pub is_unconfigured : LifecycleState → Bool
is_unconfigured unconfigured = true
is_unconfigured _ = false

unfoldable pub or_fail : {A : Type 0} → String → Option A → Action A
or_fail message none = fails message
or_fail message (some a) = pure a

-- A computation that touches neither the node nor the log.
unfoldable pub lift : {A : Type 0} → Outcome A → Action A
lift r s = (r, s)

module _ (env : Env) where
  -- if (*state == PRIMARY_STATE_ACTIVE): deactivate, and read the state again.
  unfoldable pub deactivate_if_active :
      String → Option Client → Option Client → LifecycleState → Action LifecycleState
  deactivate_if_active label change_client get_client state =
      if is_active state
      then (do
        change_sink_state env label change_client deactivate "deactivate"
        again ← get_sink_state env get_client
        or_fail ("Failed to confirm " ⊕ label ⊕ " state after deactivate") again)
      else pure state

  -- if (*state == PRIMARY_STATE_UNCONFIGURED): configure.
  unfoldable pub configure_if_unconfigured :
      String → Option Client → LifecycleState → Action (Unit {0})
  configure_if_unconfigured label change_client state =
      if is_unconfigured state
      then change_sink_state env label change_client configure "configure"
      else pure tt

  unfoldable pub deactivate_known :
      String → Option Client → Option LifecycleState → Action (Unit {0})
  deactivate_known label change_client none = should_skip_unavailable_sink env label
  deactivate_known label change_client (some state) =
      if is_active state
      then change_sink_state env label change_client deactivate "deactivate"
      else pure tt

  unfoldable pub deactivate_sink :
      String → String → Option Client → Option Client → Action (Unit {0})
  deactivate_sink label node_name change_client get_client =
      if is_empty node_name
      then pure tt
      else (do state ← get_sink_state env get_client; deactivate_known label change_client state)

module _ (env : Env) (yaml : YamlCpp) where
  -- Subscriptions, then activate.
  unfoldable pub stream_to_sink :
      String → Option Client → Option Client → List TopicInfo → Action (Unit {0})
  stream_to_sink label change_client parameters_client subs = do
    set_sink_subscriptions_yaml env (topics_to_yaml yaml) label parameters_client subs
    change_sink_state env label change_client activate "activate"

  unfoldable pub apply_to_known :
      String
      → Option Client
      → Option Client
      → Option Client
      → List TopicInfo
      → Option LifecycleState
      → Action (Unit {0})
  apply_to_known label change_client get_client parameters_client subs none =
      should_skip_unavailable_sink env label
  apply_to_known label change_client get_client parameters_client subs (some state) = do
    state' ← deactivate_if_active env label change_client get_client state
    configure_if_unconfigured env label change_client state'
    stream_to_sink label change_client parameters_client subs

  unfoldable pub apply_selection_to_sink :
      String
      → String
      → Option Client
      → Option Client
      → Option Client
      → List TopicInfo
      → Action (Unit {0})
  apply_selection_to_sink label node_name change_client get_client parameters_client subs =
      if is_empty node_name then pure tt else (do
        state ← get_sink_state env get_client
        apply_to_known label change_client get_client parameters_client subs state)

  -- The part of apply_selection that drives kafka_sink, from the state that was read first.
  unfoldable pub apply_to_kafka : TopicToolsPlan → LifecycleState → Action (Unit {0})
  apply_to_kafka plan state = do
    change_client ← gets (λ n. n.change_state_client)
    get_client ← gets (λ n. n.get_state_client)
    parameters_client ← gets (λ n. n.set_parameters_client)
    state' ← deactivate_if_active env "kafka_sink" change_client get_client state
    configure_if_unconfigured env "kafka_sink" change_client state'
    reconcile_topic_tools env plan
    stream_to_sink "kafka_sink" change_client parameters_client plan.sink_topics

  unfoldable pub apply_to_mosquitto : List TopicInfo → Action (Unit {0})
  apply_to_mosquitto subs = do
    node ← gets (λ n. n)
    apply_selection_to_sink "mosquitto_sink" node.mosquitto_sink_node_name
        node.mosquitto_change_state_client node.mosquitto_get_state_client
        node.mosquitto_set_parameters_client subs

  -- if (validate_topics_)
  unfoldable pub validated : List TopicSelection → Action (List TopicSelection)
  validated topics = do
    validate ← gets (λ n. n.validate_topics)
    if validate then infer_missing_types env topics else pure topics

  -- if (disable_introspection_after_apply_); a failure is only logged.
  unfoldable pub disable_introspection : Action (Unit {0})
  disable_introspection = do
    disable ← gets (λ n. n.disable_introspection_after_apply)
    if disable then ignore_failure (set_introspection_enabled env false) else pure tt

  unfoldable pub record_applied : List TopicSelection → List TopicInfo → Action (Unit {0})
  record_applied topics sink_topics = do
    stamp ← now env
    modify (λ n. record n {
      applied_selection = record { topics = topics; sink_topics = sink_topics; timestamp = stamp };
    })

  -- The rest of apply_selection, from each of the values that it computes on.
  unfoldable pub apply_plan :
      LifecycleState → List TopicSelection → TopicToolsPlan → Action (Unit {0})
  apply_plan state valid plan = do
    apply_to_kafka plan state
    apply_to_mosquitto plan.sink_topics
    record_applied valid plan.sink_topics
    disable_introspection

  unfoldable pub apply_valid : LifecycleState → List TopicSelection → Action (Unit {0})
  apply_valid state valid = do
    plan ← lift (build_topic_tools_plan valid)
    apply_plan state valid plan

  unfoldable pub apply_known : List TopicSelection → LifecycleState → Action (Unit {0})
  apply_known topics state = do valid ← validated topics; apply_valid state valid

  unfoldable pub kafka_sink_state : Action LifecycleState
  kafka_sink_state = do
    get_client ← gets (λ n. n.get_state_client)
    found ← get_sink_state env get_client
    or_fail "Unable to get kafka_sink state" found

  unfoldable pub apply_topics : List TopicSelection → Action (Unit {0})
  apply_topics topics = do state ← kafka_sink_state; apply_known topics state

  unfoldable pub apply_selection : List TopicSelection → Action (Unit {0})
  apply_selection [] = fails "No topics to apply"
  apply_selection (t ∷ ts) = apply_topics (t ∷ ts)
