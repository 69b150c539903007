-- ===== src/Controller/Requests.antt =====
-- dispatcher_controller_node.cpp: the handlers reload_selection, stop_streaming and get_status.
use ros2_dispatcher.Prelude.{
  ℕ, String, Bool, false, not, ◌&&◌, ◌||◌, Option, none, some, List, ◌%◌, ◌^◌, ◌⊕◌, is_empty,
  is_nil, length, if◌then◌else◌,
}
use ros2_dispatcher.Controller.Types.{
  ControllerPhase, SelectionMode, gui, file, all, TopicInfo, TopicSelection, LifecycleState,
  Controller,
}
use ros2_dispatcher.Controller.World.{Env, Action, pure, fails, ◌>>=◌, ◌>>◌, gets, modify, attempt}
use ros2_dispatcher.Controller.Plan.{build_topic_tools_plan}
use ros2_dispatcher.Controller.LoadFile.{YamlCpp, load_file_selection}
use ros2_dispatcher.Controller.Services.{get_sink_state}
use ros2_dispatcher.Controller.Tools.{clear_active_topic_tools}
use ros2_dispatcher.Controller.Selection.{infer_missing_types, ensure_topic_limits, to_topic_info}
use ros2_dispatcher.Controller.Apply.{lift, deactivate_sink, is_active}
use ros2_dispatcher.Controller.Handlers.{
  Response, accept, reject, set_phase, no_snapshot, mode_to_string, state_string, unless_busy,
  reject_recorded, snapshot, apply_busy, all_selection, check_plan, is_busy,
}

-- A failure with a text in front of it.
unfoldable pub prefixed : {A : Type 0} → String → Action A → Action A
prefixed prefix m = attempt m (λ e. fails (prefix ⊕ e)) pure

abbrev pub u32_mod : ℕ
u32_mod = 2 ^ 32

module _ (env : Env) (yaml : YamlCpp) where
  unfoldable pub reload_file : String → Action (List TopicSelection × List TopicInfo)
  unfolding prefixed
  reload_file requested = do
    own ← gets (λ n. n.selection_file_path)
    loaded ← load_file_selection yaml env (if is_empty requested then own else requested)
    typed ← prefixed "Failed to infer types: " (infer_missing_types env loaded)
    plan ← lift (build_topic_tools_plan typed)
    taken ← snapshot env typed plan.sink_topics
    modify (λ n. record n { last_file_selection = taken })
    pure (typed, plan.sink_topics)

  unfoldable pub finish_reload : Bool → List TopicSelection × List TopicInfo → Action (Unit {0})
  finish_reload apply_now (selection, sink_topics) = do
    check_plan env yaml (selection, sink_topics)
    ensure_topic_limits selection
    if apply_now then apply_busy env yaml selection else pure tt

  unfoldable pub reload_with :
      Bool → Action (List TopicSelection × List TopicInfo) → Action Response
  reload_with apply_now gather =
      attempt (gather >>= finish_reload apply_now) (reject_recorded env)
        λ _. accept (if apply_now then "Selection reloaded and applied" else "Selection reloaded")

  unfoldable pub reload_mode : SelectionMode → String → Bool → Action Response
  reload_mode file requested apply_now = reload_with apply_now (reload_file requested)
  reload_mode all requested apply_now = reload_with apply_now (all_selection env yaml)
  reload_mode gui requested apply_now = do
    last ← gets (λ n. n.last_gui_selection)
    if is_nil last.topics
        then reject "No cached GUI selection to reload"
        else reload_with apply_now (pure (last.topics, last.sink_topics))

  unfoldable pub handle_reload_selection : String → Bool → Action Response
  handle_reload_selection requested apply_now =
      unless_busy (reject "Controller busy")
        (do mode ← gets (λ n. n.selection_mode); reload_mode mode requested apply_now)

module _ (env : Env) where
  unfoldable pub stop_sinks : Action (Unit {0})
  stop_sinks = do
    node ← gets (λ n. n)
    deactivate_sink env "kafka_sink" node.kafka_sink_node_name node.change_state_client
        node.get_state_client
    deactivate_sink env "mosquitto_sink" node.mosquitto_sink_node_name
        node.mosquitto_change_state_client node.mosquitto_get_state_client
    clear_active_topic_tools env

  unfoldable pub forget : Bool → Controller → Controller
  forget reset_cached n = record n {
    last_gui_selection = if reset_cached then no_snapshot else n.last_gui_selection;
    last_file_selection = if reset_cached then no_snapshot else n.last_file_selection;
    last_all_selection = if reset_cached then no_snapshot else n.last_all_selection;
    applied_selection = no_snapshot;
    phase = ControllerPhase.idle;
  }

  unfoldable pub handle_stop_streaming : Bool → Action Response
  handle_stop_streaming reset_cached = unless_busy (reject "Controller busy") (
      attempt stop_sinks (λ e. do set_phase ControllerPhase.error; reject_recorded env e)
        λ _. do modify (forget reset_cached); accept "Streaming stopped")

pub record Status : Type 0 where
  pub selection_mode : String
  pub kafka_sink_state : String
  pub mosquitto_sink_state : String
  pub streaming_active : Bool
  pub applied_topics : List TopicInfo
  pub gui_selection_count : ℕ
  pub file_selection_count : ℕ
  pub all_selection_count : ℕ
  pub last_error : String
  pub last_error_stamp : ℕ
  pub reconciling : Bool

unfoldable pub known_state : Option LifecycleState → String
known_state none = "unknown"
known_state (some s) = state_string s

unfoldable pub known_active : Option LifecycleState → Bool
known_active none = false
known_active (some s) = is_active s

unfoldable pub status_of : Controller → Option LifecycleState → Option LifecycleState → Status
unfolding known_state known_active to_topic_info
status_of n kafka_state mosquitto_state = record {
  selection_mode = mode_to_string n.selection_mode;
  kafka_sink_state = known_state kafka_state;
  mosquitto_sink_state =
      if is_empty n.mosquitto_sink_node_name then "disabled" else known_state mosquitto_state;
  streaming_active =
      (not (is_empty n.kafka_sink_node_name) && known_active kafka_state)
      || (not (is_empty n.mosquitto_sink_node_name) && known_active mosquitto_state);
  applied_topics =
      if is_nil n.applied_selection.sink_topics
      then to_topic_info n.applied_selection.topics
      else n.applied_selection.sink_topics;
  gui_selection_count = length n.last_gui_selection.topics % u32_mod;
  file_selection_count = length n.last_file_selection.topics % u32_mod;
  all_selection_count = length n.last_all_selection.topics % u32_mod;
  last_error = n.last_error;
  last_error_stamp = n.last_error_stamp;
  reconciling = is_busy n.phase;
}

unfoldable pub handle_get_status : Env → Action Status
handle_get_status env = do
  node ← gets (λ n. n)
  kafka_state ← get_sink_state env node.get_state_client
  mosquitto_state ←
      (if is_empty node.mosquitto_sink_node_name
        then pure none
        else get_sink_state env node.mosquitto_get_state_client)
  pure (status_of node kafka_state mosquitto_state)
