-- ===== src/Controller/Handlers.antt =====
-- dispatcher_controller_node.cpp: switch_mode, and the handlers set_selection_mode and
-- apply_selection. Each handler runs under mutex_, from its first line to its last.
pub mod Laws
use ros2_dispatcher.Prelude.{
  String, Bool, true, false, not, ◌&&◌, Option, none, some, List, [], map, ◌==◌, ◌⊕◌, is_empty,
  is_nil, if◌then◌else◌,
}
use ros2_dispatcher.Controller.Types.{
  ControllerPhase, SelectionMode, gui, file, all, TopicInfo, TopicSelection, SelectionSnapshot,
  LifecycleState, Controller,
}
use ros2_dispatcher.Controller.World.{Env, Action, pure, fails, ◌>>=◌, ◌>>◌, gets, modify, attempt}
use ros2_dispatcher.Controller.Plan.{build_topic_tools_plan}
use ros2_dispatcher.Controller.LoadFile.{YamlCpp, load_file_selection}
use ros2_dispatcher.Controller.Services.{now}
use ros2_dispatcher.Controller.Selection.{
  infer_missing_types, discover_all_topics, ensure_topic_limits, plain_selection,
}
use ros2_dispatcher.Controller.Apply.{lift, apply_selection}

pub record Response : Type 0 where
  pub success : Bool
  pub message : String

abbrev pub accept : String → Action Response
accept message = pure (record { success = true; message = message })

abbrev pub reject : String → Action Response
reject message = pure (record { success = false; message = message })

abbrev pub set_phase : ControllerPhase → Action (Unit {0})
set_phase p = modify (λ n. record n { phase = p })

abbrev pub no_snapshot : SelectionSnapshot
no_snapshot = record { topics = []; sink_topics = []; timestamp = 0 }

unfoldable pub parse_mode : String → Option SelectionMode
parse_mode value =
    if value == "gui"
    then some gui
    else if value == "file"
    then some file
    else if value == "all"
    then some all
    else none

unfoldable pub mode_to_string : SelectionMode → String
mode_to_string gui = "gui"
mode_to_string file = "file"
mode_to_string all = "all"

unfoldable pub state_string : LifecycleState → String
state_string LifecycleState.unconfigured = "unconfigured"
state_string LifecycleState.inactive = "inactive"
state_string LifecycleState.active = "active"
state_string LifecycleState.finalized = "finalized"
state_string (LifecycleState.other_state n) = "unknown"

abbrev is_gui : SelectionMode → Bool
is_gui gui = true
is_gui _ = false

abbrev pub is_file : SelectionMode → Bool
is_file file = true
is_file _ = false

abbrev pub is_busy : ControllerPhase → Bool
is_busy ControllerPhase.busy = true
is_busy _ = false

-- if (phase_ == BUSY)
unfoldable pub unless_busy : {A : Type 0} → Action A → Action A → Action A
unless_busy refused action s = if is_busy s.node.phase then refused s else action s

module _ (env : Env) where
  -- last_error_ = message; last_error_stamp_ = now();
  unfoldable pub record_error : String → Action (Unit {0})
  record_error message = do
    stamp ← now env
    modify (λ n. record n { last_error = message; last_error_stamp = stamp })

  unfoldable pub reject_recorded : String → Action Response
  unfolding record_error
  reject_recorded message = do record_error message; reject message

  unfoldable pub snapshot : List TopicSelection → List TopicInfo → Action SelectionSnapshot
  snapshot topics sink_topics = do
    stamp ← now env
    pure (record { topics = topics; sink_topics = sink_topics; timestamp = stamp })

module _ (env : Env) (yaml : YamlCpp) where
  -- phase_ = BUSY, apply_selection, and the phase that its result gives.
  unfoldable pub apply_busy : List TopicSelection → Action (Unit {0})
  apply_busy selection = do
    set_phase ControllerPhase.busy
    attempt (apply_selection env yaml selection) (λ e. do set_phase ControllerPhase.error; fails e)
        (λ _. set_phase ControllerPhase.idle)

  -- The selection and the sink topics that a mode gives, and what it caches on the way.
  unfoldable pub file_selection : String → Action (List TopicSelection × List TopicInfo)
  file_selection path = do
    loaded ← load_file_selection yaml env path
    typed ← infer_missing_types env loaded
    plan ← lift (build_topic_tools_plan typed)
    taken ← snapshot env typed plan.sink_topics
    modify (λ n. record n { last_file_selection = taken })
    pure (typed, plan.sink_topics)

  unfoldable pub all_selection : Action (List TopicSelection × List TopicInfo)
  all_selection = do
    found ← discover_all_topics env
    plan ← lift (build_topic_tools_plan found)
    taken ← snapshot env found plan.sink_topics
    modify (λ n. record n { last_all_selection = taken })
    pure (found, plan.sink_topics)

  -- A selection with no sink topics yet gets a plan, for its errors.
  unfoldable pub check_plan : List TopicSelection × List TopicInfo → Action (Unit {0})
  check_plan (selection, sink_topics) =
      if is_nil sink_topics && not (is_nil selection)
      then (do lift (build_topic_tools_plan selection); pure tt)
      else pure tt

  unfoldable pub check_and_apply : List TopicSelection × List TopicInfo → Action (Unit {0})
  check_and_apply (selection, sink_topics) = do
    check_plan (selection, sink_topics)
    ensure_topic_limits selection
    apply_busy selection

  unfoldable pub file_path_selection : Action (List TopicSelection × List TopicInfo)
  file_path_selection = do
    path ← gets (λ n. n.selection_file_path)
    if is_empty path then fails "selection_file_path is empty" else file_selection path

  unfoldable pub apply_mode : SelectionMode → Action (Unit {0})
  apply_mode gui = do
    last ← gets (λ n. n.last_gui_selection)
    if is_nil last.topics then pure tt else check_and_apply (last.topics, last.sink_topics)
  apply_mode file = file_path_selection >>= check_and_apply
  apply_mode all = all_selection >>= check_and_apply

  -- The mode and the path are written before anything can fail.
  unfoldable pub enter_mode : SelectionMode → String → Controller → Controller
  enter_mode new_mode file_path n = record n {
    selection_mode = new_mode;
    selection_file_path = if is_empty file_path then n.selection_file_path else file_path;
  }

  unfoldable pub switch_mode : SelectionMode → String → Bool → Action (Unit {0})
  switch_mode new_mode file_path apply_now = unless_busy (fails "Controller busy") (do
    modify (enter_mode new_mode file_path)
    if apply_now then apply_mode new_mode else pure tt)

  unfoldable pub keep_file_path : String → Controller → Controller
  keep_file_path path n = record n {
    selection_file_path = if is_empty path then n.selection_file_path else path;
  }

  unfoldable pub handle_set_selection_mode : String → String → Bool → Action Response
  handle_set_selection_mode mode_text file_path apply_now = elim (parse_mode mode_text) [
    | none ↦ reject "Invalid selection_mode. Use gui|file|all."
    | some mode ↦ attempt (switch_mode mode file_path apply_now) reject λ _. do
      modify (keep_file_path file_path)
      accept ("Mode switched to " ⊕ mode_to_string mode)
  ]

  unfoldable pub apply_gui_topics : List TopicSelection → Action Response
  apply_gui_topics topics = do
    set_phase ControllerPhase.busy
    attempt (apply_selection env yaml topics)
        (λ e. do set_phase ControllerPhase.error; reject_recorded env e)
        (λ _. do
          applied ← gets (λ n. n.applied_selection)
          taken ← snapshot env topics applied.sink_topics
          modify (λ n. record n { last_gui_selection = taken; phase = ControllerPhase.idle })
          accept "Selection applied")

  unfoldable pub handle_apply_selection : List TopicInfo → Action Response
  handle_apply_selection topics = unless_busy (reject "Controller busy") (do
    mode ← gets (λ n. n.selection_mode)
    if not (is_gui mode)
        then reject "Not in gui mode"
        else attempt (infer_missing_types env (map plain_selection topics))
            (λ e. reject_recorded env ("Failed to infer topic types: " ⊕ e))
            λ typed.
              attempt (ensure_topic_limits typed) (reject_recorded env) λ _. apply_gui_topics typed)
