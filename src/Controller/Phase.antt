-- ===== src/Controller/Phase.antt =====
-- The phase that the handlers, the parameter callback and the startup timer leave.
use ros2_dispatcher.Prelude.{
  String, Bool, false, Option, none, some, List, [], ◌∷◌, ◌≡◌, inl, inr, arith, Option-cases,
}
use ros2_dispatcher.Controller.Types.{
  ControllerPhase, SelectionMode, gui, file, all, TopicInfo, TopicSelection, LifecycleState,
  Parameter, Controller, Client, ActiveTopicTool,
}
use ros2_dispatcher.Controller.World.{Env, Sys, Action}
use ros2_dispatcher.Controller.LoadFile.{YamlCpp, load_file_selection}
use ros2_dispatcher.Controller.Services.{now}
use ros2_dispatcher.Controller.Tools.{unload_each, clear_active_topic_tools}
use ros2_dispatcher.Controller.Apply.{deactivate_known, deactivate_sink}
use ros2_dispatcher.Controller.Handlers.{
  is_busy, unless_busy, record_error, reject_recorded, snapshot, apply_busy, file_selection,
  all_selection, check_plan, check_and_apply, file_path_selection, apply_mode, enter_mode,
  switch_mode, keep_file_path, handle_set_selection_mode, apply_gui_topics, handle_apply_selection,
  parse_mode,
}
use ros2_dispatcher.Controller.Requests.{
  prefixed, reload_file, finish_reload, reload_with, reload_mode, handle_reload_selection,
  stop_sinks, forget, handle_stop_streaming, handle_get_status,
}
use ros2_dispatcher.Controller.Parameters.{
  ParameterScan, keep_parameters, apply_scan, on_param_change, startup_apply,
}
use ros2_dispatcher.Controller.Logic.{Keeps, keeps_rules, Keeps-bind, Keeps-attempt, Keeps-pure}
use ros2_dispatcher.Controller.Quiet.{
  Keeps-now, Keeps-should_skip, Keeps-get_sink_state, Keeps-change_sink_state, Keeps-unload_tool,
  Keeps-infer_missing_types, Keeps-ensure, Keeps-discover,
}
use ros2_dispatcher.Controller.Total.{apply_selection-NoThrow}

abbrev pub NotBusy : Controller → Type 0
NotBusy n = is_busy n.phase ≡ false

ruleset quiet_rules = (
  keeps_rules, Keeps-now, Keeps-should_skip, Keeps-get_sink_state, Keeps-change_sink_state,
  Keeps-unload_tool, Keeps-infer_missing_types, Keeps-ensure, Keeps-discover,
)

Keeps-unless_busy :
    {A : Type 0} {P : Controller → Type 0} (refused action : Action A)
    → Keeps P refused
    → Keeps P action
    → Keeps P (unless_busy refused action)
unfolding unless_busy
Keeps-unless_busy refused action kr ka = record { at = λ s h. ground (arith, kr.at s h, ka.at s h) }

module _ (env : Env) (yaml : YamlCpp) where
  -- Whatever the phase before, and whatever the other nodes answer.
  apply_busy-NotBusy :
      (ts : List TopicSelection) (s : Sys) → NotBusy (apply_busy env yaml ts s).1.node
  unfolding apply_busy
  apply_busy-NotBusy ts s =
      let s' = record s { node = record (s.node) { phase = ControllerPhase.busy } } in
      ground (arith, (apply_selection-NoThrow env yaml ts).at s')

  apply_busy-Keeps : (ts : List TopicSelection) → Keeps NotBusy (apply_busy env yaml ts)
  apply_busy-Keeps ts = record { at = λ s _. apply_busy-NotBusy ts s }

  record_error-Keeps : (e : String) → Keeps NotBusy (record_error env e)
  unfolding record_error
  record_error-Keeps e = search (quiet_rules, λ (n : Controller) (h : NotBusy n). h)

  load_file-Keeps : (p : String) → Keeps NotBusy (load_file_selection yaml env p)
  unfolding load_file_selection
  load_file-Keeps p = record { at = λ s h. ground arith }

  file_selection-Keeps : (p : String) → Keeps NotBusy (file_selection env yaml p)
  unfolding file_selection snapshot
  file_selection-Keeps p =
      search (quiet_rules, load_file-Keeps, λ (n : Controller) (h : NotBusy n). h) depth 12

  all_selection-Keeps : Keeps NotBusy (all_selection env yaml)
  unfolding all_selection snapshot
  all_selection-Keeps = search (quiet_rules, λ (n : Controller) (h : NotBusy n). h) depth 12

  check_plan-Keeps :
      (sel : List TopicSelection) (sinks : List TopicInfo)
      → Keeps NotBusy (check_plan env yaml (sel, sinks))
  unfolding check_plan
  check_plan-Keeps sel sinks = search quiet_rules

  check_and_apply-Keeps :
      (p : List TopicSelection × List TopicInfo) → Keeps NotBusy (check_and_apply env yaml p)
  unfolding check_and_apply
  check_and_apply-Keeps (sel, sinks) = search (quiet_rules, check_plan-Keeps, apply_busy-Keeps)

  apply_mode-Keeps : (m : SelectionMode) → Keeps NotBusy (apply_mode env yaml m)
  unfolding apply_mode file_path_selection
  apply_mode-Keeps gui = search (quiet_rules, check_and_apply-Keeps)
  apply_mode-Keeps file = search (quiet_rules, check_and_apply-Keeps, file_selection-Keeps)
  apply_mode-Keeps all = search (quiet_rules, check_and_apply-Keeps, all_selection-Keeps)

  switch_mode-Keeps :
      (m : SelectionMode) (path : String) (at_once : Bool)
      → Keeps NotBusy (switch_mode env yaml m path at_once)
  unfolding switch_mode enter_mode
  switch_mode-Keeps m path at_once =
      search
        (quiet_rules, Keeps-unless_busy, apply_mode-Keeps, λ (n : Controller) (h : NotBusy n). h)

  pub set_mode-Keeps :
      (text path : String) (at_once : Bool)
      → Keeps NotBusy (handle_set_selection_mode env yaml text path at_once)
  unfolding handle_set_selection_mode keep_file_path
  set_mode-Keeps text path at_once = elim (Option-cases (parse_mode text)) [
    | inl e ↦ rw (e, handle_set_selection_mode) (search quiet_rules)
    | inr (m, e) ↦
        rw (e, handle_set_selection_mode)
          (search (quiet_rules, switch_mode-Keeps, λ (n : Controller) (h : NotBusy n). h))
  ]

  reject_recorded-Keeps : (e : String) → Keeps NotBusy (reject_recorded env e)
  unfolding reject_recorded
  reject_recorded-Keeps e = search (quiet_rules, record_error-Keeps)

  apply_gui-NotBusy :
      (ts : List TopicSelection) (s : Sys) → NotBusy (apply_gui_topics env yaml ts s).1.node
  unfolding apply_gui_topics reject_recorded record_error snapshot now
  apply_gui-NotBusy ts s =
      let s' = record s { node = record (s.node) { phase = ControllerPhase.busy } } in
      ground (arith, (apply_selection-NoThrow env yaml ts).at s')

  apply_gui-Keeps : (ts : List TopicSelection) → Keeps NotBusy (apply_gui_topics env yaml ts)
  apply_gui-Keeps ts = record { at = λ s _. apply_gui-NotBusy ts s }

  pub apply-Keeps : (ts : List TopicInfo) → Keeps NotBusy (handle_apply_selection env yaml ts)
  unfolding handle_apply_selection
  apply-Keeps ts =
      search (quiet_rules, Keeps-unless_busy, reject_recorded-Keeps, apply_gui-Keeps) depth 8

  reload_file-Keeps : (p : String) → Keeps NotBusy (reload_file env yaml p)
  unfolding reload_file prefixed snapshot
  reload_file-Keeps p =
      search (quiet_rules, load_file-Keeps, λ (n : Controller) (h : NotBusy n). h) depth 14

  finish_reload-Keeps :
      (at_once : Bool) (p : List TopicSelection × List TopicInfo)
      → Keeps NotBusy (finish_reload env yaml at_once p)
  unfolding finish_reload
  finish_reload-Keeps at_once (sel, sinks) =
      search (quiet_rules, check_plan-Keeps, apply_busy-Keeps)

  reload_with-Keeps :
      (at_once : Bool) (m : Action (List TopicSelection × List TopicInfo))
      → Keeps NotBusy m
      → Keeps NotBusy (reload_with env yaml at_once m)
  unfolding reload_with
  reload_with-Keeps at_once m h =
      Keeps-attempt _ _ _ (Keeps-bind m _ h (finish_reload-Keeps at_once)) reject_recorded-Keeps
        (λ _. Keeps-pure _)

  reload_mode-Keeps :
      (m : SelectionMode) (p : String) (at_once : Bool)
      → Keeps NotBusy (reload_mode env yaml m p at_once)
  unfolding reload_mode
  reload_mode-Keeps gui p at_once = search (quiet_rules, reload_with-Keeps)
  reload_mode-Keeps file p at_once = search (reload_with-Keeps, reload_file-Keeps)
  reload_mode-Keeps all p at_once = search (reload_with-Keeps, all_selection-Keeps)

  pub reload-Keeps :
      (p : String) (at_once : Bool) → Keeps NotBusy (handle_reload_selection env yaml p at_once)
  unfolding handle_reload_selection
  reload-Keeps p at_once = search (quiet_rules, Keeps-unless_busy, reload_mode-Keeps)

  scan-Keeps : (scan : ParameterScan) → Keeps NotBusy (apply_scan env yaml scan)
  unfolding apply_scan keep_parameters
  scan-Keeps scan = elim (Option-cases scan.new_mode) [
    | inl e ↦ rw e (search quiet_rules)
    | inr (m, e) ↦
        rw e (search (quiet_rules, switch_mode-Keeps, λ (n : Controller) (h : NotBusy n). h))
  ]

  pub params-Keeps : (ps : List Parameter) → Keeps NotBusy (on_param_change env yaml ps)
  unfolding on_param_change
  params-Keeps ps = search (quiet_rules, scan-Keeps)

  pub startup-Keeps : Keeps NotBusy (startup_apply env yaml)
  unfolding startup_apply
  startup-Keeps =
      search (quiet_rules, Keeps-unless_busy, switch_mode-Keeps, record_error-Keeps) depth 8

module _ (env : Env) where
  unload_each-Keeps : (ts : List (String × ActiveTopicTool)) → Keeps NotBusy (unload_each env ts)
  unfolding unload_each
  unload_each-Keeps [] = search quiet_rules
  unload_each-Keeps ((k, t) ∷ ts) =
      Keeps-bind _ _ (Keeps-unload_tool env t) (λ _. unload_each-Keeps ts)

  deactivate_known-Keeps :
      (l : String) (c : Option Client) (st : Option LifecycleState)
      → Keeps NotBusy (deactivate_known env l c st)
  unfolding deactivate_known
  deactivate_known-Keeps l c none = search quiet_rules
  deactivate_known-Keeps l c (some st) = search quiet_rules

  deactivate_sink-Keeps :
      (l n : String) (c g : Option Client) → Keeps NotBusy (deactivate_sink env l n c g)
  unfolding deactivate_sink
  deactivate_sink-Keeps l n c g = search (quiet_rules, deactivate_known-Keeps)

  stop_sinks-Keeps : Keeps NotBusy (stop_sinks env)
  unfolding stop_sinks clear_active_topic_tools
  stop_sinks-Keeps =
      search
        (
          quiet_rules,
          deactivate_sink-Keeps,
          unload_each-Keeps,
          λ (n : Controller) (h : NotBusy n). h,
        )
        depth 10

  pub stop-Keeps : (reset : Bool) → Keeps NotBusy (handle_stop_streaming env reset)
  unfolding handle_stop_streaming forget reject_recorded record_error
  stop-Keeps reset = search (quiet_rules, Keeps-unless_busy, stop_sinks-Keeps) depth 10

  pub status-Keeps : Keeps NotBusy (handle_get_status env)
  unfolding handle_get_status
  status-Keeps = search quiet_rules
