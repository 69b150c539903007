-- ===== src/Controller/Handlers/Laws.antt =====
-- How the modes are read, and what the parameter callback does to the node.
use ros2_dispatcher.Prelude.{
  String, true, none, some, List, [], ◌∷◌, ◌≡◌, ◌≢◌, ◌↔◌, refl, ◌∙◌, ◌⊎◌, inl, inr, arith, eq_iff,
  All,
}
use ros2_dispatcher.Controller.Types.{SelectionMode, gui, file, all, Parameter}
use ros2_dispatcher.Controller.World.{Env, Sys, Outcome, ok, fail, thrown}
use ros2_dispatcher.Controller.LoadFile.{YamlCpp}
use ros2_dispatcher.Controller.Apply.{lift}
use ros2_dispatcher.Controller.Handlers.{parse_mode, mode_to_string}
use ros2_dispatcher.Controller.Parameters.{
  scan_parameter, scan_parameters, ParameterScan, apply_scan, on_param_change,
}

-- The names of the modes are read back as the modes, and no other text is a mode.
pub parse_mode_iff :
    (text : String) (m : SelectionMode) → (parse_mode text ≡ some m) ↔ (text ≡ mode_to_string m)
unfolding parse_mode mode_to_string
parse_mode_iff text gui = ground (arith, eq_iff text "gui", eq_iff text "file", eq_iff text "all")
parse_mode_iff text file = ground (
  arith,
  eq_iff text "gui",
  eq_iff text "file",
  eq_iff text "all",
  eq_iff "file" "gui",
  eq_iff "all" "gui",
  eq_iff "all" "file",
)
parse_mode_iff text all = ground (
  arith,
  eq_iff text "gui",
  eq_iff text "file",
  eq_iff text "all",
  eq_iff "file" "gui",
  eq_iff "all" "gui",
  eq_iff "all" "file",
)

-- A parameter of another name than selection_mode.
abbrev NoMode : Parameter → Type 0
NoMode p = p.name ≢ "selection_mode"

-- What a scan of such parameters ends with.
abbrev Unmoded : ParameterScan → Outcome ParameterScan → Type 0
Unmoded scan (ok scan') = scan'.new_mode ≡ scan.new_mode
Unmoded scan (fail e) = ⊥
Unmoded scan (thrown e) = Unit {0}

scan_parameter-Unmoded :
    (p : Parameter) (scan : ParameterScan) → NoMode p → Unmoded scan (scan_parameter p scan)
unfolding scan_parameter
scan_parameter-Unmoded p scan h = ground (arith, eq_iff p.name "selection_mode")

Unmoded-trans :
    (scan scan' : ParameterScan) (r : Outcome ParameterScan)
    → scan'.new_mode ≡ scan.new_mode
    → Unmoded scan' r
    → Unmoded scan r
Unmoded-trans scan scan' (ok x) e u = u ∙ e
Unmoded-trans scan scan' (fail x) e u = u
Unmoded-trans scan scan' (thrown x) e u = u

scan_parameters-Unmoded :
    (ps : List Parameter) (scan : ParameterScan)
    → All NoMode ps
    → Unmoded scan (scan_parameters ps scan)
unfolding scan_parameters
scan_parameters-Unmoded [] scan h = refl
scan_parameters-Unmoded (p ∷ ps) scan h =
    step (scan_parameter p scan) (scan_parameter-Unmoded p scan h.0)
      (λ scan'. scan_parameters-Unmoded ps scan' h.1)
  where
    step :
        (r : Outcome ParameterScan)
        → Unmoded scan r
        → ((scan' : ParameterScan) → Unmoded scan' (scan_parameters ps scan'))
        → Unmoded scan
            (elim r [ ok scan' ↦ scan_parameters ps scan' | fail e ↦ fail e | thrown e ↦ thrown e ])
    step (ok scan') u rest = Unmoded-trans scan scan' (scan_parameters ps scan') u (rest scan')
    step (fail e) u rest = u
    step (thrown e) u rest = tt

-- Parameters without a selection_mode among them are accepted, unless one has a value of the wrong
-- type, and change nothing: a selection_file_path or an auto_apply_on_mode_change that is set alone
-- is not taken over.
pub on_param_change_no_mode :
    (env : Env) (yaml : YamlCpp) (ps : List Parameter) (s : Sys)
    → All (λ p. p.name ≢ "selection_mode") ps
    → ((on_param_change env yaml ps s).1 ≡ s)
      × (((on_param_change env yaml ps s).0 ≡ ok (record { successful = true; reason = "" }))
          ⊎ ((e : String) × ((on_param_change env yaml ps s).0 ≡ thrown e)))
unfolding on_param_change apply_scan lift
on_param_change_no_mode env yaml ps s h =
    step (scan_parameters ps start) refl (scan_parameters-Unmoded ps start h)
  where
    start : ParameterScan
    start = record {
      new_mode = none;
      new_file_path = s.node.selection_file_path;
      request_apply = s.node.auto_apply_on_mode_change;
      new_auto_apply = none;
    }

    step :
        (r : Outcome ParameterScan)
        → scan_parameters ps start ≡ r
        → Unmoded start r
        → ((on_param_change env yaml ps s).1 ≡ s)
          × (((on_param_change env yaml ps s).0 ≡ ok (record { successful = true; reason = "" }))
              ⊎ ((e : String) × ((on_param_change env yaml ps s).0 ≡ thrown e)))
    step (ok scan) e u = (ground arith, inl (ground arith))
    step (fail m) e u = absurd u
    step (thrown m) e u = (ground arith, inr (m, ground arith))
