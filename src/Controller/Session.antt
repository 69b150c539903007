-- ===== src/Controller/Session.antt =====
-- Sessions of the controller: any sequence of requests, parameter changes and the startup timer,
-- one after another under mutex_, from the constructor on.
use ros2_dispatcher.Prelude.{String, Bool, false, List, [], ◌∷◌, ◌≡◌, refl}
use ros2_dispatcher.Controller.Types.{TopicInfo, Parameter}
use ros2_dispatcher.Controller.World.{Env, Sys}
use ros2_dispatcher.Controller.LoadFile.{YamlCpp}
use ros2_dispatcher.Controller.Handlers.{handle_set_selection_mode, handle_apply_selection, is_busy}
use ros2_dispatcher.Controller.Requests.{
  handle_reload_selection, handle_stop_streaming, handle_get_status,
}
use ros2_dispatcher.Controller.Parameters.{on_param_change, startup_apply, Declared, construct}
use ros2_dispatcher.Controller.Phase.{
  NotBusy, set_mode-Keeps, apply-Keeps, reload-Keeps, params-Keeps, startup-Keeps, stop-Keeps,
  status-Keeps,
}

pub data Request : Type 0 where
  set_mode : String → String → Bool → Request
  apply : List TopicInfo → Request
  reload : String → Bool → Request
  stop : Bool → Request
  get_status : Request
  set_parameters : List Parameter → Request
  startup_timer : Request

module _ (env : Env) (yaml : YamlCpp) where
  -- An exception ends a handler; the state is what it had written so far.
  unfoldable pub serve : Request → Sys → Sys
  serve (set_mode text path apply_now) s =
      (handle_set_selection_mode env yaml text path apply_now s).1
  serve (apply topics) s = (handle_apply_selection env yaml topics s).1
  serve (reload path apply_now) s = (handle_reload_selection env yaml path apply_now s).1
  serve (stop reset_cached) s = (handle_stop_streaming env reset_cached s).1
  serve get_status s = (handle_get_status env s).1
  serve (set_parameters ps) s = (on_param_change env yaml ps s).1
  serve startup_timer s = (startup_apply env yaml s).1

  unfoldable pub serve_all : List Request → Sys → Sys
  unfolding serve
  serve_all [] s = s
  serve_all (r ∷ rs) s = serve_all rs (serve r s)

  unfoldable pub boot : Declared → Sys
  unfolding construct
  boot d = record { node = (construct d).0; log = [] }

  serve-NotBusy : (r : Request) (s : Sys) → NotBusy s.node → NotBusy (serve r s).node
  unfolding serve
  serve-NotBusy (set_mode t p b) s h = (set_mode-Keeps env yaml t p b).at s h
  serve-NotBusy (apply ts) s h = (apply-Keeps env yaml ts).at s h
  serve-NotBusy (reload p b) s h = (reload-Keeps env yaml p b).at s h
  serve-NotBusy (stop b) s h = (stop-Keeps env b).at s h
  serve-NotBusy get_status s h = (status-Keeps env).at s h
  serve-NotBusy (set_parameters ps) s h = (params-Keeps env yaml ps).at s h
  serve-NotBusy startup_timer s h = (startup-Keeps env yaml).at s h

  serve_all-NotBusy : (rs : List Request) (s : Sys) → NotBusy s.node → NotBusy (serve_all rs s).node
  unfolding serve_all
  serve_all-NotBusy [] s h = h
  serve_all-NotBusy (r ∷ rs) s h = serve_all-NotBusy rs (serve r s) (serve-NotBusy r s h)

  -- After any sequence of requests, whatever the other nodes answer and whatever fails or throws,
  -- the controller is not left in the phase BUSY, in which it refuses every request.
  pub session-NotBusy :
      (d : Declared) (rs : List Request) → is_busy (serve_all rs (boot d)).node.phase ≡ false
  unfolding boot
  session-NotBusy d rs = serve_all-NotBusy rs (boot d) refl
