-- ===== src/Controller/Silent.antt =====
-- The lifecycle transitions that the controller has asked for, and the actions that ask for none.
use ros2_dispatcher.Prelude.{
  String, Bool, true, false, Option, none, some, List, [], ◌∷◌, ◌++◌, ◌≡◌, refl, ◌∙◌, arith,
  if◌then◌else◌,
}
use ros2_dispatcher.Controller.Types.{
  Parameter, TopicInfo, Transition, Controller, Client, ResolvedTopicTool, ActiveTopicTool,
  TopicToolsPlan,
}
use ros2_dispatcher.Controller.World.{
  Env, Log, Call, changed_state, set_parameters_of, Sys, Outcome, ok, fail, thrown, Action, pure,
  fails, continue, ◌>>=◌, gets, modify, ask, ParameterResult,
}
use ros2_dispatcher.Controller.Services.{
  or_timeout, require, check_results, wait_for_service, should_skip_unavailable_sink,
  get_sink_state, change_sink_state, send_subscriptions, set_sink_subscriptions_yaml,
  load_and_activate_topic_tool, deactivate_and_unload_tool,
}
use ros2_dispatcher.Controller.Tools.{
  unload_each, clear_active_topic_tools, load_each, reconcile_topic_tools,
}

-- Newest first, each with the client that it was asked of.
abbrev pub transitions : Log → List (Client × Transition)
transitions [] = []
transitions (changed_state c t ∷ log) = (c, t) ∷ transitions log
transitions (_ ∷ log) = transitions log

-- A transition asked of a client, if it is there.
abbrev pub asked : Option Client → Transition → List (Client × Transition)
asked none t = []
asked (some c) t = (c, t) ∷ []

pub record Silent {A : Type 0} (m : Action A) : Type 0 where
  pub at : (s : Sys) → transitions (m s).1.log ≡ transitions s.log

module _ {A : Type 0} where
  Silent-pure : (a : A) → Silent (pure a)
  Silent-pure a = record { at = λ s. refl }

  Silent-fails : (e : String) → Silent (fails {A = A} e)
  Silent-fails e = record { at = λ s. refl }

  Silent-gets : (f : Controller → A) → Silent (gets f)
  Silent-gets f = record { at = λ s. refl }

  Silent-or_timeout : (e : String) (o : Option A) → Silent (or_timeout e o)
  unfolding or_timeout
  Silent-or_timeout e none = record { at = λ s. refl }
  Silent-or_timeout e (some a) = record { at = λ s. refl }

  Silent-ask :
      (f : Log → A) (c : Call)
      → ((log : Log) → transitions (c ∷ log) ≡ transitions log)
      → Silent (ask f c)
  unfolding ask
  Silent-ask f c h = record { at = λ s. h s.log }

  Silent-if : (b : Bool) (m n : Action A) → Silent m → Silent n → Silent (if b then m else n)
  Silent-if true m n sm sn = sm
  Silent-if false m n sm sn = sn

Silent-modify : (f : Controller → Controller) → Silent (modify f)
Silent-modify f = record { at = λ s. refl }

Silent-require : (b : Bool) (e : String) → Silent (require b e)
unfolding require
Silent-require true e = record { at = λ s. refl }
Silent-require false e = record { at = λ s. refl }

module _ {A B : Type 0} where
  Silent-continue :
      (r : Outcome A) (f : A → Action B) (s : Sys)
      → ((a : A) → Silent (f a))
      → transitions (continue r f s).1.log ≡ transitions s.log
  Silent-continue (ok a) f s k = (k a).at s
  Silent-continue (fail e) f s k = refl
  Silent-continue (thrown e) f s k = refl

  Silent-bind :
      (m : Action A) (f : A → Action B) → Silent m → ((a : A) → Silent (f a)) → Silent (m >>= f)
  Silent-bind m f sm sf = record { at = λ s. Silent-continue (m s).0 f (m s).1 sf ∙ sm.at s }

ruleset silent_rules = (
  Silent-pure, Silent-fails, Silent-gets, Silent-or_timeout, Silent-if, Silent-modify,
  Silent-require, Silent-bind,
)

Silent-check_results : (e : String) (rs : List ParameterResult) → Silent (check_results e rs)
unfolding check_results
Silent-check_results e [] = Silent-pure tt
Silent-check_results e (r ∷ rs) =
    Silent-if r.successful _ _ (Silent-check_results e rs) (Silent-fails _)

module _ (env : Env) where
  pub Silent-get_sink_state : (c : Option Client) → Silent (get_sink_state env c)
  unfolding get_sink_state ask
  Silent-get_sink_state none = Silent-pure none
  Silent-get_sink_state (some c) = record { at = λ s. ground arith }

  Silent-should_skip : (l : String) → Silent (should_skip_unavailable_sink env l)
  unfolding should_skip_unavailable_sink
  Silent-should_skip l = search silent_rules

  Silent-wait : (c : Client) → Silent (wait_for_service env c)
  unfolding wait_for_service
  Silent-wait c = record { at = λ s. refl }

  Silent-send_subscriptions :
      (l : String) (c : Client) (y : String) → Silent (send_subscriptions env l c y)
  unfolding send_subscriptions
  Silent-send_subscriptions l c y = search (
    silent_rules,
    Silent-check_results,
    Silent-ask,
    λ (ps : List Parameter) (log : Log).
        (let e : transitions (set_parameters_of c ps ∷ log) ≡ transitions log = refl in e),
  )

  pub Silent-set_subscriptions :
      (emit : List TopicInfo → String) (l : String) (c : Option Client) (subs : List TopicInfo)
      → Silent (set_sink_subscriptions_yaml env emit l c subs)
  unfolding set_sink_subscriptions_yaml
  Silent-set_subscriptions emit l none subs = Silent-should_skip l
  Silent-set_subscriptions emit l (some c) subs =
      search (silent_rules, Silent-wait, Silent-send_subscriptions, Silent-should_skip)

  Silent-load_tool : (t : ResolvedTopicTool) → Silent (load_and_activate_topic_tool env t)
  unfolding load_and_activate_topic_tool
  Silent-load_tool t = record { at = λ s. ground arith }

  Silent-unload_tool : (t : ActiveTopicTool) → Silent (deactivate_and_unload_tool env t)
  unfolding deactivate_and_unload_tool
  Silent-unload_tool t = record { at = λ s. ground arith }

  Silent-unload_each : (ts : List (String × ActiveTopicTool)) → Silent (unload_each env ts)
  unfolding unload_each
  Silent-unload_each [] = Silent-pure tt
  Silent-unload_each ((k, t) ∷ ts) =
      Silent-bind _ _ (Silent-unload_tool t) (λ _. Silent-unload_each ts)

  Silent-load_each : (ts : List ResolvedTopicTool) → Silent (load_each env ts)
  unfolding load_each
  Silent-load_each [] = Silent-pure tt
  Silent-load_each (t ∷ ts) =
      Silent-bind _ _ (Silent-load_tool t)
        (λ a. Silent-bind _ _ (Silent-modify _) (λ _. Silent-load_each ts))

  pub Silent-reconcile : (plan : TopicToolsPlan) → Silent (reconcile_topic_tools env plan)
  unfolding reconcile_topic_tools clear_active_topic_tools
  Silent-reconcile plan = search (silent_rules, Silent-unload_each, Silent-load_each)

  -- A change of state that succeeds has asked for the one transition, of a client that is there.
  pub change_sink_state-transitions :
      (l : String) (c : Option Client) (tr : Transition) (a : String) (s : Sys)
      → (change_sink_state env l c tr a s).0 ≡ ok tt
      → transitions (change_sink_state env l c tr a s).1.log ≡ asked c tr ++ transitions s.log
  unfolding change_sink_state
  change_sink_state-transitions l none tr a s h = ground arith
  change_sink_state-transitions l (some c) tr a s h = ground arith
