-- ===== src/Controller/Quiet.antt =====
-- The calls of other nodes: what they change of the controller, and whether they throw.
use ros2_dispatcher.Prelude.{String, Bool, Option, none, some, List, [], ◌∷◌, arith}
use ros2_dispatcher.Controller.Types.{
  TopicInfo, TopicSelection, Transition, Controller, Client, ResolvedTopicTool, ActiveTopicTool,
}
use ros2_dispatcher.Controller.World.{Env, ParameterResult, ask}
use ros2_dispatcher.Controller.Services.{
  wait_for_service, now, check_results, should_skip_unavailable_sink, get_sink_state,
  change_sink_state, send_subscriptions, set_sink_subscriptions_yaml, set_introspection_enabled,
  load_and_activate_topic_tool, deactivate_and_unload_tool,
}
use ros2_dispatcher.Controller.Selection.{
  ensure_topic_limits, fill_types, query_topics, infer_missing_types, discover_all_topics,
  introspected, select_discovered,
}
use ros2_dispatcher.Controller.Logic.{
  Keeps, NoThrow, keeps_rules, no_throw_rules, Keeps-pure, Keeps-fails, NoThrow-pure, NoThrow-fails,
  Keeps-if, NoThrow-if,
}

module _ {P : Controller → Type 0} where
  pub Keeps-check_results : (e : String) (rs : List ParameterResult) → Keeps P (check_results e rs)
  unfolding check_results
  Keeps-check_results e [] = Keeps-pure tt
  Keeps-check_results e (r ∷ rs) =
      Keeps-if r.successful _ _ (Keeps-check_results e rs) (Keeps-fails _)

  pub Keeps-fill_types :
      (types : List (String × String)) (subs : List TopicSelection)
      → Keeps P (fill_types types subs)
  unfolding fill_types
  Keeps-fill_types types subs = record { at = λ s h. ground arith }

module _ {P : Controller → Type 0} (env : Env) where
  pub Keeps-wait : (c : Client) → Keeps P (wait_for_service env c)
  unfolding wait_for_service
  Keeps-wait c = search keeps_rules

  pub Keeps-now : Keeps P (now env)
  unfolding now
  Keeps-now = search keeps_rules

  pub Keeps-should_skip : (l : String) → Keeps P (should_skip_unavailable_sink env l)
  unfolding should_skip_unavailable_sink
  Keeps-should_skip l = search keeps_rules

  pub Keeps-get_sink_state : (c : Option Client) → Keeps P (get_sink_state env c)
  unfolding get_sink_state ask
  Keeps-get_sink_state none = search keeps_rules
  Keeps-get_sink_state (some c) = record { at = λ s h. ground arith }

  pub Keeps-change_sink_state :
      (l : String) (c : Option Client) (t : Transition) (a : String)
      → Keeps P (change_sink_state env l c t a)
  unfolding change_sink_state
  Keeps-change_sink_state l none t a = search keeps_rules
  Keeps-change_sink_state l (some c) t a = search keeps_rules

  pub Keeps-send_subscriptions :
      (l : String) (c : Client) (y : String) → Keeps P (send_subscriptions env l c y)
  unfolding send_subscriptions
  Keeps-send_subscriptions l c y = search (keeps_rules, Keeps-check_results)

  pub Keeps-set_subscriptions :
      (emit : List TopicInfo → String) (l : String) (c : Option Client) (subs : List TopicInfo)
      → Keeps P (set_sink_subscriptions_yaml env emit l c subs)
  unfolding set_sink_subscriptions_yaml
  Keeps-set_subscriptions emit l none subs = Keeps-should_skip l
  Keeps-set_subscriptions emit l (some c) subs =
      search (keeps_rules, Keeps-send_subscriptions, Keeps-should_skip)

  pub Keeps-set_introspection : (b : Bool) → Keeps P (set_introspection_enabled env b)
  unfolding set_introspection_enabled
  Keeps-set_introspection b = search (keeps_rules, Keeps-check_results) depth 8

  pub Keeps-load_tool : (t : ResolvedTopicTool) → Keeps P (load_and_activate_topic_tool env t)
  unfolding load_and_activate_topic_tool
  Keeps-load_tool t = search keeps_rules depth 8

  pub Keeps-unload_tool : (t : ActiveTopicTool) → Keeps P (deactivate_and_unload_tool env t)
  unfolding deactivate_and_unload_tool
  Keeps-unload_tool t = search keeps_rules depth 8

  pub Keeps-query_topics : (u t : String) → Keeps P (query_topics env u t)
  unfolding query_topics
  Keeps-query_topics u t = search keeps_rules depth 8

  pub Keeps-infer_missing_types :
      (subs : List TopicSelection) → Keeps P (infer_missing_types env subs)
  unfolding infer_missing_types
  Keeps-infer_missing_types subs = search (keeps_rules, Keeps-query_topics, Keeps-fill_types)

  pub Keeps-ensure : (subs : List TopicSelection) → Keeps P (ensure_topic_limits subs)
  unfolding ensure_topic_limits
  Keeps-ensure subs = search keeps_rules

  pub Keeps-introspected : Keeps P (introspected env)
  unfolding introspected
  Keeps-introspected = search (keeps_rules, Keeps-set_introspection) depth 10

  pub Keeps-discover : Keeps P (discover_all_topics env)
  unfolding discover_all_topics introspected select_discovered
  Keeps-discover = search (keeps_rules, Keeps-ensure, Keeps-set_introspection) depth 10

pub NoThrow-check_results : (e : String) (rs : List ParameterResult) → NoThrow (check_results e rs)
unfolding check_results
NoThrow-check_results e [] = NoThrow-pure tt
NoThrow-check_results e (r ∷ rs) =
    NoThrow-if r.successful _ _ (NoThrow-check_results e rs) (NoThrow-fails _)

pub NoThrow-fill_types :
    (types : List (String × String)) (subs : List TopicSelection) → NoThrow (fill_types types subs)
unfolding fill_types
NoThrow-fill_types types subs = record { at = λ s. ground arith }

module _ (env : Env) where
  pub NoThrow-wait : (c : Client) → NoThrow (wait_for_service env c)
  unfolding wait_for_service
  NoThrow-wait c = search no_throw_rules

  pub NoThrow-now : NoThrow (now env)
  unfolding now
  NoThrow-now = search no_throw_rules

  pub NoThrow-should_skip : (l : String) → NoThrow (should_skip_unavailable_sink env l)
  unfolding should_skip_unavailable_sink
  NoThrow-should_skip l = search no_throw_rules

  pub NoThrow-get_sink_state : (c : Option Client) → NoThrow (get_sink_state env c)
  unfolding get_sink_state ask
  NoThrow-get_sink_state none = search no_throw_rules
  NoThrow-get_sink_state (some c) = record { at = λ s. ground arith }

  pub NoThrow-change_sink_state :
      (l : String) (c : Option Client) (t : Transition) (a : String)
      → NoThrow (change_sink_state env l c t a)
  unfolding change_sink_state
  NoThrow-change_sink_state l none t a = search no_throw_rules
  NoThrow-change_sink_state l (some c) t a = search no_throw_rules

  pub NoThrow-send_subscriptions :
      (l : String) (c : Client) (y : String) → NoThrow (send_subscriptions env l c y)
  unfolding send_subscriptions
  NoThrow-send_subscriptions l c y = search (no_throw_rules, NoThrow-check_results)

  pub NoThrow-set_subscriptions :
      (emit : List TopicInfo → String) (l : String) (c : Option Client) (subs : List TopicInfo)
      → NoThrow (set_sink_subscriptions_yaml env emit l c subs)
  unfolding set_sink_subscriptions_yaml
  NoThrow-set_subscriptions emit l none subs = NoThrow-should_skip l
  NoThrow-set_subscriptions emit l (some c) subs =
      search (no_throw_rules, NoThrow-send_subscriptions, NoThrow-should_skip)

  pub NoThrow-set_introspection : (b : Bool) → NoThrow (set_introspection_enabled env b)
  unfolding set_introspection_enabled
  NoThrow-set_introspection b = search (no_throw_rules, NoThrow-check_results) depth 8

  pub NoThrow-load_tool : (t : ResolvedTopicTool) → NoThrow (load_and_activate_topic_tool env t)
  unfolding load_and_activate_topic_tool
  NoThrow-load_tool t = search no_throw_rules depth 8

  pub NoThrow-unload_tool : (t : ActiveTopicTool) → NoThrow (deactivate_and_unload_tool env t)
  unfolding deactivate_and_unload_tool
  NoThrow-unload_tool t = search no_throw_rules depth 8

  pub NoThrow-query_topics : (u t : String) → NoThrow (query_topics env u t)
  unfolding query_topics
  NoThrow-query_topics u t = search no_throw_rules depth 8

  pub NoThrow-infer_missing_types :
      (subs : List TopicSelection) → NoThrow (infer_missing_types env subs)
  unfolding infer_missing_types
  NoThrow-infer_missing_types subs =
      search (no_throw_rules, NoThrow-query_topics, NoThrow-fill_types)
