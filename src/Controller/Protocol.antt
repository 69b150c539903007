-- ===== src/Controller/Protocol.antt =====
-- What a successful apply_selection asks of a sink: the transitions, and their order.
use mathlib.Core.List.{append_assoc}
use ros2_dispatcher.Prelude.{
  ap, String, true, false, some, Option, List, [], ◌++◌, ◌≡◌, ◌∙◌, ◌⊎◌, arith, if◌then◌else◌,
}
use ros2_dispatcher.Controller.Types.{
  TopicInfo, LifecycleState, Transition, configure, activate, deactivate, Client, TopicToolsPlan,
}
use ros2_dispatcher.Controller.World.{Env, Sys, ok, Action, ◌>>◌}
use ros2_dispatcher.Controller.Services.{
  change_sink_state, get_sink_state, set_sink_subscriptions_yaml,
}
use ros2_dispatcher.Controller.LoadFile.{YamlCpp, topics_to_yaml}
use ros2_dispatcher.Controller.Tools.{reconcile_topic_tools}
use ros2_dispatcher.Controller.Apply.{
  is_active, is_unconfigured, or_fail, deactivate_if_active, configure_if_unconfigured,
  stream_to_sink, apply_to_kafka,
}
use ros2_dispatcher.Controller.Logic.{bind-ok}
use ros2_dispatcher.Controller.Silent.{
  transitions, asked, Silent, Silent-get_sink_state, Silent-set_subscriptions, Silent-reconcile,
  change_sink_state-transitions,
}

-- `st'` is the state that a sink is taken to be in after `st`: if it was active, the answer of its
-- get_state service once it has been asked to deactivate, and `st` itself if it was not.
abbrev pub LookedAgain :
    Env → String → Option Client → Option Client → LifecycleState → Sys → LifecycleState → Type 0
LookedAgain env label change_client get_client st s st' =
    let s1 = (change_sink_state env label change_client deactivate "deactivate" s).1 in
    ((is_active st ≡ true) × ((get_sink_state env get_client s1).0 ≡ ok (some st')))
    ⊎ ((is_active st ≡ false) × (st' ≡ st))

module _ (env : Env) where
  deactivate-transitions :
      (l : String) (c g : Option Client) (st st' : LifecycleState) (s : Sys)
      → (deactivate_if_active env l c g st s).0 ≡ ok st'
      → (transitions (deactivate_if_active env l c g st s).1.log
          ≡ (if is_active st then asked c deactivate else []) ++ transitions s.log)
        × LookedAgain env l c g st s st'
  unfolding deactivate_if_active or_fail
  deactivate-transitions l c g st st' s h =
      let s1 = (change_sink_state env l c deactivate "deactivate" s).1 in
      ground (
        arith,
        change_sink_state-transitions env l c deactivate "deactivate" s,
        (Silent-get_sink_state env g).at s1,
      )

  configure-transitions :
      (l : String) (c : Option Client) (st : LifecycleState) (s : Sys)
      → (configure_if_unconfigured env l c st s).0 ≡ ok tt
      → transitions (configure_if_unconfigured env l c st s).1.log
        ≡ (if is_unconfigured st then asked c configure else []) ++ transitions s.log
  unfolding configure_if_unconfigured
  configure-transitions l c st s h =
      ground (arith, change_sink_state-transitions env l c configure "configure" s)

  stream-transitions :
      (yaml : YamlCpp) (l : String) (c p : Option Client) (subs : List TopicInfo) (s : Sys)
      → (stream_to_sink env yaml l c p subs s).0 ≡ ok tt
      → transitions (stream_to_sink env yaml l c p subs s).1.log
        ≡ asked c activate ++ transitions s.log
  unfolding stream_to_sink
  stream-transitions yaml l c p subs s h =
      let emit = topics_to_yaml yaml in
      let s1 = (set_sink_subscriptions_yaml env emit l p subs s).1 in
      ground (
        arith,
        (Silent-set_subscriptions env emit l p subs).at s,
        change_sink_state-transitions env l c activate "activate" s1,
      )

-- The transitions of a sink that was in the state `st`, and in `st'` when it was looked at again:
-- the newest first.
abbrev pub restart : Option Client → LifecycleState → LifecycleState → List (Client × Transition)
restart c st st' =
    asked c activate
    ++ (if is_unconfigured st' then asked c configure else [])
    ++ (if is_active st then asked c deactivate else [])

module _ (env : Env) (yaml : YamlCpp) where
  -- What follows the second look at the state, with an action in between that asks for nothing.
  resume-transitions :
      (l : String) (c p : Option Client) (subs : List TopicInfo) (st' : LifecycleState)
      (between : Action (Unit {0})) (s : Sys)
      → Silent between
      → ((do configure_if_unconfigured env l c st'; between; stream_to_sink env yaml l c p subs)
          s).0
        ≡ ok tt
      → transitions
          ((do configure_if_unconfigured env l c st'; between; stream_to_sink env yaml l c p subs)
            s).1.log
        ≡ (asked c activate ++ (if is_unconfigured st' then asked c configure else []))
          ++ transitions s.log
  resume-transitions l c p subs st' between s quiet h =
      let s1 = (configure_if_unconfigured env l c st' s).1 in
      let s2 = (between s1).1 in
      ground (
        arith,
        configure-transitions env l c st' s,
        quiet.at s1,
        stream-transitions env yaml l c p subs s2,
        append_assoc (asked c activate) (if is_unconfigured st' then asked c configure else [])
            (transitions s.log),
      )

  restart_assoc :
      (c : Option Client) (st st' : LifecycleState) (xs : List (Client × Transition))
      → (asked c activate ++ (if is_unconfigured st' then asked c configure else []))
          ++ ((if is_active st then asked c deactivate else []) ++ xs)
        ≡ restart c st st' ++ xs
  restart_assoc c st st' xs = simp append_assoc

  -- apply_to_kafka: on success kafka_sink has been asked to deactivate exactly if it was active,
  -- then to configure exactly if it is unconfigured, and last to activate, and nothing else has
  -- been asked of any sink. Whether it is unconfigured is, after a deactivation, what its get_state
  -- service has answered then, and otherwise what was known before.
  pub apply_to_kafka-transitions :
      (plan : TopicToolsPlan) (st : LifecycleState) (s : Sys)
      → (apply_to_kafka env yaml plan st s).0 ≡ ok tt
      → (st' : LifecycleState) × (transitions (apply_to_kafka env yaml plan st s).1.log
          ≡ restart s.node.change_state_client st st' ++ transitions s.log)
        × LookedAgain env "kafka_sink" s.node.change_state_client s.node.get_state_client st s st'
  unfolding apply_to_kafka
  apply_to_kafka-transitions plan st s h =
      let c = s.node.change_state_client in
      let p = s.node.set_parameters_client in
      let l : String = "kafka_sink" in
      let first = deactivate_if_active env l c s.node.get_state_client st in
      let rest = λ (x : LifecycleState). (do
        configure_if_unconfigured env l c x
        reconcile_topic_tools env plan
        stream_to_sink env yaml l c p plan.sink_topics) in
      let (st', found, same) = bind-ok first rest s h in
      let before = deactivate-transitions env l c s.node.get_state_client st st' s found in
      let after =
        resume-transitions l c p plan.sink_topics st' (reconcile_topic_tools env plan) (first s).1
          (Silent-reconcile env plan) (rw same at h) in
      (
        st',
        rw same (
            after
            ∙ ap
                (λ xs.
                  (asked c activate ++ (if is_unconfigured st' then asked c configure else []))
                  ++ xs)
                before.0
            ∙ restart_assoc c st st' (transitions s.log)),
        before.1,
      )
