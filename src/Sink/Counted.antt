-- ===== src/Sink/Counted.antt =====
-- kafka_sink_node.cpp: what the counters of the subscriptions say in any session of kafka_sink.
use ros2_dispatcher.Sink.Reached.{Started, start_producer-Started, stop_producer-same}
use ros2_dispatcher.Sink.Steps.{on_round-same, on_metrics-same, Reach-SinkFacts}
use ros2_dispatcher.Sink.Transitions.{configure_from_parameters-Kept}
use ros2_dispatcher.Sink.Metrics.{deltas_of}
use ros2_dispatcher.Producer.Types.{u64_mod}
use ros2_dispatcher.Sink.Types.{SubscriptionRuntime, cdr}
use ros2_dispatcher.Sink.Accounting.{
  IsCounted, AllCounted, deliver-AllCounted, note_all_published-AllCounted,
  add_subscriptions-AllCounted,
}
use ros2_dispatcher.Prelude.{
  All, ℕ, ◌+◌, ◌%◌, Bool, true, false, Option, none, some, List, [], ◌∷◌, ◌≡◌, sym, ap, subst,
  arith, if◌then◌else◌, is_some, inl, inr, Bool-cases,
}
use ros2_dispatcher.Controller.Types.{LifecycleState}
use ros2_dispatcher.Controller.World.{ok, fail, thrown}
use ros2_dispatcher.Sink.Types.{ActiveSubscription, ProducerObject, Sink}
use ros2_dispatcher.Sink.Outside.{Outside}
use ros2_dispatcher.Sink.Stream.{Arrival}
use ros2_dispatcher.Sink.Life.{
  build_subscriptions, clear_subscriptions, start_producer, finish_activate, on_configure,
  on_activate, on_deactivate, on_cleanup, on_shutdown, Result,
}
use ros2_dispatcher.Sink.Session.{
  is_active_state, deliver, on_message, Step, configures, activates, deactivates, cleans_up,
  shuts_down, sets_parameters, receives, publishes, polls, Reach, launched, later,
}
use ros2_dispatcher.Sink.Guards.{HasValidSettings, on_parameters_set-SameStream}

module _ (out : Outside) where
  finish_activate-AllCounted :
      (r : Result)
      → AllCounted r.1.active_subscriptions
      → AllCounted (finish_activate out r).1.active_subscriptions
  unfolding finish_activate
  finish_activate-AllCounted (ok true, t) h = h
  finish_activate-AllCounted (ok false, t) h =
      rw (ap (λ (x : Sink). x.active_subscriptions) (stop_producer-same out t)) h
  finish_activate-AllCounted (fail e, t) h = h
  finish_activate-AllCounted (thrown e, t) h = h

  build_subscriptions-AllCounted :
      (s : Sink) → AllCounted (build_subscriptions out s).1.active_subscriptions
  unfolding build_subscriptions clear_subscriptions
  build_subscriptions-AllCounted s = elim (Bool-cases (is_some s.kafka_producer)) [
    | inl e ↦
        rw e
          (add_subscriptions-AllCounted out s.configured_subscriptions (clear_subscriptions s) tt)
    | inr e ↦ rw e tt
  ]

  on_activate-AllCounted :
      (s : Sink)
      → AllCounted s.active_subscriptions
      → AllCounted (on_activate out s).1.active_subscriptions
  unfolding on_activate
  on_activate-AllCounted s h = split (start_producer out s) (start_producer-Started out s)
    where
      split :
          (r : Bool × Sink)
          → Started out s r
          → AllCounted
              (if r.0
                then finish_activate out (build_subscriptions out r.1)
                else (ok false, r.1)).1.active_subscriptions
      split (true, t) started =
          finish_activate-AllCounted (build_subscriptions out t) (build_subscriptions-AllCounted t)
      split (false, t) same = rw (ap (λ (x : Sink). x.active_subscriptions) same) h

  on_message-AllCounted :
      (i : ℕ) (m : Arrival) (s : Sink)
      → AllCounted s.active_subscriptions
      → AllCounted (on_message out i m s).active_subscriptions
  unfolding on_message
  on_message-AllCounted i m s h = split s.is_active s.kafka_producer
    where
      split :
          (b : Bool) (p : Option ProducerObject)
          → AllCounted
              (if b
                then elim p as (λ _. Sink) [
                  | none ↦ s
                  | some o ↦
                      let (subscriptions, o') = deliver out i m s.active_subscriptions o in
                      record s { active_subscriptions = subscriptions; kafka_producer = some o' }
                ]
                else s).active_subscriptions
      split true none = h
      split true (some o) = deliver-AllCounted out i m s.active_subscriptions o h
      split false p = h

  Step-AllCounted :
      {y z : LifecycleState × Sink}
      → Step out y z
      → HasValidSettings y.1
      → AllCounted y.1.active_subscriptions
      → AllCounted z.1.active_subscriptions
  unfolding on_configure on_deactivate on_cleanup on_shutdown clear_subscriptions
  Step-AllCounted (configures d s) valid h =
      let (a, b, c, same, retired) = configure_from_parameters-Kept out d s valid in
      subst AllCounted (sym same) h
  Step-AllCounted (activates s) valid h = on_activate-AllCounted s h
  Step-AllCounted (deactivates s) valid h =
      subst AllCounted
        (sym (
          ap (λ (x : Sink). x.active_subscriptions)
            (stop_producer-same out (clear_subscriptions (record s { is_active = false })))))
        tt
  Step-AllCounted (cleans_up s) valid h = tt
  Step-AllCounted (shuts_down p s) valid h = tt
  Step-AllCounted (sets_parameters p ps s) valid h =
      subst AllCounted
        (sym
          (on_parameters_set-SameStream out.yaml out.load (is_active_state p) ps
            s).same_subscriptions)
        h
  Step-AllCounted (receives p i m s) valid h = on_message-AllCounted i m s h
  Step-AllCounted (publishes p s) valid h = elim (on_metrics-same out s) [
    | inl e ↦ subst (λ (t : Sink). AllCounted t.active_subscriptions) (sym e) h
    | inr e ↦
        subst (λ (t : Sink). AllCounted t.active_subscriptions) (sym e)
          (note_all_published-AllCounted out s.active_subscriptions h)
  ]
  Step-AllCounted (polls p s) valid h =
      subst AllCounted (sym (ap (λ (x : Sink). x.active_subscriptions) (on_round-same out s))) h

  -- After any sequence of transitions, parameters, messages, metrics and rounds, every subscription
  -- that sends CDR has counted each message once: the messages sent, dropped and in error add up to all
  -- the messages, modulo 2^64, and so did the values of them that were published last. The sequence number of every subscription is its number of messages,
  -- and each of its two lists of samples holds a thousand at most.
  pub Reach-AllCounted :
      {y : LifecycleState × Sink} → Reach out y → AllCounted y.1.active_subscriptions
  Reach-AllCounted launched = tt
  Reach-AllCounted (later before step) =
      Step-AllCounted step (Reach-SinkFacts out before).0 (Reach-AllCounted before)

  -- What a subscription reports, where it has counted each message once.
  deltas_of-balanced :
      (rt : SubscriptionRuntime)
      → IsCounted rt
      → rt.payload_format ≡ cdr
      → ((deltas_of rt).d_sent + (deltas_of rt).d_drop + (deltas_of rt).d_err) % u64_mod
        ≡ (deltas_of rt).d_msgs
  unfolding deltas_of
  deltas_of-balanced rt (counts, before, seq, a, b) h = ground (arith, counts h, before h)

  -- What publish_metrics reports of a subscription that sends CDR: as many messages sent, dropped
  -- and in error as were received since the last report, modulo 2^64.
  abbrev pub IsBalanced : ActiveSubscription → Type 0
  IsBalanced a =
      let d = deltas_of a.runtime_state in
      a.runtime_state.payload_format ≡ cdr → (d.d_sent + d.d_drop + d.d_err) % u64_mod ≡ d.d_msgs

  AllCounted-IsBalanced : (subs : List ActiveSubscription) → AllCounted subs → All IsBalanced subs
  AllCounted-IsBalanced [] h = tt
  AllCounted-IsBalanced (a ∷ rest) (h, hs) =
      (deltas_of-balanced a.runtime_state h, AllCounted-IsBalanced rest hs)

  -- In any session, what a report says of the subscriptions that send CDR is balanced.
  pub Reach-IsBalanced :
      {y : LifecycleState × Sink} → Reach out y → All IsBalanced y.1.active_subscriptions
  Reach-IsBalanced {y} r = AllCounted-IsBalanced y.1.active_subscriptions (Reach-AllCounted r)
