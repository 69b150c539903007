-- ===== src/Mosquitto/Reported.antt =====
-- mosquitto_sink_node.cpp: what publish_metrics reports of the subscriptions.
use ros2_dispatcher.Prelude.{All, ◌+◌, ◌%◌, List, [], ◌∷◌, ◌≡◌, arith}
use ros2_dispatcher.Controller.Types.{LifecycleState}
use ros2_dispatcher.Producer.Types.{u64_mod}
use ros2_dispatcher.Sink.Types.{cdr}
use ros2_dispatcher.Mosquitto.Counting.{IsCounted, AllCounted}
use ros2_dispatcher.Mosquitto.Metrics.{deltas_of}
use ros2_dispatcher.Mosquitto.Outside.{Outside}
use ros2_dispatcher.Mosquitto.Session.{Reach}
use ros2_dispatcher.Mosquitto.Steps.{Reach-NodeFacts}
use ros2_dispatcher.Mosquitto.Types.{ActiveSubscription, MosquittoSink}

module _ (out : Outside) where
  -- What the next report says of a subscription that sends CDR: as many messages sent and in error as
  -- were received since the last one, modulo 2^64, and none dropped before.
  abbrev pub IsEven : ActiveSubscription → Type 0
  IsEven a =
      let d = deltas_of a.runtime_state in
      (a.runtime_state.payload_format ≡ cdr → (d.d_sent + d.d_err) % u64_mod ≡ d.d_msgs)
      × (a.runtime_state.dropped ≡ 0)

  IsCounted-IsEven : (a : ActiveSubscription) → IsCounted a.runtime_state → IsEven a
  unfolding deltas_of
  IsCounted-IsEven a (counts, before, dropped, x, y) =
      ((λ e. ground (arith, counts e, before e)), dropped)

  AllCounted-IsEven : (subs : List ActiveSubscription) → AllCounted subs → All IsEven subs
  AllCounted-IsEven [] h = tt
  AllCounted-IsEven (a ∷ rest) (h, hs) = (IsCounted-IsEven a h, AllCounted-IsEven rest hs)

  -- After any session, the next report of every subscription that sends CDR has as many messages sent
  -- and in error as were received since the last report, modulo 2^64, and no subscription has dropped
  -- a message.
  pub Reach-IsEven :
      {y : LifecycleState × MosquittoSink} → Reach out y → All IsEven y.1.active_subscriptions
  Reach-IsEven {y} r =
      let ((checked, counted, closed), state) = Reach-NodeFacts out r in
      AllCounted-IsEven y.1.active_subscriptions counted
