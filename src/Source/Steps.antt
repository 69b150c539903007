-- ===== src/Source/Steps.antt =====
-- kafka_source_node.cpp: what holds of kafka_source in any session.
use ros2_dispatcher.Prelude.{Bool, true, false, ◌≡◌}
use ros2_dispatcher.Controller.Types.{LifecycleState, active}
use ros2_dispatcher.Controller.World.{Outcome, ok, fail, thrown}
use ros2_dispatcher.Source.Counting.{flags_of, Counts}
use ros2_dispatcher.Source.Session.{Running}
use ros2_dispatcher.Source.Types.{Source}

-- The node runs in `active` only.
abbrev runs : LifecycleState → Bool
runs active = true
runs _ = false

-- The consumer, the thread and both flags are there exactly in `active`, and the metrics are right
-- for the message in hand.
abbrev pub SourceFacts : Running → Type 0
SourceFacts (p, in_hand, s) =
    (flags_of s ≡ (runs p, runs p, runs p, runs p)) × Counts in_hand s.metrics

-- What the settings do not touch.
abbrev Unmoved : Source → Source → Type 0
Unmoved s t = (flags_of t ≡ flags_of s) × (t.metrics ≡ s.metrics)

abbrev UnmovedIn : Source → Outcome Source → Type 0
UnmovedIn s (ok t) = Unmoved s t
UnmovedIn s (fail e) = Unit {0}
UnmovedIn s (thrown e) = Unit {0}
