-- ===== src/Producer/Threads.antt =====
-- The producer with its poll thread: the interleavings of send(), of the rounds of poll_loop and
-- of the two halves of start() and stop(). start() and stop() are called by one owner, one call
-- at a time; send() by anybody, at any point.
use ros2_dispatcher.Prelude.{ℕ, ◌+◌, Bool, true, false, ◌≡◌, length, if◌then◌else◌}
use ros2_dispatcher.Producer.Types.{KafkaProducerConfig, QueuedRecord, Librdkafka, State}
use ros2_dispatcher.Producer.Ops.{
  init, send, poll_round, begin_start, finish_start, begin_stop, finish_stop,
}

-- What the owner is doing: between calls, inside start(), inside stop().
pub data Owner : Type 0 where
  idle starting stopping : Owner

-- `polling` says whether the poll thread runs. `offered` counts the calls of send() that found the
-- producer running, `discarded` the records that stop() cleared; the class has neither counter.
pub record System : Type 0 where
  pub state : State
  pub owner : Owner
  pub polling : Bool
  pub offered : ℕ
  pub discarded : ℕ

unfoldable pub boot : System
unfolding init
boot = record { state = init; owner = Owner.idle; polling = false; offered = 0; discarded = 0 }

module _ (kafka : Librdkafka) (c : KafkaProducerConfig) where
  unfoldable pub do_send : QueuedRecord → System → System
  unfolding send
  do_send r y = record y {
    state = (send kafka c r y.state).1;
    offered = if y.state.is_running then y.offered + 1 else y.offered;
  }

  unfoldable pub do_round : System → System
  unfolding poll_round
  do_round y = record y { state = poll_round kafka c y.state }

  unfoldable pub do_finish_start : System → System
  unfolding finish_start
  do_finish_start y =
      let (ok, s) = finish_start kafka c y.state in
      record y { state = s; owner = Owner.idle; polling = ok }

unfoldable pub do_begin_start : System → System
unfolding begin_start
do_begin_start y =
    let (begun, s) = begin_start y.state in
    record y { state = s; owner = if begun then Owner.starting else Owner.idle }

unfoldable pub do_begin_stop : System → System
unfolding begin_stop
do_begin_stop y =
    let (begun, s) = begin_stop y.state in
    record y { state = s; owner = if begun then Owner.stopping else Owner.idle }

unfoldable pub do_finish_stop : System → System
unfolding finish_stop
do_finish_stop y = record y {
  state = finish_stop y.state;
  owner = Owner.idle;
  polling = false;
  discarded = y.discarded + length y.state.pending_records;
}

pub data Step (kafka : Librdkafka) (c : KafkaProducerConfig) (y : System) : System → Type 0 where
  sends : (r : QueuedRecord) → Step kafka c y (do_send kafka c r y)
  rounds : y.polling ≡ true → Step kafka c y (do_round kafka c y)
  begins_start : y.owner ≡ Owner.idle → Step kafka c y (do_begin_start y)
  finishes_start : y.owner ≡ Owner.starting → Step kafka c y (do_finish_start kafka c y)
  begins_stop : y.owner ≡ Owner.idle → Step kafka c y (do_begin_stop y)
  finishes_stop : y.owner ≡ Owner.stopping → Step kafka c y (do_finish_stop y)

pub data Reach (kafka : Librdkafka) (c : KafkaProducerConfig) : System → Type 0 where
  booted : Reach kafka c boot
  later : {y z : System} → Reach kafka c y → Step kafka c y z → Reach kafka c z
