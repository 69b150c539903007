-- ===== src/Producer/Lifecycle.antt =====
-- start() and stop(): when the poll thread runs, and how a start ends.
use ros2_dispatcher.Prelude.{◌≡◌, refl, ◌⊎◌, inr, Bool, true, false, List, [], ◌∷◌, arith}
use ros2_dispatcher.Producer.Types.{
  KafkaProducerConfig, QueuedRecord, Librdkafka, ProducerStatus, State, strict, tolerant,
}
use ros2_dispatcher.Producer.Ops.{
  count_dropped, create_producer_locked, try_produce_locked, send, drain, connect, poll_round,
  finish_start, begin_stop,
}
use ros2_dispatcher.Producer.Threads.{
  Owner, System, Step, sends, rounds, begins_start, finishes_start, begins_stop, finishes_stop,
  Reach, booted, later, boot, do_send, do_round, do_begin_start, do_finish_start, do_begin_stop,
  do_finish_stop,
}

-- What the owner's place in start() and stop() says of the thread, the flag and the connection.
abbrev pub ThreadFacts : Owner → Bool → State → Type 0
ThreadFacts Owner.idle polling s =
    (polling ≡ s.is_running) × ((s.is_running ≡ true) ⊎ (s.producer ≡ false))
ThreadFacts Owner.starting polling s =
    (polling ≡ false) × (s.is_running ≡ true) × (s.producer ≡ false)
ThreadFacts Owner.stopping polling s = (polling ≡ true) × (s.is_running ≡ false)

module _ (kafka : Librdkafka) (c : KafkaProducerConfig) where
  try-flags :
      (r : QueuedRecord) (s : State)
      → ((try_produce_locked kafka r s).1.is_running ≡ s.is_running)
        × ((try_produce_locked kafka r s).1.producer ≡ s.producer)
  unfolding try_produce_locked
  try-flags r s = ground arith

  send-flags :
      (r : QueuedRecord) (s : State)
      → ((send kafka c r s).1.is_running ≡ s.is_running)
        × ((send kafka c r s).1.producer ≡ s.producer)
  unfolding send
  send-flags r s = ground arith

  drain-flags :
      (rs : List QueuedRecord) (s : State)
      → ((drain kafka c rs s).is_running ≡ s.is_running)
        × ((drain kafka c rs s).producer ≡ s.producer)
  unfolding drain count_dropped
  drain-flags [] s = (refl, refl)
  drain-flags (r ∷ rs) s =
      let s' = (try_produce_locked kafka r s).1 in
      ground (arith, try-flags r s, drain-flags rs s', drain-flags rs (count_dropped s'))

  round-running :
      (s : State)
      → ((poll_round kafka c s).is_running ≡ s.is_running)
        × (s.is_running ≡ false → (poll_round kafka c s).producer ≡ s.producer)
  unfolding poll_round connect create_producer_locked
  round-running s = let s' = connect kafka c s in ground (arith, drain-flags s'.pending_records s')

  -- With a running flag that begin_start has set, the rest of start() ends in one of three ways:
  -- connected; not connected and tolerant, degraded, to be retried by the poll thread; or not
  -- connected and strict, failed, with the flag reset. It returns false in the third case only.
  pub finish_start_cases :
      (s : State)
      → s.is_running ≡ true
      → s.producer ≡ false
      → let (result, s') = finish_start kafka c s in
        ((result ≡ true)
          × (s'.producer ≡ true)
          × (s'.is_running ≡ true)
          × (s'.status ≡ ProducerStatus.running))
        ⊎ ((result ≡ true)
            × (c.startup_mode ≡ tolerant)
            × (s'.producer ≡ false)
            × (s'.is_running ≡ true)
            × (s'.status ≡ ProducerStatus.degraded))
        ⊎ ((result ≡ false)
            × (c.startup_mode ≡ strict)
            × (s'.producer ≡ false)
            × (s'.is_running ≡ false)
            × (s'.status ≡ ProducerStatus.failed))
  unfolding finish_start create_producer_locked
  finish_start_cases s run off = ground arith

  Step-ThreadFacts :
      {y z : System}
      → Step kafka c y z
      → ThreadFacts y.owner y.polling y.state
      → ThreadFacts z.owner z.polling z.state
  unfolding do_send do_round do_begin_start do_finish_start do_begin_stop do_finish_stop begin_stop
  Step-ThreadFacts {y} (sends r) h = ground (arith, send-flags r y.state)
  Step-ThreadFacts {y} (rounds p) h = ground (arith, round-running y.state)
  Step-ThreadFacts {y} (begins_start p) h = ground arith
  Step-ThreadFacts {y} (finishes_start p) h = ground (arith, finish_start_cases y.state)
  Step-ThreadFacts {y} (begins_stop p) h = ground arith
  Step-ThreadFacts {y} (finishes_stop p) h = ground arith

  -- In any interleaving, while the owner is between calls the poll thread runs exactly if
  -- running_ is set, and a stopped producer holds no connection; inside start() there is no
  -- thread to overwrite and no connection; inside stop() there is a thread to join.
  pub Reach-ThreadFacts : {y : System} → Reach kafka c y → ThreadFacts y.owner y.polling y.state
  unfolding boot
  Reach-ThreadFacts booted = (refl, inr refl)
  Reach-ThreadFacts (later r st) = Step-ThreadFacts st (Reach-ThreadFacts r)
