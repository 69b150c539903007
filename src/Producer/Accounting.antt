-- ===== src/Producer/Accounting.antt =====
-- What becomes of the records: the counters, and what start() and stop() leave behind.
use ros2_dispatcher.Prelude.{
  ℕ, ◌+◌, ◌%◌, ◌≡◌, refl, true, List, [], ◌∷◌, arith, length, length-append, if◌then◌else◌,
}
use ros2_dispatcher.Producer.Types.{KafkaProducerConfig, QueuedRecord, Librdkafka, State, u64_mod}
use ros2_dispatcher.Producer.Ops.{
  is_queue_full, count_dropped, create_producer_locked, try_produce_locked, send, drain, connect,
  poll_round, finish_start, begin_stop,
}
use ros2_dispatcher.Producer.Threads.{
  System, Step, sends, rounds, begins_start, finishes_start, begins_stop, finishes_stop, Reach,
  booted, later, boot, do_send, do_round, do_begin_start, do_finish_start, do_begin_stop,
  do_finish_stop,
}

-- The records that the class accounts for: those counted, and those that wait.
abbrev pub settled : State → ℕ
settled s = s.sent_ok + s.send_errors + s.dropped_queue_full + length s.pending_records

-- The records that are counted.
abbrev counted : State → ℕ
counted s = s.sent_ok + s.send_errors + s.dropped_queue_full

module _ (kafka : Librdkafka) (c : KafkaProducerConfig) where
  try-counted :
      (r : QueuedRecord) (s : State)
      → s.producer ≡ true
      → ((try_produce_locked kafka r s).1.producer ≡ true)
        × (counted (try_produce_locked kafka r s).1 % u64_mod
            ≡ (counted s + (if is_queue_full (try_produce_locked kafka r s).0.status then 0 else 1))
              % u64_mod)
        × ((try_produce_locked kafka r s).1.pending_records ≡ s.pending_records)
  unfolding try_produce_locked is_queue_full
  try-counted r s h = ground arith

  count_dropped-counted :
      (s : State)
      → (counted (count_dropped s) % u64_mod ≡ (counted s + 1) % u64_mod)
        × ((count_dropped s).producer ≡ s.producer)
        × ((count_dropped s).pending_records ≡ s.pending_records)
  unfolding count_dropped
  count_dropped-counted s = ground arith

  send-settled :
      (r : QueuedRecord) (s : State)
      → settled (send kafka c r s).1 % u64_mod
        ≡ (settled s + (if s.is_running then 1 else 0)) % u64_mod
  unfolding send
  send-settled r s = ground (arith, length-append s.pending_records (r ∷ []))

  drain-settled :
      (rs : List QueuedRecord) (s : State)
      → s.producer ≡ true
      → settled (drain kafka c rs s) % u64_mod ≡ (counted s + length rs) % u64_mod
  unfolding drain
  drain-settled [] s h = ground arith
  drain-settled (r ∷ rs) s h =
      let s' = (try_produce_locked kafka r s).1 in
      ground (
        arith,
        try-counted r s h,
        count_dropped-counted s',
        drain-settled rs s',
        drain-settled rs (count_dropped s'),
      )

  create-settled : (s : State) → settled (create_producer_locked kafka c s).1 ≡ settled s
  unfolding create_producer_locked
  create-settled s = ground arith

  connect-settled : (s : State) → settled (connect kafka c s) ≡ settled s
  unfolding connect
  connect-settled s = ground arith

  round-settled : (s : State) → settled (poll_round kafka c s) % u64_mod ≡ settled s % u64_mod
  unfolding poll_round
  round-settled s =
      let s' = connect kafka c s in
      ground (arith, connect-settled s, drain-settled s'.pending_records s')

  finish_start-settled : (s : State) → settled (finish_start kafka c s).1 ≡ settled s
  unfolding finish_start
  finish_start-settled s = ground arith

  abbrev Accounts : System → Type 0
  Accounts y = (settled y.state + y.discarded) % u64_mod ≡ y.offered % u64_mod

  Step-Accounts : {y z : System} → Step kafka c y z → Accounts y → Accounts z
  unfolding do_send do_round do_begin_start do_finish_start do_begin_stop do_finish_stop begin_stop
  Step-Accounts {y} (sends r) h = ground (arith, send-settled r y.state)
  Step-Accounts {y} (rounds p) h = omega (arith, round-settled y.state)
  Step-Accounts {y} (begins_start p) h = ground arith
  Step-Accounts {y} (finishes_start p) h = omega (arith, finish_start-settled y.state)
  Step-Accounts {y} (begins_stop p) h = ground arith
  Step-Accounts {y} (finishes_stop p) h = ground arith

  -- Every call of send() that found the producer running is accounted for, in any interleaving:
  -- modulo 2^64, the counters of sent, failed and dropped records, the records that wait and
  -- those that stop() cleared add up to the calls.
  pub Reach-accounts :
      {y : System}
      → Reach kafka c y
      → (settled y.state + y.discarded) % u64_mod ≡ y.offered % u64_mod
  unfolding boot
  Reach-accounts booted = refl
  Reach-accounts (later r st) = Step-Accounts st (Reach-accounts r)
