-- ===== src/Producer/Buffer.antt =====
-- The buffer pending_records_: its bound, and the order in which a round hands it over.
use ros2_dispatcher.Prelude.{
  ◌≤◌, ◌<◌, not, is_nil, ◌≡◌, refl, ◌⊎◌, true, false, List, [], ◌∷◌, ◌++◌, map, reverse, arith,
  length, length-append,
}
use mathlib.Core.List.{reverse-cons, append_assoc}
use ros2_dispatcher.Producer.Types.{
  KafkaProducerConfig, QueuedRecord, ErrorCode, err_queue_full, Handed, Librdkafka, State,
}
use ros2_dispatcher.Producer.Ops.{
  count_dropped, is_queue_full, create_producer_locked, try_produce_locked, send, drain, connect,
  poll_round, begin_start, finish_start, begin_stop, finish_stop, wait_ms, wakes,
}
use ros2_dispatcher.Producer.Threads.{
  System, Step, sends, rounds, begins_start, finishes_start, begins_stop, finishes_stop, Reach,
  booted, later, boot, do_send, do_round, do_begin_start, do_finish_start, do_begin_stop,
  do_finish_stop,
}

module _ (kafka : Librdkafka) (c : KafkaProducerConfig) where
  abbrev Fits : State → Type 0
  Fits s = length s.pending_records ≤ c.max_queue_messages

  create-pending :
      (s : State) → (create_producer_locked kafka c s).1.pending_records ≡ s.pending_records
  unfolding create_producer_locked
  create-pending s = ground arith

  send-Fits : (r : QueuedRecord) (s : State) → Fits s → Fits (send kafka c r s).1
  unfolding send
  send-Fits r s h = ground (arith, length-append s.pending_records (r ∷ []))

  drain-length :
      (rs : List QueuedRecord) (s : State) → length (drain kafka c rs s).pending_records ≤ length rs
  unfolding drain
  drain-length [] s = omega arith
  drain-length (r ∷ rs) s =
      let s' = (try_produce_locked kafka r s).1 in
      ground (arith, drain-length rs s', drain-length rs (count_dropped s'))

  connect-pending : (s : State) → (connect kafka c s).pending_records ≡ s.pending_records
  unfolding connect
  connect-pending s = ground (arith, create-pending s)

  round-Fits : (s : State) → Fits s → Fits (poll_round kafka c s)
  unfolding poll_round
  round-Fits s h =
      let s' = connect kafka c s in
      ground (arith, connect-pending s, drain-length s'.pending_records s')

  finish_start-pending :
      (s : State) → (finish_start kafka c s).1.pending_records ≡ s.pending_records
  unfolding finish_start
  finish_start-pending s = ground (arith, create-pending s)

  Step-Fits : {y z : System} → Step kafka c y z → Fits y.state → Fits z.state
  unfolding do_send do_round do_begin_start do_finish_start do_begin_stop do_finish_stop begin_stop
      begin_start finish_stop
  Step-Fits {y} (sends r) h = send-Fits r y.state h
  Step-Fits {y} (rounds p) h = round-Fits y.state h
  Step-Fits {y} (begins_start p) h = ground arith
  Step-Fits {y} (finishes_start p) h = rw (finish_start-pending y.state) h
  Step-Fits {y} (begins_stop p) h = ground arith
  Step-Fits {y} (finishes_stop p) h = omega arith

  -- Whatever sends, rounds, starts and stops have happened, in any interleaving, at most
  -- max_queue_messages records wait in pending_records_.
  pub Reach-bounded :
      {y : System} → Reach kafka c y → length y.state.pending_records ≤ c.max_queue_messages
  unfolding boot
  Reach-bounded booted = omega arith
  Reach-bounded (later r st) = Step-Fits st (Reach-bounded r)

-- What librdkafka has been handed, the oldest first.
unfoldable pub history : Handed → List QueuedRecord
history h = reverse (map (λ e. e.0) h)

abbrev pub tail_of {ℓ} : {A : Type ℓ} → List A → List A
tail_of [] = []
tail_of (x ∷ xs) = xs

-- Records that still wait do so because librdkafka's queue is full for the first of them, and
-- may not be dropped.
abbrev pub Blocked : KafkaProducerConfig → List QueuedRecord → Handed → Type 0
Blocked c [] h = Unit {0}
Blocked c (r ∷ rs) [] = ⊥
Blocked c (r ∷ rs) (e ∷ h) = (c.drop_when_full ≡ false) × (e ≡ (r, err_queue_full))

history-cons :
    (e : QueuedRecord × ErrorCode) (h : Handed) (rs : List QueuedRecord)
    → history (e ∷ h) ++ rs ≡ history h ++ e.0 ∷ rs
unfolding history
history-cons e h rs =
    rw (reverse-cons e.0 (map (λ (x : QueuedRecord × ErrorCode). x.0) h), append_assoc) refl

module _ (kafka : Librdkafka) (c : KafkaProducerConfig) where
  try-handed :
      (r : QueuedRecord) (s : State)
      → s.producer ≡ true
      → ((try_produce_locked kafka r s).1.handed ≡ (r, kafka.produce s.handed r) ∷ s.handed)
        × ((try_produce_locked kafka r s).1.producer ≡ true)
  unfolding try_produce_locked
  try-handed r s h = ground arith

  try-full :
      (r : QueuedRecord) (s : State)
      → s.producer ≡ true
      → is_queue_full (try_produce_locked kafka r s).0.status ≡ true
      → kafka.produce s.handed r ≡ err_queue_full
  unfolding try_produce_locked is_queue_full
  try-full r s h = ground arith

  drain-Blocked :
      (rs : List QueuedRecord) (s : State)
      → s.producer ≡ true
      → Blocked c (drain kafka c rs s).pending_records (drain kafka c rs s).handed
  unfolding drain
  drain-Blocked [] s h = tt
  drain-Blocked (r ∷ rs) s h =
      let s' = (try_produce_locked kafka r s).1 in
      let live = try-handed r s h in
      ground (
        arith,
        live,
        try-full r s h,
        drain-Blocked rs s' live.1,
        drain-Blocked rs (count_dropped s') (unfold count_dropped in live.1),
      )

  drain-history :
      (rs : List QueuedRecord) (s : State)
      → s.producer ≡ true
      → history (drain kafka c rs s).handed ++ tail_of (drain kafka c rs s).pending_records
        ≡ history s.handed ++ rs
  unfolding drain count_dropped
  drain-history [] s h = refl
  drain-history (r ∷ rs) s h =
      let s' = (try_produce_locked kafka r s).1 in
      let live = try-handed r s h in
      let code = kafka.produce s.handed r in
      ground (
        arith,
        live,
        history-cons (r, code) s.handed rs,
        drain-history rs s' live.1,
        drain-history rs (count_dropped s') live.1,
      )

  drain-producer : (rs : List QueuedRecord) (s : State) → (drain kafka c rs s).producer ≡ s.producer
  unfolding drain count_dropped try_produce_locked
  drain-producer [] s = refl
  drain-producer (r ∷ rs) s =
      let s' = (try_produce_locked kafka r s).1 in
      ground (arith, drain-producer rs s', drain-producer rs (count_dropped s'))

  connect-handed : (s : State) → (connect kafka c s).handed ≡ s.handed
  unfolding connect
  connect-handed s = ground arith

  -- A round of the poll thread that has a connection hands the waiting records to librdkafka
  -- in the order in which they were buffered: what has been handed over before the round, then
  -- what waited, is what has been handed over after it, then what waits behind the first record
  -- left. Records are left only where librdkafka's queue was full for the first of them, as the
  -- last answer, and drop_when_full is off.
  pub poll_round-history :
      (s : State)
      → s.is_running ≡ true
      → (poll_round kafka c s).producer ≡ true
      → (history (poll_round kafka c s).handed ++ tail_of (poll_round kafka c s).pending_records
          ≡ history s.handed ++ s.pending_records)
        × Blocked c (poll_round kafka c s).pending_records (poll_round kafka c s).handed
  unfolding poll_round
  poll_round-history s run h =
      let s' = connect kafka c s in
      ground (
        arith,
        connect-pending kafka c s,
        connect-handed s,
        drain-producer s'.pending_records s',
        drain-history s'.pending_records s',
        drain-Blocked s'.pending_records s',
      )

  -- Without a connection a round leaves the waiting records as they are, and the wait at its end
  -- takes its time, the reconnect backoff, exactly if no record waits.
  pub poll_round-wakes :
      (s : State)
      → s.is_running ≡ true
      → (poll_round kafka c s).producer ≡ false
      → ((poll_round kafka c s).pending_records ≡ s.pending_records)
        × (wait_ms kafka c (poll_round kafka c s) ≡ c.reconnect_backoff_ms)
        × (wakes kafka c (poll_round kafka c s) ≡ not (is_nil s.pending_records))
  unfolding poll_round connect create_producer_locked wait_ms wakes
  poll_round-wakes s run h =
      let s' = connect kafka c s in
      ground (arith, connect-pending kafka c s, drain-producer s'.pending_records s')

  -- send() puts the record behind those that wait exactly when its result says `buffered`, and
  -- then there was room; otherwise the waiting records stay as they are.
  pub send-buffered :
      (r : QueuedRecord) (s : State)
      → (((send kafka c r s).0.buffered ≡ true)
          × ((send kafka c r s).1.pending_records ≡ s.pending_records ++ r ∷ [])
          × (length s.pending_records < c.max_queue_messages)
          × (s.is_running ≡ true))
        ⊎ (((send kafka c r s).0.buffered ≡ false)
            × ((send kafka c r s).1.pending_records ≡ s.pending_records))
  unfolding send
  send-buffered r s = ground arith
