-- ===== src/Producer/Ops.antt =====
-- kafka_client/kafka_producer.cpp: the methods. Each runs under mutex_, but for the parts of
-- start() and stop() outside it, which are functions of their own.
use ros2_dispatcher.Prelude.{
  ℕ, ◌+◌, ◌%◌, String, Bool, true, false, not, ◌&&◌, ◌||◌, Option, none, some, List, [], ◌∷◌, ◌++◌,
  leb, length, is_nil, if◌then◌else◌,
}
use ros2_dispatcher.Producer.Types.{
  ProducerStatus, SendStatus, KafkaProducerConfig, KafkaSendResult, ProducerHealth, QueuedRecord,
  ErrorCode, no_error, err_queue_full, other_error, Librdkafka, State, u64_mod, strict, tolerant,
  sent, queue_full, producer_unavailable, error,
}
use ros2_dispatcher.Producer.Config.{configure}

unfoldable pub is_queue_full : SendStatus → Bool
is_queue_full queue_full = true
is_queue_full _ = false

unfoldable pub init : State
init = record {
  producer = false;
  pending_records = [];
  is_running = false;
  sent_ok = 0;
  dropped_queue_full = 0;
  send_errors = 0;
  status = ProducerStatus.stopped;
  last_error = "";
  handed = [];
  creations = 0;
}

unfoldable pub update_last_error_locked : String → State → State
update_last_error_locked message s = record s { last_error = message }

-- ++dropped_queue_full_
unfoldable pub count_dropped : State → State
count_dropped s = record s { dropped_queue_full = (s.dropped_queue_full + 1) % u64_mod }

-- start() up to the lock; false where it returns true at once.
unfoldable pub begin_start : State → Bool × State
begin_start s =
    if s.is_running
    then (false, s)
    else (true, record s { is_running = true; status = ProducerStatus.starting })

module _ (kafka : Librdkafka) where
  unfoldable pub after_produce : ErrorCode → State → KafkaSendResult × State
  unfolding update_last_error_locked
  after_produce no_error s = (
    record { status = sent; error_message = ""; buffered = false },
    record s { sent_ok = (s.sent_ok + 1) % u64_mod },
  )
  after_produce err_queue_full s = (
    record { status = queue_full; error_message = kafka.err2str err_queue_full; buffered = false },
    s,
  )
  after_produce (other_error n) s = (
    record { status = error; error_message = kafka.err2str (other_error n); buffered = false },
    update_last_error_locked (kafka.err2str (other_error n))
        (record s { send_errors = (s.send_errors + 1) % u64_mod }),
  )

  unfoldable pub try_produce_locked : QueuedRecord → State → KafkaSendResult × State
  unfolding after_produce
  try_produce_locked r s =
      if s.producer
      then (let code = kafka.produce s.handed r in
          after_produce code (record s { handed = (r, code) ∷ s.handed }))
      else (
        record {
          status = producer_unavailable;
          error_message = "producer not available";
          buffered = false;
        },
        s,
      )

module _ (kafka : Librdkafka) (c : KafkaProducerConfig) where
  -- An error text, or none where the method returns true.
  unfoldable pub create_producer_locked : State → Option String × State
  create_producer_locked s = elim (configure kafka c) [
    | some e ↦ (some e, s)
    | none ↦
        let asked = record s { creations = s.creations + 1 } in
        elim (kafka.create s.creations) [
          | some e ↦ (some e, asked)
          | none ↦ (
            none,
            record asked { producer = true; status = ProducerStatus.running; last_error = "" },
          )
        ]
  ]

  -- The end of send(): the record waits in pending_records_ if there is room.
  unfoldable pub buffer_record : QueuedRecord → State → KafkaSendResult × State
  unfolding count_dropped
  buffer_record r s =
      if leb c.max_queue_messages (length s.pending_records)
      then (
        record { status = queue_full; error_message = "pending buffer full"; buffered = false },
        count_dropped s,
      )
      else (
        record { status = queue_full; error_message = "buffered for retry"; buffered = true },
        record s { pending_records = s.pending_records ++ r ∷ [] },
      )

  unfoldable pub send : QueuedRecord → State → KafkaSendResult × State
  unfolding try_produce_locked buffer_record is_queue_full
  send r s =
      if not s.is_running
      then (
        record {
          status = producer_unavailable;
          error_message = "producer stopped";
          buffered = false;
        },
        s,
      )
      else if s.producer
      then (let (result, s') = try_produce_locked kafka r s in
          if not (is_queue_full result.status) || c.drop_when_full
          then (
            result,
            if is_queue_full result.status && c.drop_when_full then count_dropped s' else s',
          )
          else buffer_record r s')
      else buffer_record r s

  -- while (!pending_records_.empty()), over the records that are left.
  unfoldable pub drain : List QueuedRecord → State → State
  unfolding try_produce_locked is_queue_full count_dropped
  drain [] s = record s { pending_records = [] }
  drain (r ∷ rest) s =
      let (result, s') = try_produce_locked kafka r s in
      elim (is_queue_full result.status) [
        | true ↦ elim c.drop_when_full [
          | true ↦ drain rest (count_dropped s')
          | false ↦ record s' { pending_records = r ∷ rest }
        ]
        | false ↦ drain rest s'
      ]

  -- if (!producer_) { ... }
  unfoldable pub connect : State → State
  unfolding create_producer_locked update_last_error_locked
  connect s =
      if s.producer
      then s
      else (let (failure, s') = create_producer_locked s in
          elim failure [
            | none ↦ s'
            | some e ↦ update_last_error_locked e (record s' { status = ProducerStatus.degraded })
          ])

  -- One round of poll_loop, from the test of its `while` to lock.unlock().
  unfoldable pub poll_round : State → State
  unfolding connect drain
  poll_round s =
      if s.is_running
      then (let s' = connect s in if s'.producer then drain s'.pending_records s' else s')
      else s

  -- wait_ms, and the predicate of cv_.wait_for: where it holds already, nothing is waited for.
  unfoldable pub wait_ms : State → ℕ
  wait_ms s = if s.producer then c.poll_timeout_ms else c.reconnect_backoff_ms

  unfoldable pub wakes : State → Bool
  wakes s = not s.is_running || not (is_nil s.pending_records)

  -- The rest of start(): its result, and whether the poll thread is started is the same.
  unfoldable pub finish_start : State → Bool × State
  unfolding create_producer_locked update_last_error_locked
  finish_start s =
      let (failure, s') = create_producer_locked s in
      elim failure [
        | none ↦ (true, s')
        | some e ↦ elim c.startup_mode [
          | strict ↦ (
            false,
            update_last_error_locked e
                (record s' { is_running = false; status = ProducerStatus.failed }),
          )
          | tolerant ↦
              (true, update_last_error_locked e (record s' { status = ProducerStatus.degraded }))
        ]
      ]

-- stop() up to the join; false where it returns at once.
unfoldable pub begin_stop : State → Bool × State
begin_stop s = if s.is_running then (true, record s { is_running = false }) else (false, s)

-- The rest of stop(), the poll thread joined. flush() changes nothing that the class reads.
unfoldable pub finish_stop : State → State
finish_stop s = record s { producer = false; pending_records = []; status = ProducerStatus.stopped }

unfoldable pub health : State → ProducerHealth
health s = record {
  status = s.status;
  last_error = s.last_error;
  sent_ok = s.sent_ok;
  dropped_queue_full = s.dropped_queue_full;
  send_errors = s.send_errors;
}
