-- ===== src/Producer/Tests.antt =====
-- The producer at concrete inputs: a librdkafka whose queue is full for the first record that it
-- is handed, and whose first Producer::create fails.
use ros2_dispatcher.Prelude.{
  ℕ, zero, suc, ◌+◌, ◌%◌, ◌≤◌, ◌≡◌, refl, ◌⊎◌, true, false, not, is_nil, none, some, [], ◌∷◌, ◌++◌,
  length, pos,
}
use ros2_dispatcher.Producer.Types.{
  KafkaProducerConfig, QueuedRecord, Librdkafka, no_error, err_queue_full, State, ProducerStatus,
  tolerant, strict, u64_mod,
}
use ros2_dispatcher.Producer.Config.{configure}
use ros2_dispatcher.Producer.Ops.{
  init, poll_round, wait_ms, wakes, finish_start, create_producer_locked,
}
use ros2_dispatcher.Producer.Threads.{
  System, Reach, booted, later, sends, rounds, begins_start, finishes_start, boot, do_send,
  do_round, do_begin_start, do_finish_start,
}
use ros2_dispatcher.Producer.Buffer.{
  Reach-bounded, history, tail_of, Blocked, poll_round-history, poll_round-wakes,
}
use ros2_dispatcher.Producer.Accounting.{settled, Reach-accounts}
use ros2_dispatcher.Producer.Lifecycle.{ThreadFacts, finish_start_cases, Reach-ThreadFacts}

abbrev config : KafkaProducerConfig
config = record {
  bootstrap_servers = "localhost:9092";
  client_id = "kafka_client";
  acks = "all";
  linger_ms = some (pos 5);
  batch_size = none;
  queue_buffering_max_kbytes = none;
  max_in_flight = none;
  retries = none;
  retry_backoff_ms = none;
  enable_idempotence = true;
  max_queue_messages = 2;
  drop_when_full = false;
  startup_mode = tolerant;
  poll_timeout_ms = 100;
  reconnect_backoff_ms = 1000;
  flush_timeout_ms = 3000;
}

abbrev kafka : Librdkafka
kafka = record {
  conf_set = λ _ _. none;
  create = λ n. elim n [ zero ↦ some "no broker" | suc _ ↦ none ];
  produce = λ h _. elim h [ [] ↦ err_queue_full | _ ∷ _ ↦ no_error ];
  err2str = λ _. "queue full";
}

abbrev record_of : ℕ → QueuedRecord
record_of n = record {
  topic = "ros2.scan";
  key = [];
  value = n ∷ [];
  timestamp_ms = pos n;
  headers = [];
}

abbrev waiting : State
waiting = record init { is_running = true; pending_records = record_of 1 ∷ record_of 2 ∷ [] }

abbrev started : System
started = do_finish_start kafka config (do_begin_start boot)

abbrev loaded : System
loaded = do_send kafka config (record_of 2) (do_send kafka config (record_of 1) started)

started-Reach : Reach kafka config started
unfolding boot init do_begin_start
started-Reach = later (later booted (begins_start refl)) (finishes_start refl)

loaded-Reach : Reach kafka config loaded
loaded-Reach = later (later started-Reach (sends (record_of 1))) (sends (record_of 2))

drained-Reach : Reach kafka config (do_round kafka config loaded)
unfolding boot init do_begin_start do_finish_start do_send create_producer_locked configure
drained-Reach = later loaded-Reach (rounds refl)

-- No connection in the first round; the queue is full in the second; the third delivers both.
abbrev round : State → State
round s = poll_round kafka config s

third_round : (round (round (round waiting))).pending_records ≡ []
unfolding init poll_round create_producer_locked configure
third_round = refl

Reach-bounded_example : length loaded.state.pending_records ≤ 2
Reach-bounded_example = Reach-bounded kafka config loaded-Reach

Reach-accounts_example :
    (settled (do_round kafka config loaded).state + (do_round kafka config loaded).discarded)
      % u64_mod
    ≡ (do_round kafka config loaded).offered % u64_mod
Reach-accounts_example = Reach-accounts kafka config drained-Reach

Reach-ThreadFacts_example : ThreadFacts loaded.owner loaded.polling loaded.state
Reach-ThreadFacts_example = Reach-ThreadFacts kafka config loaded-Reach

abbrev connected : State
connected = record waiting { producer = true }

poll_round-history_example :
    (history (poll_round kafka config connected).handed
        ++ tail_of (poll_round kafka config connected).pending_records
      ≡ history [] ++ record_of 1 ∷ record_of 2 ∷ [])
    × Blocked config
        (poll_round kafka config connected).pending_records
        (poll_round kafka config connected).handed
unfolding init poll_round
poll_round-history_example = poll_round-history kafka config connected refl refl

poll_round-wakes_example :
    ((poll_round kafka config waiting).pending_records ≡ waiting.pending_records)
    × (wait_ms kafka config (poll_round kafka config waiting) ≡ 1000)
    × (wakes kafka config (poll_round kafka config waiting) ≡ not (is_nil waiting.pending_records))
unfolding init poll_round create_producer_locked configure
poll_round-wakes_example = poll_round-wakes kafka config waiting refl refl

finish_start_cases_example :
    let (result, s') = finish_start kafka config waiting in
    ((result ≡ true)
      × (s'.producer ≡ true)
      × (s'.is_running ≡ true)
      × (s'.status ≡ ProducerStatus.running))
    ⊎ ((result ≡ true)
        × (config.startup_mode ≡ tolerant)
        × (s'.producer ≡ false)
        × (s'.is_running ≡ true)
        × (s'.status ≡ ProducerStatus.degraded))
    ⊎ ((result ≡ false)
        × (config.startup_mode ≡ strict)
        × (s'.producer ≡ false)
        × (s'.is_running ≡ false)
        × (s'.status ≡ ProducerStatus.failed))
unfolding init
finish_start_cases_example = finish_start_cases kafka config waiting refl refl
