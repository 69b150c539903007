-- ===== src/Source/Life.antt =====
-- kafka_source_node.cpp: the consumer of kafka_source and the callbacks of its lifecycle.
use ros2_dispatcher.Prelude.{
  ℕ, ◌+◌, String, Bool, true, false, ◌&&◌, Option, none, some, [], ◌∷◌, [], is_some, if◌then◌else◌,
}
use ros2_dispatcher.Producer.Config.{first_error}
use ros2_dispatcher.Source.Settings.{NodeParameters, configure_from_parameters, validate_parameters}
use ros2_dispatcher.Source.Types.{KafkaParameters, Source}

-- librdkafka, at the n-th start: an error text, or none. `subscribe` is asked for one topic.
pub record KafkaConsumer : Type 0 where
  pub conf_create : ℕ → Option String
  pub conf_set : ℕ → String → String → Option String
  pub create : ℕ → KafkaParameters → Option String
  pub subscribe : ℕ → String → Option String

abbrev pub Result : Type 0
Result = Bool × Source

unfoldable pub reset_metrics_timer : Source → Source
reset_metrics_timer s = record s { metrics_timer = s.metrics_enabled && s.is_active }

unfoldable pub stop_consumer : Source → Source
stop_consumer s = record s { has_consumer = false }

-- running_ is reset, and the thread is joined.
unfoldable pub join_thread : Source → Source
join_thread s = record s { is_running = false; has_thread = false }

module _ (kafka : KafkaConsumer) where
  -- The first error of the configuration, of create and of subscribe.
  unfoldable pub consumer_error : ℕ → KafkaParameters → Option String
  unfolding first_error
  consumer_error n p = first_error (
      kafka.conf_create n
      ∷ kafka.conf_set n "bootstrap.servers" p.bootstrap_servers
      ∷ kafka.conf_set n "group.id" p.group_id
      ∷ kafka.conf_set n "enable.auto.commit" "true"
      ∷ kafka.conf_set n "auto.offset.reset" p.offset_reset
      ∷ kafka.conf_set n "allow.auto.create.topics" "false"
      ∷ kafka.create n p
      ∷ kafka.subscribe n p.topic_pattern
      ∷ [])

  -- The error message, or none.
  unfoldable pub start_consumer : Source → Option String × Source
  unfolding consumer_error
  start_consumer s =
      let s' : Source = record s { attempts = s.attempts + 1 } in
      elim (consumer_error s.attempts s.kafka_parameters) [
        | some e ↦ (some e, s')
        | none ↦ (none, record s' { has_consumer = true })
      ]

  -- From start_consumer on.
  unfoldable pub run_consumer : Option String × Source → Result
  unfolding reset_metrics_timer
  run_consumer (some e, s) = (false, s)
  run_consumer (none, s) =
      let s' = reset_metrics_timer (record s { is_active = true }) in
      (true, record s' { is_running = true; has_thread = true })

  unfoldable pub on_activate : Source → Result
  unfolding start_consumer run_consumer
  on_activate s = run_consumer (start_consumer s)

-- The settings are checked once more.
unfoldable pub on_configure : NodeParameters → Source → Result
unfolding configure_from_parameters validate_parameters
on_configure d s =
    let (failure, s') = configure_from_parameters d s in
    if is_some failure
    then (false, s')
    else if is_some (validate_parameters s')
    then (false, s')
    else (true, record s' { metrics_pub = true })

unfoldable pub on_deactivate : Source → Result
unfolding join_thread stop_consumer reset_metrics_timer
on_deactivate s =
    (true, reset_metrics_timer (record (stop_consumer (join_thread s)) { is_active = false }))

unfoldable pub on_cleanup : Source → Result
unfolding join_thread stop_consumer
on_cleanup s = (
  true,
  record (stop_consumer (join_thread (record s { is_active = false }))) {
    metrics_timer = false;
    metrics_pub = false;
    type_support_cache = [];
    publishers = [];
    metrics = [];
  },
)

unfoldable pub on_shutdown : Source → Result
unfolding join_thread stop_consumer
on_shutdown s = (true, stop_consumer (join_thread (record s { is_active = false })))
