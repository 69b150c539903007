-- ===== src/Sink/Life.antt =====
-- kafka_sink_node.cpp: the producer and the subscriptions of kafka_sink, and the callbacks of its
-- lifecycle. The producer's start() and stop() run from end to end, with no round of its thread
-- in between.
use ros2_dispatcher.Prelude.{
  ℕ, ◌-◌, String, Bool, true, false, not, Option, none, some, List, [], ◌∷◌, ◌++◌, ◌⊕◌, is_some,
  if◌then◌else◌,
}
use ros2_dispatcher.Producer.Types.{KafkaProducerConfig, u64_mod}
use ros2_dispatcher.Producer.Ops.{init, begin_start, finish_start, begin_stop, finish_stop}
use ros2_dispatcher.Controller.World.{Outcome, ok, fail, thrown}
use ros2_dispatcher.Sink.Message.{TypeSupport}
use ros2_dispatcher.Sink.Types.{
  SubscriptionConfig, PayloadFormat, cdr, json, KafkaParameters, SubscriptionRuntime,
  ActiveSubscription, ProducerObject, Sink,
}
use ros2_dispatcher.Sink.Outside.{Outside, subscribed, not_subscribed, subscription_throws}
use ros2_dispatcher.Sink.Names.{map_kafka_topic}
use ros2_dispatcher.Sink.Settings.{NodeParameters, configure_from_parameters, build_producer_config}

-- A default SubscriptionRuntime has no type support.
abbrev pub no_type_support : TypeSupport
no_type_support = record { has_rmw = false; has_introspection = false; members = none }

unfoldable pub either_or : Option String → String → String
either_or none s = s
either_or (some t) s = t

unfoldable pub runtime_of :
    (String → List ℕ)
    → KafkaParameters
    → SubscriptionConfig
    → TypeSupport
    → PayloadFormat
    → SubscriptionRuntime
unfolding map_kafka_topic either_or
runtime_of utf8 p config ts format =
    let kafka_topic = map_kafka_topic p (either_or config.kafka_name config.topic_name) in
    record {
      log_label =
          "topic='" ⊕ config.topic_name ⊕ "' kafka_topic='" ⊕ kafka_topic ⊕ "' type='"
          ⊕ config.msg_type ⊕ "'";
      ros_topic = config.topic_name;
      msg_type = config.msg_type;
      kafka_topic = kafka_topic;
      message_key_bytes = utf8 (either_or config.kafka_key p.message_key);
      payload_format = format;
      type_support = ts;
      next_log_time_ns = 0;
      sent_ok = 0;
      dropped = 0;
      errors = 0;
      msgs_total = 0;
      bytes_total = 0;
      serialize_time_ns_accum = 0;
      send_time_ns_accum = 0;
      serialize_time_ns_max = 0;
      send_time_ns_max = 0;
      msg_size_min = u64_mod - 1;
      msg_size_max = 0;
      msg_seq = 0;
      serialize_samples = [];
      send_samples = [];
      prev_msgs_total = 0;
      prev_sent_ok = 0;
      prev_dropped = 0;
      prev_errors = 0;
      prev_bytes_total = 0;
      prev_serialize_time_ns_accum = 0;
      prev_send_time_ns_accum = 0;
    }

unfoldable pub clear_subscriptions : Sink → Sink
clear_subscriptions s = record s { active_subscriptions = [] }

-- producer->stop()
unfoldable pub stop_object : ProducerObject → ProducerObject
unfolding begin_stop finish_stop
stop_object o =
    let (stopping, state') = begin_stop o.state in
    record o { state = if stopping then finish_stop state' else state' }

-- An object that the pointer no longer holds. It has stopped: stop_producer stops it, and where the
-- pointer is only reset or set to another object, its destructor does.
unfoldable pub let_go : ProducerObject → Sink → Sink
unfolding stop_object
let_go o s = record s { kafka_producer = none; retired = stop_object o ∷ s.retired }

unfoldable pub stop_producer : Sink → Sink
unfolding let_go
stop_producer s = elim s.kafka_producer [ none ↦ s | some o ↦ let_go o s ]

-- A boolean that a callback returns, or its exception, with the node.
abbrev pub Result : Type 0
Result = Outcome Bool × Sink

module _ (out : Outside) where
  -- start() on a new object.
  unfoldable pub started_object : KafkaProducerConfig → Bool × ProducerObject
  unfolding begin_start finish_start init
  started_object config =
      let (begun, s) = begin_start init in
      let (result, s') = finish_start out.kafka config s in
      (result, record { config = config; state = s' })

  -- The pointer is set to a new object and one that it held is let go, as is a new object that does
  -- not start.
  unfoldable pub start_producer : Sink → Bool × Sink
  unfolding started_object build_producer_config stop_producer let_go
  start_producer before =
      let s = stop_producer before in
      let (started, object) = started_object (build_producer_config s.kafka_parameters) in
      if started
      then (true, record s { kafka_producer = some object })
      else (false, let_go object s)

  -- The type support for JSON; without one the subscription falls back to CDR.
  unfoldable pub subscription_of : KafkaParameters → SubscriptionConfig → ActiveSubscription
  unfolding runtime_of
  subscription_of p config = record {
    topic_name = config.topic_name;
    msg_type = config.msg_type;
    runtime_state = elim p.payload_format [
      | cdr ↦ runtime_of out.utf8 p config no_type_support cdr
      | json ↦ elim (out.find_type_support config.msg_type) [
        | none ↦ runtime_of out.utf8 p config no_type_support cdr
        | some ts ↦ runtime_of out.utf8 p config ts json
      ]
    ];
  }

  -- The loop over configured_subscriptions_; a subscription is stored before it is created.
  unfoldable pub add_subscriptions : List SubscriptionConfig → Sink → Result
  unfolding subscription_of
  add_subscriptions [] s = (ok true, s)
  add_subscriptions (config ∷ rest) s =
      let added : Sink = record s {
        active_subscriptions =
            s.active_subscriptions ++ subscription_of s.kafka_parameters config ∷ [];
      } in
      elim (out.create_subscription config.topic_name config.msg_type) [
        | subscribed ↦ add_subscriptions rest added
        | not_subscribed ↦ (ok false, added)
        | subscription_throws e ↦ (thrown e, added)
      ]

  unfoldable pub build_subscriptions : Sink → Result
  unfolding clear_subscriptions add_subscriptions
  build_subscriptions s =
      let s' = clear_subscriptions s in
      if is_some s'.kafka_producer
      then add_subscriptions s'.configured_subscriptions s'
      else (ok false, s')

  unfoldable pub on_configure : NodeParameters → Sink → Result
  unfolding configure_from_parameters
  on_configure d s =
      let (failure, s') = configure_from_parameters out.yaml out.load d s in
      (ok (not (is_some failure)), s')

  unfoldable pub finish_activate : Result → Result
  unfolding stop_producer
  finish_activate (ok true, s) = (
    ok true,
    record s {
      is_active = true;
      metrics_pub = if s.metrics_enabled then true else s.metrics_pub;
      metrics_timer = if s.metrics_enabled then true else s.metrics_timer;
    },
  )
  finish_activate (ok false, s) = (ok false, stop_producer s)
  finish_activate (fail e, s) = (fail e, s)
  finish_activate (thrown e, s) = (thrown e, s)

  unfoldable pub on_activate : Sink → Result
  unfolding start_producer build_subscriptions finish_activate
  on_activate s =
      let (started, s') = start_producer s in
      if started then finish_activate (build_subscriptions s') else (ok false, s')

unfoldable pub on_deactivate : Sink → Result
unfolding clear_subscriptions stop_producer
on_deactivate s =
    let s' = stop_producer (clear_subscriptions (record s { is_active = false })) in
    (ok true, record s' { metrics_timer = false; metrics_pub = false })

unfoldable pub on_cleanup : Sink → Result
unfolding clear_subscriptions stop_producer
on_cleanup s =
    let s' = clear_subscriptions (stop_producer (record s { is_active = false })) in
    (
      ok true,
      record s' { configured_subscriptions = []; metrics_timer = false; metrics_pub = false },
    )

unfoldable pub on_shutdown : Sink → Result
unfolding clear_subscriptions stop_producer
on_shutdown s =
    let s' = clear_subscriptions (stop_producer (record s { is_active = false })) in
    (ok true, record s' { configured_subscriptions = [] })
