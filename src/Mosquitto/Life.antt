-- ===== src/Mosquitto/Life.antt =====
-- mosquitto_sink_node.cpp: the client and the subscriptions of mosquitto_sink, and the callbacks of
-- its lifecycle.
use ros2_dispatcher.Prelude.{
  ◌-◌, String, Bool, true, false, not, ◌&&◌, ◌||◌, Option, none, some, List, [], ◌∷◌, ◌++◌, ◌⊕◌,
  is_empty, is_some, if◌then◌else◌,
}
use ros2_dispatcher.Producer.Types.{u64_mod}
use ros2_dispatcher.Controller.World.{Outcome, ok, fail, thrown}
use ros2_dispatcher.Sink.Life.{no_type_support, either_or}
use ros2_dispatcher.Sink.Message.{TypeSupport}
use ros2_dispatcher.Sink.Outside.{subscribed, not_subscribed, subscription_throws}
use ros2_dispatcher.Sink.Types.{PayloadFormat, cdr, json}
use ros2_dispatcher.Mosquitto.Client.{MqttClient, new_client, connect, disconnect}
use ros2_dispatcher.Mosquitto.Names.{map_mqtt_topic}
use ros2_dispatcher.Mosquitto.Outside.{Outside}
use ros2_dispatcher.Mosquitto.Settings.{
  NodeParameters, configure_from_parameters, server_uri_of, connect_options_of,
}
use ros2_dispatcher.Mosquitto.Types.{
  MqttParameters, SubscriptionConfig, SubscriptionRuntime, ActiveSubscription, MosquittoSink,
}

unfoldable pub runtime_of :
    MqttParameters → SubscriptionConfig → TypeSupport → PayloadFormat → SubscriptionRuntime
unfolding map_mqtt_topic either_or
runtime_of p config ts format =
    let mqtt_topic = map_mqtt_topic p (either_or config.mqtt_name config.topic_name) in
    record {
      log_label =
          "topic='" ⊕ config.topic_name ⊕ "' mqtt_topic='" ⊕ mqtt_topic ⊕ "' type='"
          ⊕ config.msg_type ⊕ "'";
      ros_topic = config.topic_name;
      msg_type = config.msg_type;
      mqtt_topic = mqtt_topic;
      message_key = p.message_key;
      payload_format = format;
      type_support = ts;
      next_log_time_ns = 0;
      sent_ok = 0;
      dropped = 0;
      errors = 0;
      msgs_total = 0;
      bytes_total = 0;
      serialize_time_ns_accum = 0;
      send_time_ns_accum = 0;
      serialize_time_ns_max = 0;
      send_time_ns_max = 0;
      msg_size_min = u64_mod - 1;
      msg_size_max = 0;
      serialize_samples = [];
      send_samples = [];
      prev_msgs_total = 0;
      prev_sent_ok = 0;
      prev_dropped = 0;
      prev_errors = 0;
      prev_bytes_total = 0;
      prev_serialize_time_ns_accum = 0;
      prev_send_time_ns_accum = 0;
    }

abbrev pub is_json : PayloadFormat → Bool
is_json cdr = false
is_json json = true

unfoldable pub clear_subscriptions : MosquittoSink → MosquittoSink
clear_subscriptions s = record s { active_subscriptions = [] }

abbrev pub stored : SubscriptionRuntime → ActiveSubscription → ActiveSubscription
stored rt a = record a { runtime_state = rt }

-- A boolean that a callback returns, or its exception, with the node.
abbrev pub Result : Type 0
Result = Outcome Bool × MosquittoSink

-- From connect() on.
unfoldable pub take_client : Option String × MqttClient → MosquittoSink → Result
take_client (none, c) s = (ok true, record s { mqtt_runtime = some c })
take_client (some e, c) s = (ok false, record s { mqtt_runtime = none })

module _ (out : Outside) where
  unfoldable pub stop_client : MosquittoSink → MosquittoSink
  unfolding disconnect
  stop_client s = elim s.mqtt_runtime [
    | none ↦ s
    | some c ↦ record s { mqtt_runtime = none; retired = disconnect out.paho c ∷ s.retired }
  ]

  unfoldable pub start_client : MosquittoSink → Result
  unfolding server_uri_of connect_options_of take_client new_client connect
  start_client s =
      let p = s.mqtt_parameters in
      elim (out.paho.create (server_uri_of p) p.client_id) [
        | some e ↦ (thrown e, s)
        | none ↦
            take_client
              (connect out.paho (connect_options_of p) (new_client (server_uri_of p) p.client_id)) s
      ]

  -- The type support for JSON and for the message key; without one JSON falls back to CDR.
  unfoldable pub subscription_of : MqttParameters → SubscriptionConfig → ActiveSubscription
  unfolding runtime_of
  subscription_of p config = record {
    topic_name = config.topic_name;
    msg_type = config.msg_type;
    runtime_state =
        if is_json p.payload_format || not (is_empty p.message_key)
        then elim (out.find_type_support config.msg_type) [
          | none ↦ runtime_of p config no_type_support cdr
          | some ts ↦ runtime_of p config ts p.payload_format
        ]
        else runtime_of p config no_type_support p.payload_format;
  }

  -- The second look for a type support, once the subscription is created.
  unfoldable pub look_again : SubscriptionRuntime → SubscriptionRuntime
  look_again rt =
      if (is_json rt.payload_format || not (is_empty rt.message_key)) && not rt.type_support.has_rmw
      then elim (out.find_again rt.msg_type) [
        | some ts ↦ record rt { type_support = ts }
        | none ↦ record rt { payload_format = cdr }
      ]
      else rt

  -- The loop over configured_subscriptions_; a subscription is stored before it is created.
  unfoldable pub add_subscriptions : List SubscriptionConfig → MosquittoSink → Result
  unfolding subscription_of look_again
  add_subscriptions [] s = (ok true, s)
  add_subscriptions (config ∷ rest) s =
      let a = subscription_of s.mqtt_parameters config in
      let found = stored (look_again a.runtime_state) a in
      elim (out.create_subscription config.topic_name config.msg_type) [
        | subscribed ↦
            add_subscriptions rest
              (record s { active_subscriptions = s.active_subscriptions ++ found ∷ [] })
        | not_subscribed ↦
            (ok false, record s { active_subscriptions = s.active_subscriptions ++ a ∷ [] })
        | subscription_throws e ↦
            (thrown e, record s { active_subscriptions = s.active_subscriptions ++ a ∷ [] })
      ]

  unfoldable pub build_subscriptions : MosquittoSink → Result
  unfolding clear_subscriptions add_subscriptions
  build_subscriptions s =
      let s' = clear_subscriptions s in
      if is_some s'.mqtt_runtime
      then add_subscriptions s'.configured_subscriptions s'
      else (ok false, s')

  unfoldable pub on_configure : NodeParameters → MosquittoSink → Result
  unfolding configure_from_parameters
  on_configure d s =
      let (failure, s') = configure_from_parameters out.yaml out.load d s in
      (ok (not (is_some failure)), s')

  unfoldable pub finish_activate : Result → Result
  unfolding stop_client
  finish_activate (ok true, s) = (
    ok true,
    record s {
      is_active = true;
      metrics_pub = if s.metrics_enabled then true else s.metrics_pub;
      metrics_timer = if s.metrics_enabled then true else s.metrics_timer;
    },
  )
  finish_activate (ok false, s) = (ok false, stop_client s)
  finish_activate (fail e, s) = (fail e, s)
  finish_activate (thrown e, s) = (thrown e, s)

  -- From build_subscriptions on, where start_client has returned true.
  unfoldable pub finish_start : Result → Result
  unfolding build_subscriptions finish_activate
  finish_start (ok true, s) = finish_activate (build_subscriptions s)
  finish_start (ok false, s) = (ok false, s)
  finish_start (fail e, s) = (fail e, s)
  finish_start (thrown e, s) = (thrown e, s)

  unfoldable pub on_activate : MosquittoSink → Result
  unfolding start_client finish_start
  on_activate s = finish_start (start_client s)

  unfoldable pub on_deactivate : MosquittoSink → Result
  unfolding clear_subscriptions stop_client
  on_deactivate s =
      let s' = stop_client (clear_subscriptions (record s { is_active = false })) in
      (ok true, record s' { metrics_timer = false; metrics_pub = false })

  unfoldable pub on_cleanup : MosquittoSink → Result
  unfolding clear_subscriptions stop_client
  on_cleanup s =
      let s' = clear_subscriptions (stop_client (record s { is_active = false })) in
      (
        ok true,
        record s' { configured_subscriptions = []; metrics_timer = false; metrics_pub = false },
      )

  unfoldable pub on_shutdown : MosquittoSink → Result
  unfolding clear_subscriptions stop_client
  on_shutdown s =
      let s' = clear_subscriptions (stop_client (record s { is_active = false })) in
      (ok true, record s' { configured_subscriptions = [] })
