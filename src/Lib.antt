-- ===== src/Lib.antt =====
-- Verification library of ros2_dispatcher: the controller that decides which ROS 2 topics are
-- streamed, the Kafka producer of kafka_sink, the two sinks, kafka_sink and mosquitto_sink, and
-- kafka_source, which publishes again what kafka_sink has streamed.
--
-- The parts of the program, and how they meet. dispatcher_controller takes a selection of topics
-- from the GUI, from a YAML file or from introspection_manager, loads topic_tools components into
-- a component container, and takes the lifecycle nodes kafka_sink and mosquitto_sink through
-- deactivate, configure, their subscriptions_yaml parameter and activate. kafka_sink sends by
-- kafka_client's KafkaProducer, which buffers records while librdkafka cannot take them.
--
-- Prelude: Boolean tests, lists, integers and texts that the parts share. OrderedMap: the
-- operations on std::map that the controller uses, on an association list. Text: trimming and
-- prefixes of strings. Json: the values of nlohmann::json.
--
-- Producer models kafka_bridge/kafka_client/src/kafka_producer.cpp and its header.
-- - Types and Config: the structs, the members of KafkaProducer as the record State, and the
--   configuration that create_producer_locked writes.
-- - Ops: create_producer_locked, try_produce_locked, send and health under their names; poll_loop
--   as poll_round (one turn of the loop), wait_ms and wakes (its wait); start and stop as two
--   halves each, begin_start and finish_start, begin_stop and finish_stop, since other calls come
--   between the change of running_ and the rest.
-- - Threads: the interleavings, as the relation Step on a producer with its owner and its poll
--   thread, and Reach, any number of steps.
-- - Buffer, Accounting, Lifecycle: the theorems. Tests: concrete inputs.
-- librdkafka is the parameter Librdkafka: whether a configuration key is taken, whether the n-th
-- Producer::create works, and what produce answers after what it has been handed so far. Nothing is
-- assumed of its answers. Counters wrap around at 2^64. The loop over the buffer is recursion on
-- the buffer, so that no fuel is needed.
--
-- Controller models dispatcher_controller/src/dispatcher_controller_node.cpp and the class of
-- dispatcher_controller/include/dispatcher_controller/dispatcher_controller_node.hpp.
-- - Types: the enums, the structs and, as the record Controller, the members of the class.
-- - World: an action is a function from the members and the log of all calls of other nodes to an
--   outcome (a value, an error text, an exception) with the members and the log after it. What a
--   service answers, a timeout included, is a function of the log (the record Env), so that an
--   answer may depend on all that was called before; nothing is assumed of it.
-- - Names, Plan, LoadFile, Selection, Services, Tools, Apply: the private methods, under their
--   names where one definition is one method. yaml-cpp is the parameter YamlCpp: conversions of a
--   node, look-up in a map and the emitter; a document is the data type Yaml.
-- - Handlers and Requests: switch_mode and the service handlers. Parameters: the parameter
--   callback, the startup timer and the constructor. Session: sequences of them. Each handler
--   holds mutex_ from its first line to its last, so that a session is a sequence of whole
--   handlers.
-- - Logic, Quiet, Total, Phase, Silent, Recorded: what actions keep, throw and ask for. Protocol,
--   Applied, Session and the modules called Laws: the theorems. Tests: concrete inputs.
--
-- Introspection models introspection_manager/src/introspection_manager_node.cpp.
-- - Node: the members as the record Manager, the methods under their names; graph_changed is a turn
--   of monitor_graph, set_named what the parameter callback does for one bool parameter. The graph
--   that get_topic_names_and_types reads is an argument. handle_all: any sequence of both, each
--   one whole, although the source takes no lock over the whole of update_topics.
-- - Hidden, Updates: the theorems. Tests: concrete inputs.
--
-- Sink models kafka_bridge/kafka_sink/src/kafka_sink_node.cpp and the class of
-- kafka_bridge/kafka_sink/include/kafka_sink/kafka_sink_node.hpp.
-- - Types: the structs and, as the record Sink, the members of KafkaSinkNode. A producer that is
--   let go is kept in `retired`, which the class does not have.
-- - Names: map_kafka_topic. Subscriptions: parse_subscriptions_yaml. Settings: what on_configure
--   reads, and build_producer_config. Parameters: on_parameters_set, one definition for each part
--   that is taken over.
-- - Message, Envelope: serialize_message_to_json and apply_ts_envelope_to_json. Stream: the
--   callback of a subscription; the times that it measures come with the message, as Arrival.
--   Metrics: publish_metrics. Samples: calculate_percentile.
-- - Life: the callbacks of the lifecycle, start_producer, stop_producer and build_subscriptions.
--   Session: transitions, parameters, messages, reports and rounds of the producer's thread in any
--   order, as the relation Step, each one whole. After a failure the node stays in its state, and
--   after an exception it is finalized, as rclcpp_lifecycle has it for a node without on_error.
-- - Guards, Serving, Facts, Reached, Transitions, Steps, Accounting, Counted, Agreement,
--   Refused and the modules Laws, Members and Percentile: the theorems. Tests: concrete inputs.
-- The record Outside holds what the sink uses of librdkafka, yaml-cpp, nlohmann::json, rmw, the type
-- supports, rclcpp and the arithmetic of doubles; nothing is assumed of it but where a theorem says
-- so. Loops are recursion on their lists, so that no fuel is needed.
--
-- Mosquitto models mosquitto_bridge/mosquitto_sink/src/mosquitto_sink_node.cpp and the class of
-- mosquitto_bridge/mosquitto_sink/include/mosquitto_sink/mosquitto_sink_node.hpp. Functions whose
-- text is the same in kafka_sink_node.cpp stand once, in Sink: the trimming of texts, the parsers of
-- the modes, serialize_message_to_json, apply_ts_envelope_to_json and calculate_percentile.
-- - Client: MqttClient with its calls of Paho and the callbacks of Paho. A client keeps the log of
--   both, which the class does not have. Paho is a parameter whose answers may depend on the log.
-- - Types: the structs and, as the record MosquittoSink, the members of MosquittoSinkNode. A client
--   that stop_client lets go is kept in `retired`. Names, Subscriptions, Settings, Parameters, Stream, Metrics,
--   Life and Session are as for kafka_sink; Payload: apply_message_key_to_json and
--   inject_frame_id_into_cdr. The record Outside has what the node uses of other code.
-- - Guards, Serving, Counting, Facts, Transitions, Started, Turns, Steps, Reported and the modules
--   Laws and Members: the theorems. Tests: concrete inputs.
--
-- Source models kafka_bridge/kafka_source/src/kafka_source_node.cpp and the class of
-- kafka_bridge/kafka_source/include/kafka_source/kafka_source_node.hpp.
-- - Types: the structs and, as the record Source, the members of KafkaSourceNode. A map is a list of
--   its entries in the order in which the keys came; a count of the starts and what was published
--   are kept besides.
-- - Topics: parse_topic_mappings and derive_ros_topic. Settings: the checks, on_parameters_set.
--   Stream: a turn of poll_loop in two parts, poll_once with receive_message up to the counters of
--   what is received, and process_message from there on. Metrics: publish_metrics with its text.
--   Life: the callbacks of the lifecycle. Session: sequences of all of them, in which the timer can
--   report and parameters can be set between the two parts of a turn; a turn that throws ends the
--   process. A callback is one step, since it waits in join for the turn, and a report is one, though
--   it reads the counters of an entry one after the other: nothing is stated of its numbers.
-- - Entries, Counting, Steps, Refused and Topics.Laws: the theorems. Tests: concrete inputs.
-- The records KafkaConsumer, Ros and Fixed hold what the node uses of librdkafka, of rosbag2_cpp and
-- rclcpp, and of doubles. Nothing is assumed of them. poll_loop runs until running_ is reset: its
-- turns are steps of a session, so that no fuel is needed.
--
-- Not modelled: log output; the GUI, launch files, plugins and tools, which are glue or in other
-- languages; get_lifecycle_state, change_lifecycle_state and deactivate_kafka_sink of the
-- controller, which nothing calls; load_type_support of kafka_sink, which only calls rosbag2_cpp,
-- and the block behind the creation of a subscription, which is never entered; load_type_support of
-- mosquitto_sink where it fails halfway; kafka_cdr_to_json and gis_health_node, which stand beside the
-- way of a message from a selection to kafka_source: a converter and a client of KafkaProducer.

pub mod Prelude
pub mod OrderedMap
pub mod Text
pub mod Json
pub mod Producer
pub mod Controller
pub mod Introspection
pub mod Sink
pub mod Mosquitto
pub mod Source
