-- ===== src/Mosquitto.antt =====
-- mosquitto_sink: the class MosquittoSinkNode and its MqttClient. Functions whose text is the same in
-- mosquitto_sink_node.cpp and kafka_sink_node.cpp stand once, in Sink.
pub mod Client
pub mod Types
pub mod Names
pub mod Subscriptions
pub mod Payload
pub mod Outside
pub mod Stream
pub mod Metrics
pub mod Settings
pub mod Parameters
pub mod Life
pub mod Session
pub mod Guards
pub mod Serving
pub mod Counting
pub mod Facts
pub mod Transitions
pub mod Started
pub mod Turns
pub mod Steps
pub mod Reported
pub mod Tests
