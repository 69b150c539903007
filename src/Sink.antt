-- ===== src/Sink.antt =====
-- kafka_sink: the class KafkaSinkNode. Its parts are the modules below.
pub mod Types
pub mod Names
pub mod Subscriptions
pub mod Outside
pub mod Stream
pub mod Settings
pub mod Life
pub mod Session
pub mod Guards
pub mod Serving
pub mod Facts
pub mod Message
pub mod Envelope
pub mod Parameters
mod Reached
pub mod Steps
pub mod Accounting
pub mod Counted
pub mod Refused
pub mod Agreement
pub mod Metrics
pub mod Tests
pub mod Samples
pub mod Transitions
