-- ===== src/Source.antt =====
-- kafka_source: the class KafkaSourceNode.
pub mod Types
pub mod Topics
pub mod Settings
pub mod Stream
pub mod Metrics
pub mod Life
pub mod Session
pub mod Entries
pub mod Counting
pub mod Steps
pub mod Refused
pub mod Tests
