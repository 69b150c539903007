-- ===== src/Producer.antt =====
-- kafka_bridge/kafka_client: the class KafkaProducer. Its parts are the modules below.
pub mod Types
pub mod Config
pub mod Ops
pub mod Threads
pub mod Accounting
pub mod Buffer
pub mod Lifecycle
mod Tests
