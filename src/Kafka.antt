-- ===== src/Kafka.antt =====
-- The kafka package: producers, consumers, and the tracing, logging and metrics of their messages.
pub mod Headers
pub mod Metadata
pub mod Metrics
pub mod Instrumentation
pub mod Producer
pub mod Consumer
pub mod Group
pub mod Samples
