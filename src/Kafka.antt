-- ===== src/Kafka.antt =====
-- internal/kafka: the Kafka transport.
pub mod Registry
pub mod Config
pub mod Backoff
pub mod Listener
pub mod Topology
pub mod Gateway
pub mod Queries
pub mod Loop
pub mod DeadLetter
pub mod Application
