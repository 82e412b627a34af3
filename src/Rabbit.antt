-- ===== src/Rabbit.antt =====
-- internal/rabbit: the RabbitMQ transport.
pub mod Config
pub mod Connection
pub mod Registry
pub mod Sender
pub mod Consumer
pub mod Converter
pub mod Headers
pub mod Dispatch
pub mod Gateway
pub mod Application
pub mod Topology
