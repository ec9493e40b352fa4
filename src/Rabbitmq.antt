-- ===== src/Rabbitmq.antt =====
-- src/rabbitmq: the connection to RabbitMQ, its pool of channels and what it declares there.
pub mod Channels
pub mod Topology
pub mod ConnectionService
pub mod Sharing
pub mod Pooling
