-- ===== src/Mq.antt =====
-- components/mq: the producer of messages and its pools of connections, the consumer, the requests of a
-- lookup service, and the configuration.
pub mod Config
pub mod Consumer
pub mod Lookup
pub mod Producer
