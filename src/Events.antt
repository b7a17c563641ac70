-- ===== src/Events.antt =====
-- internal/adapter/events.
pub mod Kafka
