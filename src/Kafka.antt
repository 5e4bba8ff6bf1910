-- ===== src/Kafka.antt =====
-- The Kafka producer: kafka/.
pub mod Registry
pub mod Json
pub mod TableMapper
pub mod Producer
pub mod Options
pub mod Program
pub mod Main
pub mod Samples
pub mod Tests
