-- ===== src/Broker.antt =====
-- internal/client/mqtt.go: the MQTT broker, from a published payload to a reading.
pub mod Text
pub mod Source
pub mod Extract
pub mod Timestamps
pub mod Routes
