-- ===== src/Config.antt =====
-- The configuration: internal/client/config.go.
pub mod ValidationError
pub mod Point
pub mod Device
pub mod Mqtt
pub mod Names
pub mod Client
pub mod Populate
pub mod Server
