-- ===== src/Model.antt =====
-- internal/model: the words of a configuration and the values of readings.
pub mod Modbus
pub mod Value
