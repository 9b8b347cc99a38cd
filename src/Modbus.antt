-- ===== src/Modbus.antt =====
-- internal/client: the Modbus devices (modbus.go, modbus_runtime.go).
pub mod Point
pub mod Write
pub mod Runtime
