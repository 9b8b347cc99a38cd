-- ===== src/Payload.antt =====
-- internal/msg/payload.go: the payloads of the frames, and the registry that decodes them.
pub mod Handshake
pub mod Ack
pub mod Upload
pub mod Notify
