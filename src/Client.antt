-- ===== src/Client.antt =====
-- internal/client: the gateway's side.
pub mod Handshake
pub mod Store
pub mod Upload
pub mod Consume
pub mod Dial
pub mod Router
pub mod Session
