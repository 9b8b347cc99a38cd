-- ===== src/Server.antt =====
-- internal/server: the part that receives from the gateways.
pub mod Dedup
pub mod Grouping
pub mod Connections
pub mod World
pub mod Auth
pub mod Upload
pub mod Session
