-- ===== src/Tests.antt =====
-- The theorems at concrete inputs, and runs of the code's functions.
mod Data
mod Frames
mod Payloads
mod Dedup
mod Server
mod Client
mod Numbers
mod Delivery
mod Devices
mod Configs
mod Gateway
