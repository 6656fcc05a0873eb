-- ===== src/Wire.antt =====
-- What the gateway and the client library say to each other, crates/opcda-bridge-proto: the messages,
-- how crates/opcda-bridge-gateway/src/server makes and reads them, and how crates/opcda-bridge does.
pub mod Enums
pub mod Messages
pub mod Library
pub mod Gateway
pub mod Read
pub mod Convert
pub mod Pages
pub mod Statuses
pub mod Restored
pub mod Survives
pub mod Service
pub mod Client
pub mod Answers
pub mod Transparent
mod Tests
