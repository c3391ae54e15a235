-- ===== src/Signaling.antt =====
-- The signaling service of pkg/web/signaling: its operations, addresses, server and client.
pub mod Operation
pub mod Errors
pub mod Service
pub mod Address
pub mod Subnets
pub mod Server
pub mod Client
pub mod Session
pub mod Examples
