-- ===== src/Sockets.antt =====
-- The socket calls of pkg/web/sockets, which stand on the signaling client and the transporter.
pub mod Memory
pub mod SockAddr
pub mod Calls
pub mod Imports
pub mod Examples
