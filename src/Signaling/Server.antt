-- ===== src/Signaling/Server.antt =====
-- The state of SignalingServer in pkg/web/signaling/services/signaling-server.ts, its handlers
-- and `handleOperation`. The handlers are actions on the state in `Action`; a WebSocket is a
-- number, and what is sent goes to the end of `sent`.
pub mod Action
pub mod Handlers
pub mod Goodbye
pub mod Messages
pub mod Keeps
pub mod Invariant
pub mod Closing
pub mod Binding
pub mod Ownership
pub mod Release
pub mod Connecting
pub mod Knocking
pub mod Leaving
pub mod Reach
pub mod Owners
pub mod Concurrent
pub mod Knocks
pub mod Process
