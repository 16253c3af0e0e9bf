-- ===== src/Tests.antt =====
-- Runs of the definitions, and the theorems at concrete inputs.
pub mod Buffers
pub mod Net
pub mod Sockets
mod Polling
mod Time
mod Text
mod Chunks
mod Rpc
mod Mailbox
mod Server
mod Threads
mod Messages
mod Streams
