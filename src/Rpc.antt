-- ===== src/Rpc.antt =====
-- The directory src/rpc: packets, the parser of the byte stream, and the two ends of a connection.
pub mod Packet
pub mod Parser
pub mod Channel
pub mod Session
pub mod Stream
pub mod Controller
