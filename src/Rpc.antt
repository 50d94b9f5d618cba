-- ===== src/Rpc.antt =====
-- rpc/: a call from the client to the server and back.
pub mod Serializer
pub mod Value
pub mod Server
pub mod Client
pub mod Exchange
mod Tests
