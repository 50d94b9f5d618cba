-- ===== src/Http.antt =====
-- http/: the parser of requests, the printer of responses, and the server's message handler.
pub mod Request
pub mod Response
pub mod Context
pub mod Server
mod Tests
