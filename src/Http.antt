-- ===== src/Http.antt =====
-- http/: the request, its parser over the connection's buffer, and what the parser promises.
pub mod Request
pub mod Context
pub mod Ending
pub mod Lines
pub mod RoundTrip
pub mod Server
pub mod Messages
pub mod Service
pub mod Exchange
mod Tests
