-- ===== src/Http.antt =====
-- The HTTP server: requests, routing, responses and the session that joins them.
pub mod Strings
pub mod Query
pub mod Request
pub mod Response
pub mod Outcome
pub mod Router
pub mod Session
