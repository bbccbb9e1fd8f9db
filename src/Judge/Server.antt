-- ===== src/Judge/Server.antt =====
-- The judge server (libs/judgercpp/judge_server/src): how a request is judged and what is sent back.
pub mod Check
pub mod Language
pub mod Args
pub mod Problem
pub mod Sockets
pub mod Output
pub mod Worker
pub mod Loop
