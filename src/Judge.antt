-- ===== src/Judge.antt =====
-- The judge: what the back end sends to the judge server and how it keeps what comes back.
pub mod Wire
pub mod SendMessage
pub mod ResultMessage
pub mod RwLock
pub mod Cache
pub mod Handler
pub mod Judger
pub mod Tcp
pub mod Server
pub mod Client
