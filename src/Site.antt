-- ===== src/Site.antt =====
-- The application: its tables and its routes.
pub mod Tables
pub mod Routes
pub mod Body
