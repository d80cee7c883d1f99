-- ===== src/Http/Keeps.antt =====
-- The transport changes the state only through the repositories: the rules for what handlers are
-- built from, and for every repository call.
pub mod Handlers
pub mod Ingest
pub mod Routes
pub mod Rules
pub use Rules.*
