-- ===== src/Wallet.antt =====
-- internal/wallet: the core's types, errors and repository interfaces, and its services.
mod Types
mod Repository
pub mod Auth
pub mod Service
pub mod Audit
pub mod Health
pub mod Keeps
pub mod Raises
pub mod Login
pub use Types.*
pub use Repository.*
