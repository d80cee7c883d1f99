-- ===== src/Http.antt =====
-- internal/httpapi: the transport layer, from the bearer token to the response.
pub mod Response
pub mod Errors
pub mod Jwt
pub mod Auth
pub mod Identity
pub mod Server
pub mod Accounts
pub mod Transactions
pub mod Login
pub mod Audit
pub mod Time
pub mod Batch
pub mod Text
pub mod Infra
pub mod Contract
pub mod Validator
pub mod Router
pub mod Keeps
pub mod Serving
pub mod Isolation
pub mod Access
