-- ===== src/Http/Contract.antt =====
-- The responses that api/openapi.yaml declares for each operation, as the response objects of the
-- generated internal/httpapi/gen/types_server.gen.go have them: what they carry and how they are
-- written. The program writes its responses without them, so they stand beside it as its contract.
pub mod Bodies
pub mod Rules
pub mod Accounts
pub mod Ledger
pub mod Service
pub mod Enums
pub mod Declared
pub mod Handlers
pub mod Writes
pub mod Login
pub mod Routes
