-- ===== src/Store.antt =====
-- internal/sqlitestore: the database, its queries, and the repositories over them.
pub mod Db
pub mod Queries
pub mod Driver
pub mod Session
pub mod Ledger
pub mod Accounts
pub mod Audit
pub mod Repositories
pub mod Totals
pub mod Invariant
pub mod Book
pub mod Schedule
pub mod Migrations
pub mod Balance
pub mod Listing
pub mod Registration
pub mod Recording
pub mod Keeps
pub mod Raises
pub mod Sure
pub mod Words
pub mod Additions
