-- ===== src/Wallet/Repository.antt =====
-- The repository interfaces of internal/wallet, over the state `S` of an implementation. A call may
-- change the state also when it fails.
use gowallet.Prelude.{String, Bool, List, Action}
use gowallet.Prelude.Int.{ℤ}
use gowallet.Wallet.Types.{Account, AccountSummary, Transaction, Role, AuditEntry, Error}

abbrev pub Call : Type 0 → Type 0 → Type 0
Call S A = Action S Error A

pub record AccountRepository (S : Type 0) : Type 0 where
  pub create_account : Account → String → Call S (Unit {0})
  pub get_account : String → Call S Account
  pub balance : String → Call S ℤ
  pub get_credential : String → Call S (String × Role)
  pub list_accounts : Call S (List AccountSummary)
  pub list_transactions : String → Call S (List Transaction)

pub record TransactionRepository (S : Type 0) : Type 0 where
  pub record_transaction : Transaction → Call S (Transaction × Bool)

pub record AuditRepository (S : Type 0) : Type 0 where
  pub append_audit : AuditEntry → Call S AuditEntry
  pub list_audit : String → Call S (List AuditEntry)

-- `Pinger`: the error of a ping, if any.
pub record Pinger (S : Type 0) : Type 0 where
  pub ping : Call S (Unit {0})
