-- ===== src/Wallet/Audit.antt =====
-- `AuditService` of internal/wallet/audit.go: the append-only writer and the read.
use gowallet.Prelude.{String, List, fail, not, if◌then◌else◌}
use gowallet.Wallet.Types.{AuditEntry, valid, sentinel, invalid_input}
use gowallet.Wallet.Repository.{Call, AuditRepository}

module _ {S : Type 0} (repo : AuditRepository S) where
  -- `AuditService.Record`
  unfoldable pub record_attempt : AuditEntry → Call S AuditEntry
  record_attempt e =
      if not (valid e.outcome) then fail (sentinel invalid_input) else repo.append_audit e

  -- `AuditService.List`
  unfoldable pub list : String → Call S (List AuditEntry)
  list account_id = repo.list_audit account_id
