-- ===== src/Store/Audit.antt =====
-- internal/sqlitestore/audit.go.
use gowallet.Prelude.{String, List, [], ◌∷◌, pure, ◌>>=◌, ◌==◌, if◌then◌else◌}
use gowallet.Wallet.{AuditEntry, Error, Call}
use gowallet.Store.Db.{AuditRow, parse}
use gowallet.Store.Queries.{SqlError, append_audit_entry, list_audit_log, list_audit_log_by_account}
use gowallet.Store.Session.{World, read, write, wrapping}

-- `auditFromRow`
unfoldable pub audit_from_row : AuditRow → AuditEntry
unfolding parse
audit_from_row row = record {
  id = row.id;
  ref = row.ref;
  account_id = row.account_id;
  kind = row.kind;
  points = row.points;
  outcome = row.outcome;
  reason = row.reason;
  created_at = parse row.created_at;
}

abbrev pub audit_from_rows : List AuditRow → List AuditEntry
audit_from_rows [] = []
audit_from_rows (row ∷ rows) = audit_from_row row ∷ audit_from_rows rows

module _ (to_error : SqlError → Error) where
  -- `Store.AppendAudit`
  unfoldable pub append_audit : AuditEntry → Call World AuditEntry
  unfolding audit_from_row
  append_audit e w =
      (do
        row ←
            wrapping to_error "append audit" (
              write
                (append_audit_entry w.now e.ref e.account_id e.kind e.points e.outcome e.reason))
        pure (audit_from_row row))
        w

  -- `Store.ListAudit`
  unfoldable pub list_audit : String → Call World (List AuditEntry)
  unfolding audit_from_row
  list_audit account_id = do
    rows ←
        wrapping to_error "list audit"
          (read (if account_id == "" then list_audit_log else list_audit_log_by_account account_id))
    pure (audit_from_rows rows)
