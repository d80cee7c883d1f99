-- ===== src/Store/Listing/Audit.antt =====
-- `ListAudit`: order and filter.
use gowallet.Prelude.{
  String, ◌≡◌, refl, inl, inr, List, [], ◌∷◌, true, ok, ◌==◌, keep, map, ap, Bool-cases,
  if◌then◌else◌,
}
use gowallet.Prelude.Sort.{sort-eq_of_IsSorted, HasFalling-IsSorted}
use gowallet.Wallet.{Error, AuditEntry}
use gowallet.Store.Db.{Db, Stamp, AuditRow, parse}
use gowallet.Store.Queries.{SqlError, list_audit_log, list_audit_log_by_account, audit_after}
use gowallet.Store.Session.{read, driver_call, wrapping}
use gowallet.Store.Audit.{list_audit, audit_from_row, audit_from_rows}
use gowallet.Store.Ledger.Calm.{calm}
use gowallet.Store.Invariant.{IsValid}

-- An empty account id asks for all rows.
abbrev pub asked_rows : String → List AuditRow → List AuditRow
asked_rows id rows = if id == "" then rows else keep (λ r. r.account_id == id) rows

keep_all : (rows : List AuditRow) → keep (λ r. true) rows ≡ rows
keep_all [] = refl
keep_all (r ∷ rows) = ap (λ rest. r ∷ rest) (keep_all rows)

list_audit-audit_from_rows :
    (to_error : SqlError → Error) (id : String) (db : Db) (now : Stamp)
    → IsValid db
    → list_audit to_error id (calm db now)
      ≡ (ok (audit_from_rows (asked_rows id db.audit_log)), calm db now)
unfolding list_audit list_audit_log list_audit_log_by_account read driver_call wrapping
list_audit-audit_from_rows to_error id db now valid = elim (Bool-cases (id == "")) [
  | inl all ↦
      let sorted =
        sort-eq_of_IsSorted audit_after (keep (λ r. true) db.audit_log)
          (HasFalling-IsSorted (λ r. r.id) (λ r. true) _ db.audit_log valid.falling_audit) in
      simp (all, rw (keep_all db.audit_log) at sorted) refl
  | inr one ↦
      simp
        (
          one,
          sort-eq_of_IsSorted audit_after (keep (λ r. r.account_id == id) db.audit_log) (
              HasFalling-IsSorted (λ r. r.id) (λ r. r.account_id == id) _ db.audit_log
                valid.falling_audit),
        )
        refl
]

-- The entries say of the rows, one for one and in their order, what the rows say.
pub record IsListing (rows : List AuditRow) (out : List AuditEntry) : Type 0 where
  pub ids : map (λ e. e.id) out ≡ map (λ r. r.id) rows
  pub refs : map (λ e. e.ref) out ≡ map (λ r. r.ref) rows
  pub accounts : map (λ e. e.account_id) out ≡ map (λ r. r.account_id) rows
  pub kinds : map (λ e. e.kind) out ≡ map (λ r. r.kind) rows
  pub points : map (λ e. e.points) out ≡ map (λ r. r.points) rows
  pub outcomes : map (λ e. e.outcome) out ≡ map (λ r. r.outcome) rows
  pub reasons : map (λ e. e.reason) out ≡ map (λ r. r.reason) rows
  pub times : map (λ e. e.created_at) out ≡ map (λ r. parse r.created_at) rows

audit_from_rows-IsListing : (rows : List AuditRow) → IsListing rows (audit_from_rows rows)
unfolding audit_from_row
audit_from_rows-IsListing [] = record {
  ids = refl;
  refs = refl;
  accounts = refl;
  kinds = refl;
  points = refl;
  outcomes = refl;
  reasons = refl;
  times = refl;
}
audit_from_rows-IsListing (r ∷ rows) =
    let rest = audit_from_rows-IsListing rows in
    record {
      ids = ap (λ xs. r.id ∷ xs) rest.ids;
      refs = ap (λ xs. r.ref ∷ xs) rest.refs;
      accounts = ap (λ xs. r.account_id ∷ xs) rest.accounts;
      kinds = ap (λ xs. r.kind ∷ xs) rest.kinds;
      points = ap (λ xs. r.points ∷ xs) rest.points;
      outcomes = ap (λ xs. r.outcome ∷ xs) rest.outcomes;
      reasons = ap (λ xs. r.reason ∷ xs) rest.reasons;
      times = ap (λ xs. parse r.created_at ∷ xs) rest.times;
    }

-- In a valid database and with no failing driver call, `list_audit` changes nothing and returns one
-- entry for each row of the asked account, or of all accounts for the empty id, and no others, the
-- last appended first, each with all that its row says.
pub list_audit-newest_first :
    (to_error : SqlError → Error) (id : String) (db : Db) (now : Stamp)
    → IsValid db
    → (out : List AuditEntry) × (list_audit to_error id (calm db now) ≡ (ok out, calm db now))
      × IsListing (asked_rows id db.audit_log) out
list_audit-newest_first to_error id db now valid =
    let rows : List AuditRow = asked_rows id db.audit_log in
    (
      audit_from_rows rows,
      list_audit-audit_from_rows to_error id db now valid,
      audit_from_rows-IsListing rows,
    )
