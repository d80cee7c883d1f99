-- ===== src/Store/Words.antt =====
-- The words in what internal/sqlitestore reads back: kinds and outcomes are those of the CHECKs.
use gowallet.Prelude.{
  String, ◌≡◌, refl, inl, inr, some, List, [], ◌∷◌, Bool, true, false, Result, ok, err, arith, All,
  All-map, keep, ◌==◌, Bool-cases, if◌then◌else◌, find?,
}
use mathlib.Core.Path.{subst}
use gowallet.Prelude.Sort.{sort, sort-All}
use gowallet.Wallet.{Kind, Transaction, AuditEntry, Error}
use gowallet.Wallet.Raises.{Gives}
use gowallet.Store.Db.{Db, AuditRow, TransactionRow}
use gowallet.Store.Invariant.{IsValid, HasKnownOutcome}
use gowallet.Store.Queries
use gowallet.Store.Queries.{
  SqlError, kind_allowed, outcome_allowed, transaction_row, list_transactions_by_account,
  list_audit_log, list_audit_log_by_account, transaction_after, audit_after,
}
use gowallet.Store.Session.{World}
use gowallet.Store.Session.Steps.{read_then}
use gowallet.Store.Driver.{Driver}
use gowallet.Store.Accounts.{to_error, list_transactions, entries}
use gowallet.Store.Audit.{list_audit, audit_from_row, audit_from_rows}
use gowallet.Store.Ledger.{record_transaction, stored_of}
use gowallet.Store.Ledger.Outcome.{Recorded, record_transaction-Recorded}

keep-All : {A : Type 0} (P : A → Type 0) (p : A → Bool) (xs : List A) → All P xs → All P (keep p xs)
keep-All P p [] h = tt
keep-All P p (x ∷ xs) h = elim (Bool-cases (p x)) [
  | inl kept ↦ rw kept (h.0, keep-All P p xs h.1)
  | inr left ↦ rw left (keep-All P p xs h.1)
]

find?-All :
    {A : Type 0} (P : A → Type 0) (p : A → Bool) (xs : List A) (x : A)
    → All P xs
    → find? p xs ≡ some x
    → P x
find?-All P p [] x h found = cc
find?-All P p (y ∷ ys) x h found = elim (Bool-cases (p y)) [
  | inl here ↦ let same : y ≡ x = ground (arith, here) in subst P same h.0
  | inr later ↦ find?-All P p ys x h.1 (rw later at found)
]

abbrev pub HasAllowedKind : Transaction → Type 0
HasAllowedKind t = kind_allowed t.kind ≡ true

abbrev pub HasAllowedOutcome : AuditEntry → Type 0
HasAllowedOutcome e = outcome_allowed e.outcome ≡ true

-- A created transaction has the kind it was submitted with, and a replayed one a kind of the CHECK.
abbrev pub KeepsKind : Kind → Transaction × Bool → Type 0
KeepsKind kind (stored, true) = (stored.kind ≡ kind) × (kind_allowed kind ≡ true)
KeepsKind kind (stored, false) = HasAllowedKind stored

abbrev HasAllowedRowKind : TransactionRow → Type 0
HasAllowedRowKind r = kind_allowed r.kind ≡ true

allowed_rows : (db : Db) → IsValid db → All HasAllowedRowKind db.transactions
allowed_rows db valid = All-map (λ r legal. legal.allowed) db.transactions valid.legal

Recorded-Gives :
    (t : Transaction) (w w' : World) (r : Result Error (Transaction × Bool))
    → IsValid w.db
    → Recorded t w (r, w')
    → Gives (KeepsKind t.kind) r
unfolding stored_of transaction_row
Recorded-Gives t w w' (err e) valid h = tt
Recorded-Gives t w w' (ok (stored, true)) valid h = (rw h.returned refl, h.allowed)
Recorded-Gives t w w' (ok (stored, false)) valid h =
    let replay = h.1 in
    rw replay.returned (
      find?-All HasAllowedRowKind (λ r. r.ref == t.ref) w.db.transactions replay.row
        (allowed_rows w.db valid) replay.found)

pub record_transaction-Gives :
    (to_error : SqlError → Error) (t : Transaction) (w : World)
    → IsValid w.db
    → Gives (KeepsKind t.kind) (record_transaction to_error t w).0
record_transaction-Gives to_error t w valid =
    Recorded-Gives t w _ _ valid (record_transaction-Recorded to_error t w)

entries-HasAllowedKind :
    (driver : Driver) (id : String) (rows : List TransactionRow)
    → All HasAllowedRowKind rows
    → All HasAllowedKind (entries driver id rows)
entries-HasAllowedKind driver id [] h = tt
entries-HasAllowedKind driver id (r ∷ rows) h = (h.0, entries-HasAllowedKind driver id rows h.1)

listed_rows :
    (id : String) (db : Db) (rows : List TransactionRow)
    → IsValid db
    → list_transactions_by_account id db ≡ ok rows
    → All HasAllowedRowKind rows
unfolding list_transactions_by_account
listed_rows id db rows valid found =
    let same : sort transaction_after (keep (λ r. r.account_id == id) db.transactions) ≡ rows =
      ground (arith, found) in
    subst (All HasAllowedRowKind) same (
      sort-All transaction_after HasAllowedRowKind _ (
        keep-All HasAllowedRowKind (λ r. r.account_id == id) db.transactions
          (allowed_rows db valid)))

pub list_transactions-Gives :
    (driver : Driver) (id : String) (w : World)
    → IsValid w.db
    → Gives (All HasAllowedKind) (list_transactions driver id w).0
unfolding list_transactions
list_transactions-Gives driver id w valid =
    read_then (to_error driver) "account exists" _ (λ x. Gives (All HasAllowedKind) x.0)
      (Queries.account_exists id) w (λ e w1 same. tt)
      (λ exists w1 found same. elim (Bool-cases exists) [
        | inr absent ↦ rw absent tt
        | inl present ↦ rw present (
            read_then (to_error driver) "list transactions" _ (λ x. Gives (All HasAllowedKind) x.0)
              (list_transactions_by_account id) w1 (λ e w2 same. tt)
              (λ rows w2 found _.
                entries-HasAllowedKind driver id rows
                  (listed_rows id w1.db rows (rw same.db valid) found)))
      ])

entries-HasAllowedOutcome :
    (rows : List AuditRow) → All HasKnownOutcome rows → All HasAllowedOutcome (audit_from_rows rows)
unfolding audit_from_row
entries-HasAllowedOutcome [] h = tt
entries-HasAllowedOutcome (r ∷ rows) h = (h.0, entries-HasAllowedOutcome rows h.1)

audit_rows :
    (id : String) (db : Db) (rows : List AuditRow)
    → IsValid db
    → (if id == "" then list_audit_log else list_audit_log_by_account id) db ≡ ok rows
    → All HasKnownOutcome rows
unfolding list_audit_log list_audit_log_by_account
audit_rows id db rows valid found = elim (Bool-cases (id == "")) [
  | inl all ↦
      let same : sort audit_after db.audit_log ≡ rows = ground (arith, rw all at found) in
      subst (All HasKnownOutcome) same (sort-All audit_after HasKnownOutcome _ valid.known_outcomes)
  | inr one ↦
      let same : sort audit_after (keep (λ r. r.account_id == id) db.audit_log) ≡ rows =
        ground (arith, rw one at found) in
      subst (All HasKnownOutcome) same (
        sort-All audit_after HasKnownOutcome _
          (keep-All HasKnownOutcome (λ r. r.account_id == id) db.audit_log valid.known_outcomes))
]

pub list_audit-Gives :
    (to_error : SqlError → Error) (id : String) (w : World)
    → IsValid w.db
    → Gives (All HasAllowedOutcome) (list_audit to_error id w).0
unfolding list_audit
list_audit-Gives to_error id w valid =
    read_then to_error "list audit" _ (λ x. Gives (All HasAllowedOutcome) x.0)
      (if id == "" then list_audit_log else list_audit_log_by_account id) w (λ e w1 same. tt)
      (λ rows w1 found _. entries-HasAllowedOutcome rows (audit_rows id w.db rows valid found))
