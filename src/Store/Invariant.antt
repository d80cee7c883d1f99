-- ===== src/Store/Invariant.antt =====
-- The well-formedness of the database, and that `RecordTransaction` keeps it.
use gowallet.Prelude.{
  ◌||◌, ℕ, suc, ◌≤◌, String, ◌≡◌, inl, inr, none, List, [], ◌∷◌, true, Bool, false, Result, ok, err,
  arith, ◌==◌, any, All, All-map, Bool-cases, Option-cases, eq_iff,
}
use mathlib.Core.Path.{subst}
use gowallet.Prelude.Sort.{HasFalling}
use gowallet.Prelude.Int.{pos, pos_part, ◌≤ℤ◌}
use gowallet.Wallet.{Transaction, Error, Kind}
use gowallet.Store.Db.{Db, Stamp, AccountRow, TransactionRow, AuditRow}
use gowallet.Store.Queries.{
  SqlError, kind_allowed, outcome_allowed, add_row, transaction_row, sum_points,
  balance_for_account,
}
use gowallet.Store.Session.{World}
use gowallet.Store.Ledger.{record_transaction, is_deduction}
use gowallet.Store.Ledger.Outcome.{Recorded, Created, Covered, row_of, record_transaction-Recorded}
use gowallet.Store.Totals.{earned, deducted, IsPositive, deducted_by, sum_points_sound}

-- What the CHECKs and the foreign key of the transactions table say of a row.
pub record IsLegal (accounts : List AccountRow) (r : TransactionRow) : Type 0 where
  pub allowed : kind_allowed r.kind ≡ true
  pub positive : pos 1 ≤ℤ r.points
  pub known : any (λ a. a.account_id == r.account_id) accounts ≡ true

-- UNIQUE(ref): no row has the ref of an older one.
abbrev pub HasDistinctRefs : List TransactionRow → Type 0
HasDistinctRefs [] = Unit
HasDistinctRefs (r ∷ older) = (transaction_row r.ref older ≡ none) × HasDistinctRefs older

-- AUTOINCREMENT: the ids fall from the newest row to the oldest, all below `bound`.
abbrev pub HasFallingIds : ℕ → List TransactionRow → Type 0
HasFallingIds bound rows = HasFalling (λ r. r.id) bound rows

-- No account has spent and redeemed more than it has earned.
abbrev pub IsSolvent : List TransactionRow → Type 0
IsSolvent rows = (id : String) → deducted id rows ≤ earned id rows

-- CHECK (role IN ('member','admin'))
abbrev pub HasKnownRole : AccountRow → Type 0
HasKnownRole a = (a.role == "member" || a.role == "admin") ≡ true

-- CHECK (outcome IN ('accepted','rejected','duplicate'))
abbrev pub HasKnownOutcome : AuditRow → Type 0
HasKnownOutcome r = outcome_allowed r.outcome ≡ true

pub record IsValid (db : Db) : Type 0 where
  pub known_roles : All HasKnownRole db.accounts
  pub legal : All (IsLegal db.accounts) db.transactions
  pub distinct_refs : HasDistinctRefs db.transactions
  pub falling_ids : HasFallingIds (suc db.transaction_seq) db.transactions
  pub known_outcomes : All HasKnownOutcome db.audit_log
  pub falling_audit : HasFalling (λ r. r.id) (suc db.audit_seq) db.audit_log
  pub solvent : IsSolvent db.transactions

pub IsPositive-of_legal :
    (accounts : List AccountRow) (rows : List TransactionRow)
    → All (IsLegal accounts) rows
    → All IsPositive rows
IsPositive-of_legal accounts rows h = All-map (λ r legal. legal.positive) rows h

not_deduction : (k : Kind) (n : ℕ) → is_deduction k ≡ false → deducted_by k n ≡ 0
not_deduction k n h = ground arith

Covered-le :
    (id : String) (db : Db)
    → All IsPositive db.transactions
    → Covered id db
    → deducted id db.transactions ≤ earned id db.transactions
unfolding balance_for_account
Covered-le id db h covered = elim (Option-cases (sum_points id db.transactions)) [
  | inl overflow ↦ cc (covered.summed, overflow)
  | inr (total, found) ↦
      let same : total ≡ covered.amount = ground (arith, found, covered.summed) in
      omega
        (arith, sum_points_sound id db.transactions total h found, rw (← same) at covered.nonneg)
]

Created-IsLegal :
    (t : Transaction) (now : Stamp) (db : Db) (stored : Transaction)
    → Created t now db (add_row (row_of t now db) db) stored
    → IsValid db
    → All (IsLegal db.accounts) (row_of t now db ∷ db.transactions)
Created-IsLegal t now db stored c h =
    (record { allowed = c.allowed; positive = c.positive; known = c.known }, h.legal)

-- A created transaction leaves every account solvent: the balance of its own account was checked if
-- it is a deduction, and no other account's rows change.
Created-IsSolvent :
    (t : Transaction) (now : Stamp) (db : Db) (stored : Transaction)
    → Created t now db (add_row (row_of t now db) db) stored
    → IsValid db
    → IsSolvent (row_of t now db ∷ db.transactions)
Created-IsSolvent t now db stored c h id = elim (Bool-cases (t.account_id == id)) [
  | inr other_account ↦ rw other_account (omega (arith, h.solvent id))
  | inl mine ↦ elim (Bool-cases (is_deduction t.kind)) [
    | inr no_deduction ↦
        rw (mine, not_deduction t.kind (pos_part t.points) no_deduction)
          (omega (arith, h.solvent id))
    | inl deduction ↦
        let legal = Created-IsLegal t now db stored c h in
        let e : t.account_id ≡ id = (eq_iff t.account_id id).0 mine in
        subst
          (λ x.
            deducted x (row_of t now db ∷ db.transactions)
            ≤ earned x (row_of t now db ∷ db.transactions))
          e
          (Covered-le t.account_id (add_row (row_of t now db) db)
            (IsPositive-of_legal db.accounts (row_of t now db ∷ db.transactions) legal)
            (c.covered deduction))
  ]
]

Created-IsValid :
    (t : Transaction) (now : Stamp) (db db' : Db) (stored : Transaction)
    → Created t now db db' stored
    → IsValid db
    → IsValid db'
Created-IsValid t now db db' stored c h =
    let c' = rw c.added at c in
    rw c.added (record {
      known_roles = h.known_roles;
      legal = Created-IsLegal t now db stored c' h;
      distinct_refs = (c.fresh, h.distinct_refs);
      falling_ids = (omega arith, h.falling_ids);
      known_outcomes = h.known_outcomes;
      falling_audit = h.falling_audit;
      solvent = Created-IsSolvent t now db stored c' h;
    })

Recorded-IsValid :
    (t : Transaction) (w : World) (r : Result Error (Transaction × Bool)) (w' : World)
    → Recorded t w (r, w')
    → IsValid w.db
    → IsValid w'.db
Recorded-IsValid t w (err _) w' e h = rw e h
Recorded-IsValid t w (ok (stored, false)) w' (e, _) h = rw e h
Recorded-IsValid t w (ok (stored, true)) w' c h = Created-IsValid t w.now w.db w'.db stored c h

-- Recording keeps the database valid, whatever driver calls fail: refs stay unique, ids stay in
-- order, every row keeps the schema's constraints, and no account has deducted more than it earned.
pub record_transaction-IsValid :
    (to_error : SqlError → Error) (t : Transaction) (w : World)
    → IsValid w.db
    → IsValid (record_transaction to_error t w).1.db
record_transaction-IsValid to_error t w h =
    Recorded-IsValid t w _ _ (record_transaction-Recorded to_error t w) h
