-- ===== src/Store/Ledger/Exact.antt =====
-- The no-negative guard against the requirement, and the balance after each outcome.
use gowallet.Prelude.{
  ℕ, ◌+◌, ◌-◌, ◌≤◌, ◌<◌, String, ◌≡◌, none, some, true, ok, err, arith, leb, not, inl, inr,
  Bool-cases, eq_refl, if◌then◌else◌,
}
use gowallet.Prelude.Int.{ℤ, pos, neg_ℤ, negsuc, pos_part, neg_part, ◌≤ℤ◌, ltb_ℤ, int64_limit}
use gowallet.Wallet.{Transaction, Error, Kind, sentinel, insufficient_balance}
use gowallet.Store.Db.{Db, Stamp}
use gowallet.Store.Queries.{
  SqlError, kind_allowed, add_row, transaction_row, signed_points, sum_points, balance_for_account,
}
use gowallet.Store.Ledger.{record_transaction, is_deduction, stored_of}
use gowallet.Store.Ledger.Outcome.{row_of}
use gowallet.Store.Ledger.Calm.{calm, is_known, record_fresh, record_overdraft}
use gowallet.Store.Totals.{earned, deducted, balance_for_account-exact, sum_points-deduction}
use gowallet.Store.Invariant.{IsValid, IsPositive-of_legal}

deduction-signed : (k : Kind) (p : ℤ) → is_deduction k ≡ true → signed_points k p ≡ neg_ℤ p
unfolding signed_points
deduction-signed k p h = ground arith

deduction-allowed : (k : Kind) → is_deduction k ≡ true → kind_allowed k ≡ true
deduction-allowed k h = ground arith

summed_before :
    (id : String) (db : Db) (b : ℤ)
    → balance_for_account id db ≡ ok b
    → sum_points id db.transactions ≡ some b
unfolding balance_for_account
summed_before id db b h = ground arith

-- The two ways to say that the balance suffices.
enough :
    (total : ℤ) (e d p : ℕ)
    → pos_part total + p ≡ neg_part total + (e - d)
    → d ≤ e
    → leb (d + p) e ≡ not (ltb_ℤ total (pos 0))
enough (pos n) e d p h k = ground arith
enough (negsuc n) e d p h k = ground arith

-- A spend or a redeem of int64 points under a new ref, on a known account that has earned less than
-- 2^63 points, in a valid database and with no failing driver call: it is stored, as created, exactly
-- when what was deducted before and its points together do not exceed what was earned. Otherwise it
-- is refused with ErrInsufficientBalance and nothing is stored.
pub record_deduction_exact :
    (to_error : SqlError → Error) (t : Transaction) (db : Db) (now : Stamp)
    → IsValid db
    → is_known t.account_id db ≡ true
    → is_deduction t.kind ≡ true
    → pos 1 ≤ℤ t.points
    → pos_part t.points < int64_limit
    → transaction_row t.ref db.transactions ≡ none
    → earned t.account_id db.transactions < int64_limit
    → record_transaction to_error t (calm db now) ≡ (
        if leb
          (deducted t.account_id db.transactions + pos_part t.points)
          (earned t.account_id db.transactions)
        then (ok (stored_of (row_of t now db), true), calm (add_row (row_of t now db) db) now)
        else (err (sentinel insufficient_balance), calm db now))
record_deduction_exact to_error t db now valid known deduction positive int64 fresh small =
    let allowed = deduction-allowed t.kind deduction in
    let before = summed_before t.account_id db _ (
      balance_for_account-exact t.account_id db
        (IsPositive-of_legal db.accounts db.transactions valid.legal) (valid.solvent t.account_id)
        small) in
    let (total, summed, exact) =
      sum_points-deduction t.account_id (row_of t now db) db.transactions _ (eq_refl t.account_id)
        (deduction-signed t.kind t.points deduction) positive int64 (omega arith) before in
    let enough_iff : leb (deducted t.account_id db.transactions + pos_part t.points)
          (earned t.account_id db.transactions)
        ≡ not (ltb_ℤ total (pos 0)) =
      enough total _ _ _ exact (valid.solvent t.account_id) in
    elim (Bool-cases (ltb_ℤ total (pos 0))) [
      | inl negative ↦
          rw (enough_iff, negative)
            (record_overdraft to_error t db now known allowed positive total fresh deduction summed
              negative)
      | inr covers ↦
          rw (enough_iff, covers)
            (record_fresh to_error t db now known allowed positive fresh
              (λ _. (total, summed, covers)))
    ]
