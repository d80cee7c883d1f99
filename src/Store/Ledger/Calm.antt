-- ===== src/Store/Ledger/Calm.antt =====
-- What `RecordTransaction` returns when no driver call fails, branch by branch.
use gowallet.Prelude.{
  String, ◌≡◌, refl, inl, inr, none, some, [], ◌∷◌, true, Bool, false, ok, err, arith, ◌==◌, any,
  Bool-cases, eq_refl,
}
use gowallet.Prelude.Int.{ℤ, pos, ◌≤ℤ◌, ltb_ℤ, leb_ℤ}
use gowallet.Wallet.{Transaction, Error, sentinel, not_found, insufficient_balance}
use gowallet.Store.Db.{Db, Stamp, TransactionRow}
use gowallet.Store.Queries.{
  SqlError, kind_allowed, add_row, transaction_row, sum_points, balance_for_account, account_exists,
  insert_transaction, get_transaction_by_ref,
}
use gowallet.Store.Session.{World, read, write, driver_call}
use gowallet.Store.Ledger.{record_transaction, is_deduction, stored_of}
use gowallet.Store.Ledger.Outcome.{row_of}

-- A world in which no call of the driver fails.
abbrev pub calm : Db → Stamp → World
calm db now = record { db = db; now = now; faults = [] }

abbrev pub is_known : String → Db → Bool
is_known id db = any (λ a. a.account_id == id) db.accounts

module _ (to_error : SqlError → Error) (t : Transaction) (db : Db) (now : Stamp) where
  pub record_unknown :
      is_known t.account_id db ≡ false
      → record_transaction to_error t (calm db now) ≡ (err (sentinel not_found), calm db now)
  unfolding record_transaction account_exists read driver_call
  record_unknown unknown = rw unknown refl

  module _ (known : is_known t.account_id db ≡ true) (allowed : kind_allowed t.kind ≡ true)
      (positive : pos 1 ≤ℤ t.points) where
    check_passes : leb_ℤ t.points (pos 0) ≡ false
    check_passes = ground arith

    pub record_replay :
        (row : TransactionRow)
        → transaction_row t.ref db.transactions ≡ some row
        → record_transaction to_error t (calm db now) ≡ (ok (stored_of row, false), calm db now)
    unfolding record_transaction account_exists read write driver_call insert_transaction
        get_transaction_by_ref
    record_replay row found = simp (known, allowed, check_passes, found) refl

    -- An earn or, with a balance that stays at zero or above, a deduction is stored.
    pub record_fresh :
        transaction_row t.ref db.transactions ≡ none
        → (is_deduction t.kind ≡ true
            → (total : ℤ) × (sum_points t.account_id (row_of t now db ∷ db.transactions)
                ≡ some total)
              × (ltb_ℤ total (pos 0) ≡ false))
        → record_transaction to_error t (calm db now)
          ≡ (ok (stored_of (row_of t now db), true), calm (add_row (row_of t now db) db) now)
    unfolding record_transaction account_exists read write driver_call insert_transaction
        get_transaction_by_ref balance_for_account
    record_fresh fresh covered = elim (Bool-cases (is_deduction t.kind)) [
      | inr no_deduction ↦
          simp (known, allowed, check_passes, fresh, no_deduction) (simp (transaction_row, eq_refl))
      | inl deduction ↦
          let (total, summed, enough) = covered deduction in
          simp (known, allowed, check_passes, fresh, deduction, summed, enough)
            (simp (transaction_row, eq_refl))
    ]

    -- A deduction that would drive the balance below zero is undone.
    pub record_overdraft :
        (total : ℤ)
        → transaction_row t.ref db.transactions ≡ none
        → is_deduction t.kind ≡ true
        → sum_points t.account_id (row_of t now db ∷ db.transactions) ≡ some total
        → ltb_ℤ total (pos 0) ≡ true
        → record_transaction to_error t (calm db now)
          ≡ (err (sentinel insufficient_balance), calm db now)
    unfolding record_transaction account_exists read write driver_call insert_transaction
        get_transaction_by_ref balance_for_account
    record_overdraft total fresh deduction summed negative =
        simp (known, allowed, check_passes, fresh, deduction, summed, negative) refl
