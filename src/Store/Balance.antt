-- ===== src/Store/Balance.antt =====
-- `Balance` of internal/sqlitestore/accounts.go against the requirement, and where it gives up.
use gowallet.Prelude.{
  ◌+◌, ◌-◌, ◌≤◌, ◌<◌, ℕ, String, ◌≡◌, refl, none, some, true, ok, err, arith, ◌∷◌, eq_refl,
}
use gowallet.Prelude.Int.{pos, ◌+ℤ◌, add_int64, int64_limit}
use gowallet.Wallet.{Transaction, earn, wrap, external}
use gowallet.Store.Db.{Db, Stamp, format}
use gowallet.Store.Queries.{
  add_row, transaction_row, sum_points, signed_points, balance_for_account, account_exists,
  integer_overflow,
}
use gowallet.Store.Session.{read, driver_call, wrapping}
use gowallet.Store.Driver.{Driver}
use gowallet.Store.Accounts.{to_error, balance}
use gowallet.Store.Ledger.{record_transaction, stored_of}
use gowallet.Store.Ledger.Outcome.{row_of}
use gowallet.Store.Ledger.Calm.{calm, is_known, record_fresh}
use gowallet.Store.Totals.{earned, deducted, balance_for_account-exact}
use gowallet.Store.Invariant.{IsValid, IsPositive-of_legal}

-- In a valid database, for a known account that has earned less than 2^63 points, and with no
-- failing driver call, `balance` returns what the account has earned less what it has spent and
-- redeemed, and changes nothing.
pub balance-exact :
    (driver : Driver) (id : String) (db : Db) (now : Stamp)
    → IsValid db
    → is_known id db ≡ true
    → earned id db.transactions < int64_limit
    → balance driver id (calm db now)
      ≡ (ok (pos (earned id db.transactions - deducted id db.transactions)), calm db now)
unfolding balance account_exists read driver_call wrapping
balance-exact driver id db now valid known small =
    simp
      (
        known,
        balance_for_account-exact id db
            (IsPositive-of_legal db.accounts db.transactions valid.legal) (valid.solvent id) small,
      )
      refl

add_int64_overflow : (b p : ℕ) → int64_limit ≤ b + p → add_int64 (pos b) (pos p) ≡ none
unfolding add_int64 ◌+ℤ◌
add_int64_overflow b p h = ground arith

sum_overflow :
    (t : Transaction) (db : Db) (now : Stamp) (b p : ℕ)
    → t.kind ≡ earn
    → t.points ≡ pos p
    → sum_points t.account_id db.transactions ≡ some (pos b)
    → int64_limit ≤ b + p
    → sum_points t.account_id (row_of t now db ∷ db.transactions) ≡ none
unfolding sum_points signed_points
sum_overflow t db now b p kind points before large =
    rw (eq_refl t.account_id, before, kind, points) (add_int64_overflow b p large)

-- An earn of p ≥ 1 points under a new ref is stored and reported as created also when the balance b
-- of its known account and p together reach 2^63. Then `balance` fails for that account.
pub earn-overflow :
    (driver : Driver) (t : Transaction) (db : Db) (now : Stamp) (b p : ℕ)
    → is_known t.account_id db ≡ true
    → t.kind ≡ earn
    → t.points ≡ pos p
    → 1 ≤ p
    → transaction_row t.ref db.transactions ≡ none
    → sum_points t.account_id db.transactions ≡ some (pos b)
    → int64_limit ≤ b + p
    → (record_transaction (to_error driver) t (calm db now)
        ≡ (ok (stored_of (row_of t now db), true), calm (add_row (row_of t now db) db) now))
      × (balance driver t.account_id (calm (add_row (row_of t now db) db) now) ≡ (
        err (wrap "balance" (external (driver.text integer_overflow))),
        calm (add_row (row_of t now db) db) now,
      ))
unfolding balance account_exists read driver_call balance_for_account wrapping format
earn-overflow driver t db now b p known kind points positive fresh before large = (
  record_fresh (to_error driver) t db now known (rw kind refl) (rw points (omega arith)) fresh
      (λ deduction. ground (arith, kind, deduction)),
  simp (known, sum_overflow t db now b p kind points before large) refl,
)
