-- ===== src/Store/Book.antt =====
-- What internal/wallet's TransactionRepository promises, without rows, ids, clocks and transactions
-- of the database: a book that knows the accounts, the transaction stored under each ref, and the
-- balance of each account. `book_of` is the book that a database holds.
pub mod Refinement
pub mod Runs
use gowallet.Prelude.{
  ℕ, ◌+◌, ◌-◌, String, Option, none, some, Bool, true, false, not, Result, ok, err, ◌&&◌, ◌==◌, ltb,
  if◌then◌else◌, any,
}
use gowallet.Prelude.Int.{pos_part}
use gowallet.Wallet.{Kind, earn, Transaction, Sentinel, not_found, insufficient_balance}
use gowallet.Store.Db.{Db, TransactionRow, format, parse}
use gowallet.Store.Queries.{transaction_row}
use gowallet.Store.Ledger.{is_deduction, stored_of}
use gowallet.Store.Ledger.Calm.{is_known}
use gowallet.Store.Totals.{earned, deducted}

pub record Book : Type 0 where
  pub known : String → Bool
  pub stored : String → Option Transaction
  pub balance : String → ℕ

-- The transaction as the book keeps it: the time to the second.
abbrev pub kept : Transaction → Transaction
kept t = record t { occurred_at = parse (format t.occurred_at) }

abbrev pub new_balance : Kind → ℕ → ℕ → ℕ
new_balance kind points balance = if is_deduction kind then balance - points else balance + points

-- The book with one more transaction.
unfoldable pub enter : Transaction → Book → Book
enter t b = record {
  known = b.known;
  stored = λ ref. if t.ref == ref then some (kept t) else b.stored ref;
  balance = λ id.
      if t.account_id == id
      then new_balance t.kind (pos_part t.points) (b.balance id)
      else b.balance id;
}

-- A new ref is entered, if it is an earn or the balance suffices.
abbrev pub submit_new : Transaction → Book → Result Sentinel (Transaction × Bool) × Book
submit_new t b =
    if is_deduction t.kind && ltb (b.balance t.account_id) (pos_part t.points)
    then (err insufficient_balance, b)
    else (ok (kept t, true), enter t b)

abbrev pub submit_found :
    Transaction → Book → Option Transaction → Result Sentinel (Transaction × Bool) × Book
submit_found t b (some first) = (ok (first, false), b)
submit_found t b none = submit_new t b

-- What a submission does to the book.
unfoldable pub submit : Transaction → Book → Result Sentinel (Transaction × Bool) × Book
submit t b =
    if not (b.known t.account_id) then (err not_found, b) else submit_found t b (b.stored t.ref)

abbrev pub as_stored : Option TransactionRow → Option Transaction
as_stored none = none
as_stored (some row) = some (stored_of row)

unfoldable pub book_of : Db → Book
unfolding stored_of
book_of db = record {
  known = λ id. is_known id db;
  stored = λ ref. as_stored (transaction_row ref db.transactions);
  balance = λ id. earned id db.transactions - deducted id db.transactions;
}
