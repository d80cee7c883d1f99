-- ===== src/Store/Ledger.antt =====
-- `RecordTransaction` of internal/sqlitestore/accounts.go.
pub mod Outcome
pub mod Calm
pub mod Exact
pub mod Replay
pub mod Faultless
pub mod Raises
use gowallet.Prelude.{
  ℕ, String, Option, none, some, Bool, true, false, ◌&&◌, not, eqb, pure, fail, ◌>>=◌, ◌>>◌, ◌==◌,
  if◌then◌else◌,
}
use gowallet.Prelude.Int.{pos, ltb_ℤ}
use gowallet.Wallet.{
  Kind, spend, redeem, Transaction, Error, sentinel, not_found, insufficient_balance, Call,
}
use gowallet.Store.Db.{TransactionRow, format, parse}
use gowallet.Store.Queries.{
  SqlError, account_exists, insert_transaction, balance_for_account, get_transaction_by_ref,
}
use gowallet.Store.Session.{World, read, write, driver_call, wrapping, in_tx}

-- `sql.NullString{String: s, Valid: s != ""}`, and its `.String`.
abbrev pub null_string : String → Option String
null_string s = if s == "" then none else some s

abbrev pub string_of : Option String → String
string_of none = ""
string_of (some s) = s

abbrev pub is_deduction : Kind → Bool
is_deduction spend = true
is_deduction redeem = true
is_deduction _ = false

-- The transaction that a stored row is returned as.
unfoldable pub stored_of : TransactionRow → Transaction
unfolding parse
stored_of r = record {
  ref = r.ref;
  account_id = r.account_id;
  kind = r.kind;
  points = r.points;
  reward = string_of r.reward;
  occurred_at = parse r.occurred_at;
}

module _ (to_error : SqlError → Error) where
  insert : Transaction → Call World ℕ
  unfolding format
  insert t w =
      wrapping to_error "insert transaction"
        (write (
          insert_transaction w.now t.ref t.account_id t.kind t.points (null_string t.reward)
            (format t.occurred_at)))
        w

  -- `tx.Rollback()` reports its own error, if it has one.
  refuse : Call World (Unit {0})
  refuse = wrapping to_error "rollback spend" driver_call >> fail (sentinel insufficient_balance)

  -- The no-negative guard on a fresh deduction.
  guard_balance : Bool → Transaction → Call World (Unit {0})
  unfolding refuse
  guard_balance fresh t =
      if fresh && is_deduction t.kind
      then (do
        balance ← wrapping to_error "balance check" (read (balance_for_account t.account_id))
        if ltb_ℤ balance (pos 0) then refuse else pure tt)
      else pure tt

  -- What `RecordTransaction` does between `BeginTx` and its return.
  record_body : Transaction → Call World (Transaction × Bool)
  unfolding insert guard_balance stored_of
  record_body t = do
    exists ← wrapping to_error "account exists" (read (account_exists t.account_id))
    if not exists then fail (sentinel not_found) else do
      affected ← insert t
      wrapping to_error "rows affected" driver_call
      guard_balance (eqb affected 1) t
      row ← wrapping to_error "get transaction by ref" (read (get_transaction_by_ref t.ref))
      wrapping to_error "commit" driver_call
      pure (stored_of row, eqb affected 1)

  -- `Store.RecordTransaction`
  unfoldable pub record_transaction : Transaction → Call World (Transaction × Bool)
  unfolding record_body in_tx
  record_transaction t = in_tx to_error (record_body t)
