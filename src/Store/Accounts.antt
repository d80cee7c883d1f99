-- ===== src/Store/Accounts.antt =====
-- The other operations of internal/sqlitestore/accounts.go, and `Ping` of sqlite.go.
use gowallet.Prelude.{
  String, List, [], ◌∷◌, Result, ok, err, pure, fail, handle, ◌>>=◌, not, if◌then◌else◌,
}
use gowallet.Prelude.Int.{ℤ}
use gowallet.Wallet.{
  Account, AccountSummary, Role, Transaction, Error, sentinel, external, wrap, not_found,
  account_exists, Call,
}
use gowallet.Wallet.Auth.{parse_role}
use gowallet.Store.Db.{AccountRow, TransactionRow, parse}
use gowallet.Store.Queries
use gowallet.Store.Queries.{
  SqlError, no_rows, failed, get_account_credential, balance_for_account,
  list_accounts_with_balance, list_transactions_by_account,
}
use gowallet.Store.Driver.{Driver, is_unique_violation}
use gowallet.Store.Session.{World, read, write, driver_call, wrapping}
use gowallet.Store.Ledger.{null_string, string_of}

module _ (driver : Driver) where
  -- An error of database/sql as a Go error.
  abbrev pub to_error : SqlError → Error
  to_error no_rows = external "sql: no rows in result set"
  to_error (failed f) = external (driver.text f)

  abbrev pub create_failed : SqlError → Error
  create_failed no_rows = wrap "create account" (to_error no_rows)
  create_failed (failed f) =
      if is_unique_violation (driver.text f)
      then sentinel account_exists
      else wrap "create account" (to_error (failed f))

  -- `Store.CreateAccount`
  unfoldable pub create_account : Account → String → Call World (Unit {0})
  create_account a password_hash w =
      handle (write (Queries.create_account w.now a.id a.name (null_string password_hash)))
        (λ _. pure tt) (λ e. fail (create_failed e)) w

  -- `if errors.Is(err, sql.ErrNoRows) { return …, wallet.ErrNotFound }`
  abbrev pub or_not_found : String → SqlError → Error
  or_not_found context no_rows = sentinel not_found
  or_not_found context (failed f) = wrap context (to_error (failed f))

  -- The text of the error also quotes the role, which is left out here.
  unfoldable pub credential_of : AccountRow → Result Error Role → Call World (String × Role)
  credential_of row (ok role) = pure (string_of row.password_hash, role)
  credential_of row (err e) = fail (wrap "stored role" e)

  -- `Store.GetCredential`
  unfoldable pub get_credential : String → Call World (String × Role)
  unfolding credential_of parse_role
  get_credential id =
      handle (read (get_account_credential id)) (λ row. credential_of row (parse_role row.role))
        (λ e. fail (or_not_found "get credential" e))

  abbrev account_of : AccountRow → Account
  account_of row = record {
    id = row.account_id;
    name = row.name;
    created_at = parse row.created_at;
  }

  -- `Store.GetAccount`
  unfoldable pub get_account : String → Call World Account
  unfolding parse
  get_account id =
      handle (read (Queries.get_account id)) (λ row. pure (account_of row))
        (λ e. fail (or_not_found "get account" e))

  -- `Store.Balance`
  unfoldable pub balance : String → Call World ℤ
  balance id = do
    exists ← wrapping to_error "account exists" (read (Queries.account_exists id))
    if not exists
        then fail (sentinel not_found)
        else do wrapping to_error "balance" (read (balance_for_account id))

  -- The loop of `ListAccounts`, which stops at the first stored role that is none; the
  -- text of that error also quotes the role.
  unfoldable pub summaries : List (AccountRow × ℤ) → Result Error (List AccountSummary)
  unfolding parse_role
  summaries [] = ok []
  summaries ((row, amount) ∷ rows) = elim (parse_role row.role) [
    | err e ↦ err (wrap "stored role" e)
    | ok role ↦ elim (summaries rows) [
      | err e ↦ err e
      | ok out ↦
          ok (record { id = row.account_id; name = row.name; role = role; balance = amount } ∷ out)
    ]
  ]

  -- `Store.ListAccounts`
  unfoldable pub list_accounts : Call World (List AccountSummary)
  unfolding summaries
  list_accounts = do
    rows ← wrapping to_error "list accounts" (read list_accounts_with_balance)
    λ w. (summaries rows, w)

  -- The entry of a listed row; the query does not select the reward.
  abbrev pub entry_of : String → TransactionRow → Transaction
  entry_of account_id row = record {
    ref = row.ref;
    account_id = account_id;
    kind = row.kind;
    points = row.points;
    reward = "";
    occurred_at = parse row.occurred_at;
  }

  abbrev pub entries : String → List TransactionRow → List Transaction
  entries account_id [] = []
  entries account_id (row ∷ rows) = entry_of account_id row ∷ entries account_id rows

  -- `Store.ListTransactions`
  unfoldable pub list_transactions : String → Call World (List Transaction)
  unfolding parse
  list_transactions account_id = do
    exists ← wrapping to_error "account exists" (read (Queries.account_exists account_id))
    if not exists then fail (sentinel not_found) else do
      rows ← wrapping to_error "list transactions" (read (list_transactions_by_account account_id))
      pure (entries account_id rows)

  -- `Store.Ping`
  unfoldable pub ping : Call World (Unit {0})
  ping = handle driver_call (λ _. pure tt) (λ e. fail (to_error e))
