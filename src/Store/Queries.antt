-- ===== src/Store/Queries.antt =====
-- The SQL statements of internal/sqlitestore/queries/queries.sql, as gen/queries.sql.go runs them,
-- over the tables of `Db`. A statement that fails changes nothing.
use gowallet.Prelude.{
  ℕ, suc, String, Option, none, some, List, [], ◌∷◌, Bool, true, false, Result, ok, err, ◌||◌, not,
  ◌==◌, leb, if◌then◌else◌, find?, keep, any,
}
use gowallet.Prelude.Int.{ℤ, pos, neg_ℤ, leb_ℤ, add_int64}
use gowallet.Prelude.Sort.{sort}
use gowallet.Wallet.{Kind, earn, spend, redeem, other, AuditOutcome, unknown}
use gowallet.Store.Db.{Stamp, Db, AccountRow, TransactionRow, AuditRow}
use Prim.Native.String.{compare}
use text.Mathlib.Text.{is_le}

-- Why SQLite refuses a statement: a constraint of the schema, a sum beyond 64 bits, or trouble
-- below (disk, lock, cancelled context).
pub data Failure : Type 0 where
  unique_failed check_failed foreign_key_failed integer_overflow io : Failure

-- The errors of database/sql: sql.ErrNoRows, or the driver's.
pub data SqlError : Type 0 where
  no_rows : SqlError
  failed : Failure → SqlError

abbrev pub Read : Type 0 → Type 0
Read A = Db → Result SqlError A

abbrev pub Write : Type 0 → Type 0
Write A = Db → Result SqlError (A × Db)

or_no_rows : {A : Type 0} → Option A → Result SqlError A
or_no_rows none = err no_rows
or_no_rows (some a) = ok a

-- `account_exists`: SELECT EXISTS(SELECT 1 FROM accounts WHERE account_id = ?)
unfoldable pub account_exists : String → Read Bool
account_exists id db = ok (any (λ r. r.account_id == id) db.accounts)

unfoldable pub account_row : String → Db → Option AccountRow
account_row id db = find? (λ r. r.account_id == id) db.accounts

abbrev pub new_account : Stamp → String → String → Option String → AccountRow
new_account now id name password_hash = record {
  account_id = id;
  name = name;
  password_hash = password_hash;
  role = "member";
  created_at = now;
}

abbrev pub add_account : AccountRow → Db → Db
add_account row db = record db { accounts = row ∷ db.accounts }

-- INSERT INTO accounts (account_id, name, password_hash): `role` takes its default 'member', and
-- `created_at` the time. `account_id` is the PRIMARY KEY.
unfoldable pub create_account : Stamp → String → String → Option String → Write (Unit {0})
create_account now id name password_hash db =
    if any (λ r. r.account_id == id) db.accounts
    then err (failed unique_failed)
    else ok (tt, add_account (new_account now id name password_hash) db)

-- SELECT account_id, name, created_at FROM accounts WHERE account_id = ?
unfoldable pub get_account : String → Read AccountRow
unfolding or_no_rows account_row
get_account id db = or_no_rows (account_row id db)

-- SELECT password_hash, role FROM accounts WHERE account_id = ?
unfoldable pub get_account_credential : String → Read AccountRow
unfolding or_no_rows account_row
get_account_credential id db = or_no_rows (account_row id db)

-- CHECK (kind IN ('earn','spend','redeem'))
abbrev pub kind_allowed : Kind → Bool
kind_allowed (other _) = false
kind_allowed _ = true

unfoldable pub transaction_row : String → List TransactionRow → Option TransactionRow
transaction_row ref rows = find? (λ r. r.ref == ref) rows

-- The row that an insertion adds, with the next AUTOINCREMENT id.
abbrev pub new_row :
    Stamp → String → String → Kind → ℤ → Option String → Stamp → Db → TransactionRow
new_row now ref account_id kind points reward occurred_at db = record {
  id = suc db.transaction_seq;
  ref = ref;
  account_id = account_id;
  kind = kind;
  points = points;
  reward = reward;
  occurred_at = occurred_at;
  created_at = now;
}

abbrev pub add_row : TransactionRow → Db → Db
add_row row db = record db {
  transactions = row ∷ db.transactions;
  transaction_seq = suc db.transaction_seq;
}

-- INSERT INTO transactions … ON CONFLICT(ref) DO NOTHING, with the rows affected. The CHECKs fail the
-- statement before a conflict is looked for, and the foreign key fails it at its end.
unfoldable pub insert_transaction :
    Stamp → String → String → Kind → ℤ → Option String → Stamp → Write ℕ
unfolding transaction_row
insert_transaction now ref account_id kind points reward occurred_at db =
    if not (kind_allowed kind) || leb_ℤ points (pos 0)
    then err (failed check_failed)
    else elim (transaction_row ref db.transactions) [
      | some _ ↦ ok (0, db)
      | none ↦
          if any (λ r. r.account_id == account_id) db.accounts
          then ok (1, add_row (new_row now ref account_id kind points reward occurred_at db) db)
          else err (failed foreign_key_failed)
    ]

-- SELECT … FROM transactions WHERE ref = ?
unfoldable pub get_transaction_by_ref : String → Read TransactionRow
unfolding or_no_rows transaction_row
get_transaction_by_ref ref db = or_no_rows (transaction_row ref db.transactions)

-- CASE WHEN kind = 'earn' THEN points WHEN kind IN ('spend','redeem') THEN -points ELSE 0 END
unfoldable pub signed_points : Kind → ℤ → ℤ
signed_points earn points = points
signed_points spend points = neg_ℤ points
signed_points redeem points = neg_ℤ points
signed_points (other _) points = pos 0

abbrev add_to : ℤ → Option ℤ → Option ℤ
add_to points none = none
add_to points (some total) = add_int64 total points

-- SUM over an account's rows in the order of their ids. SQLite's SUM fails when the running total
-- leaves 64 bits.
unfoldable pub sum_points : String → List TransactionRow → Option ℤ
unfolding signed_points add_int64
sum_points id [] = some (pos 0)
sum_points id (r ∷ older) =
    let total = sum_points id older in
    if r.account_id == id then add_to (signed_points r.kind r.points) total else total

or_overflow : Option ℤ → Result SqlError ℤ
or_overflow none = err (failed integer_overflow)
or_overflow (some total) = ok total

-- `BalanceForAccount`
unfoldable pub balance_for_account : String → Read ℤ
unfolding sum_points or_overflow
balance_for_account id db = or_overflow (sum_points id db.transactions)

-- ORDER BY id DESC
abbrev pub transaction_after : TransactionRow → TransactionRow → Bool
transaction_after x y = leb y.id x.id

-- `ListTransactionsByAccount`
unfoldable pub list_transactions_by_account : String → Read (List TransactionRow)
unfolding sort
list_transactions_by_account id db =
    ok (sort transaction_after (keep (λ r. r.account_id == id) db.transactions))

-- ORDER BY a.account_id, in SQLite's BINARY collation.
abbrev pub account_before : AccountRow → AccountRow → Bool
account_before x y = is_le (compare x.account_id y.account_id)

unfoldable pub with_balances :
    List TransactionRow → List AccountRow → Result SqlError (List (AccountRow × ℤ))
unfolding sum_points
with_balances txns [] = ok []
with_balances txns (a ∷ rest) = elim (sum_points a.account_id txns) [
  | none ↦ err (failed integer_overflow)
  | some balance ↦ elim (with_balances txns rest) [
    | err e ↦ err e
    | ok rows ↦ ok ((a, balance) ∷ rows)
  ]
]

-- `ListAccountsWithBalance`
unfoldable pub list_accounts_with_balance : Read (List (AccountRow × ℤ))
unfolding sort with_balances
list_accounts_with_balance db = with_balances db.transactions (sort account_before db.accounts)

-- CHECK (outcome IN ('accepted','rejected','duplicate'))
abbrev pub outcome_allowed : AuditOutcome → Bool
outcome_allowed (unknown _) = false
outcome_allowed _ = true

abbrev pub new_audit_row :
    Stamp → String → String → String → ℤ → AuditOutcome → String → Db → AuditRow
new_audit_row now ref account_id kind points outcome reason db = record {
  id = suc db.audit_seq;
  ref = ref;
  account_id = account_id;
  kind = kind;
  points = points;
  outcome = outcome;
  reason = reason;
  created_at = now;
}

abbrev pub add_audit_row : AuditRow → Db → Db
add_audit_row row db = record db { audit_log = row ∷ db.audit_log; audit_seq = suc db.audit_seq }

-- INSERT INTO audit_log … RETURNING …
unfoldable pub append_audit_entry :
    Stamp → String → String → String → ℤ → AuditOutcome → String → Write AuditRow
append_audit_entry now ref account_id kind points outcome reason db =
    let row : AuditRow = new_audit_row now ref account_id kind points outcome reason db in
    if outcome_allowed outcome then ok (row, add_audit_row row db) else err (failed check_failed)

-- ORDER BY id DESC
abbrev pub audit_after : AuditRow → AuditRow → Bool
audit_after x y = leb y.id x.id

-- `ListAuditLog`
unfoldable pub list_audit_log : Read (List AuditRow)
unfolding sort
list_audit_log db = ok (sort audit_after db.audit_log)

-- `ListAuditLogByAccount`
unfoldable pub list_audit_log_by_account : String → Read (List AuditRow)
unfolding sort
list_audit_log_by_account id db =
    ok (sort audit_after (keep (λ r. r.account_id == id) db.audit_log))
