-- ===== src/Store/Migrations.antt =====
-- internal/sqlitestore/migrations, and `Migrate` of internal/sqlitestore/sqlite.go. The runner,
-- github.com/pressly/goose, is the parameter `Goose`.
pub mod Copy
pub mod Upgrade
pub mod Ready
use gowallet.Prelude.{
  ℕ, suc, ◌≡◌, String, Option, none, some, List, [], ◌∷◌, Bool, true, false, not, ◌||◌, Result, ok,
  err, map, ◌==◌, eqb, any, if◌then◌else◌,
}
use Prim.Native.Nat.{max}
use gowallet.Prelude.Int.{ℤ, pos, leb_ℤ}
use gowallet.Wallet.{Kind, Error, wrap}
use gowallet.Store.Db.{Db, Stamp, AccountRow, TransactionRow, AuditRow, demo_member, demo_admin}
use gowallet.Store.Queries.{
  SqlError, failed, unique_failed, check_failed, foreign_key_failed, kind_allowed, transaction_row,
}

-- The tables of 20260618120000_s1_accounts_and_transactions.sql.
pub record FirstAccount : Type 0 where
  pub account_id : String
  pub name : String
  pub created_at : Stamp

pub record FirstTransaction : Type 0 where
  pub id : ℕ
  pub ref : String
  pub account_id : String
  pub kind : Kind
  pub points : ℤ
  pub occurred_at : Stamp
  pub created_at : Stamp

pub record FirstTables : Type 0 where
  pub accounts : List FirstAccount
  pub transactions : List FirstTransaction
  pub transaction_seq : ℕ

-- With the audit log of 20260618130000_s4_audit_log.sql.
pub record AuditedTables : Type 0 where
  pub ledger : FirstTables
  pub audit_log : List AuditRow
  pub audit_seq : ℕ

-- With the credentials of 20260619090000_s6_account_credentials.sql.
pub record CredentialTables : Type 0 where
  pub accounts : List AccountRow
  pub audited : AuditedTables

-- A database file, by the last migration that goose_db_version lists.
pub data Disk : Type 0 where
  blank : Disk
  initial : Disk
  s1 : FirstTables → Disk
  s4 : AuditedTables → Disk
  s6 : CredentialTables → Disk
  s8 : Db → Disk

abbrev pub s1_up : FirstTables
s1_up = record { accounts = []; transactions = []; transaction_seq = 0 }

abbrev pub s4_up : FirstTables → AuditedTables
s4_up t = record { ledger = t; audit_log = []; audit_seq = 0 }

-- The two ALTER TABLE statements: no hash, and the role 'member'.
abbrev pub with_credentials : FirstAccount → AccountRow
with_credentials a = record {
  account_id = a.account_id;
  name = a.name;
  password_hash = none;
  role = "member";
  created_at = a.created_at;
}

abbrev pub is_taken : String → List FirstAccount → Bool
is_taken id accounts = any (λ a. a.account_id == id) accounts

-- The INSERT of the two demo accounts, whose ids are PRIMARY KEYs.
unfoldable pub s6_up : Stamp → AuditedTables → Result SqlError CredentialTables
s6_up now t =
    if is_taken "member-123" t.ledger.accounts || is_taken "admin-001" t.ledger.accounts
    then err (failed unique_failed)
    else ok (record {
      accounts = demo_admin now ∷ demo_member now ∷ map with_credentials t.ledger.accounts;
      audited = t;
    })

-- SELECT id, ref, account_id, kind, points, NULL, occurred_at, created_at
abbrev pub with_reward : FirstTransaction → TransactionRow
with_reward r = record {
  id = r.id;
  ref = r.ref;
  account_id = r.account_id;
  kind = r.kind;
  points = r.points;
  reward = none;
  occurred_at = r.occurred_at;
  created_at = r.created_at;
}

-- A row is added to transactions_new, if its CHECKs, its two unique columns and its foreign key allow.
unfoldable pub add_copy :
    List AccountRow → TransactionRow → List TransactionRow → Result SqlError (List TransactionRow)
add_copy accounts row rows =
    if not (kind_allowed row.kind) || leb_ℤ row.points (pos 0)
    then err (failed check_failed)
    else if any (λ r. eqb r.id row.id || r.ref == row.ref) rows
    then err (failed unique_failed)
    else if any (λ a. a.account_id == row.account_id) accounts
    then ok (row ∷ rows)
    else err (failed foreign_key_failed)

-- INSERT INTO transactions_new … SELECT … FROM transactions, the oldest row first.
unfoldable pub copy_rows :
    List AccountRow → List FirstTransaction → Result SqlError (List TransactionRow)
unfolding add_copy
copy_rows accounts [] = ok []
copy_rows accounts (r ∷ older) = elim (copy_rows accounts older) [
  | err e ↦ err e
  | ok rows ↦ add_copy accounts (with_reward r) rows
]

-- AUTOINCREMENT takes its sequence from the largest id that was inserted.
abbrev pub largest_id : List TransactionRow → ℕ
largest_id [] = 0
largest_id (r ∷ older) = max r.id (largest_id older)

abbrev pub rebuilt : CredentialTables → List TransactionRow → Db
rebuilt t rows = record {
  accounts = t.accounts;
  transactions = rows;
  transaction_seq = largest_id rows;
  audit_log = t.audited.audit_log;
  audit_seq = t.audited.audit_seq;
}

-- 20260619100000_s8_redeem_kind.sql
unfoldable pub s8_up : CredentialTables → Result SqlError Db
unfolding copy_rows
s8_up t = elim (copy_rows t.accounts t.audited.ledger.transactions) [
  | err e ↦ err e
  | ok rows ↦ ok (rebuilt t rows)
]

abbrev onto : {A : Type 0} → (A → Disk) → Result SqlError A → Option (Result SqlError Disk)
onto f (err e) = some (err e)
onto f (ok a) = some (ok (f a))

-- The first migration that is not applied yet, and what its statements do.
unfoldable pub pending : Stamp → Disk → Option (Result SqlError Disk)
unfolding s6_up s8_up
pending now blank = some (ok initial)
pending now initial = some (ok (s1 s1_up))
pending now (s1 t) = some (ok (s4 (s4_up t)))
pending now (s4 t) = onto s6 (s6_up now t)
pending now (s6 t) = onto s8 (s8_up t)
pending now (s8 db) = none

-- `goose.UpContext` while no driver call fails: the pending migrations are applied in their order,
-- each in a transaction of its own, up to the first that fails, which leaves nothing.
pub record Goose (now : Stamp) : Type 0 where
  pub up : Disk → Option SqlError × Disk
  pub up-done : (d : Disk) → pending now d ≡ none → up d ≡ (none, d)
  pub up-next : (d d' : Disk) → pending now d ≡ some (ok d') → up d ≡ up d'
  pub up-fails : (d : Disk) (e : SqlError) → pending now d ≡ some (err e) → up d ≡ (some e, d)

abbrev pub migrate_result : (SqlError → Error) → Option SqlError → Result Error (Unit {0})
migrate_result to_error none = ok tt
migrate_result to_error (some e) = err (wrap "goose up" (to_error e))

-- `Store.Migrate`
unfoldable pub migrate :
    {now : Stamp} → (SqlError → Error) → Goose now → Disk → Result Error (Unit {0}) × Disk
migrate to_error goose d = let (r, d') = goose.up d in (migrate_result to_error r, d')
