-- ===== src/Store/Migrations/Upgrade.antt =====
-- Starting a new version of the program on an older database file.
use gowallet.Prelude.{
  ap, List, [], All, ◌≡◌, refl, ◌∙◌, inl, inr, ◌∷◌, none, some, Bool, true, false, ◌||◌, Result, ok,
  err, map, arith, All-map, Bool-cases,
}
use gowallet.Wallet.{Error, wrap}
use gowallet.Store.Db.{Db, Stamp, AccountRow, TransactionRow, demo_member, demo_admin, migrated}
use gowallet.Store.Queries.{SqlError, failed, unique_failed}
use gowallet.Store.Additions.{IsLegal-more}
use gowallet.Store.Invariant.{IsValid}
use gowallet.Store.Migrations.{
  FirstAccount, FirstTransaction, AuditedTables, CredentialTables, Disk, blank, initial, s1, s4, s6,
  s8, s1_up, s4_up, s6_up, with_credentials, with_reward, is_taken, rebuilt, pending, Goose,
  migrate,
}
use gowallet.Store.Migrations.Copy.{as_rebuilt, rebuilt-IsValid, s8_up-rebuilt}

-- The older tables, with the later columns at their defaults.
abbrev pub as_latest : AuditedTables → Db
as_latest t = record {
  accounts = map with_credentials t.ledger.accounts;
  transactions = map with_reward t.ledger.transactions;
  transaction_seq = t.ledger.transaction_seq;
  audit_log = t.audit_log;
  audit_seq = t.audit_seq;
}

abbrev pub has_demo_id : AuditedTables → Bool
has_demo_id t = is_taken "member-123" t.ledger.accounts || is_taken "admin-001" t.ledger.accounts

abbrev pub with_demo : Stamp → AuditedTables → CredentialTables
with_demo now t = record {
  accounts = demo_admin now ∷ demo_member now ∷ map with_credentials t.ledger.accounts;
  audited = t;
}

-- The columns that the S1 tables have.
abbrev pub first_account : AccountRow → FirstAccount
first_account a = record { account_id = a.account_id; name = a.name; created_at = a.created_at }

abbrev pub first_transaction : TransactionRow → FirstTransaction
first_transaction r = record {
  id = r.id;
  ref = r.ref;
  account_id = r.account_id;
  kind = r.kind;
  points = r.points;
  occurred_at = r.occurred_at;
  created_at = r.created_at;
}

-- A member who cannot log in.
abbrev pub IsLockedMember : AccountRow → Type 0
IsLockedMember a = (a.password_hash ≡ none) × (a.role ≡ "member")

abbrev pub HasNoReward : TransactionRow → Type 0
HasNoReward r = r.reward ≡ none

-- A database that holds what the tables `t` held.
pub record Carried (now : Stamp) (t : AuditedTables) (db : Db) : Type 0 where
  pub valid : IsValid db
  pub transactions : map first_transaction db.transactions ≡ t.ledger.transactions
  pub rewards : All HasNoReward db.transactions
  pub older : List AccountRow
  pub accounts : db.accounts ≡ demo_admin now ∷ demo_member now ∷ older
  pub older_accounts : map first_account older ≡ t.ledger.accounts
  pub older_logins : All IsLockedMember older
  pub audit_log : db.audit_log ≡ t.audit_log

-- What an upgrade of the tables `t` leaves, by whether they have an account with a demo id.
abbrev pub Upgraded :
    (SqlError → Error) → Stamp → AuditedTables → Bool → Result Error (Unit {0}) × Disk → Type 0
Upgraded to_error now t true out =
    out ≡ (err (wrap "goose up" (to_error (failed unique_failed))), s4 t)
Upgraded to_error now t false out = (db : Db) × (out ≡ (ok tt, s8 db)) × Carried now t db

first_transaction-with_reward :
    (rows : List FirstTransaction) → map first_transaction (map with_reward rows) ≡ rows
first_transaction-with_reward [] = refl
first_transaction-with_reward (r ∷ older) =
    ap (λ rows. r ∷ rows) (first_transaction-with_reward older)

with_reward-HasNoReward : (rows : List FirstTransaction) → All HasNoReward (map with_reward rows)
with_reward-HasNoReward [] = tt
with_reward-HasNoReward (r ∷ older) = (refl, with_reward-HasNoReward older)

first_account-with_credentials :
    (accounts : List FirstAccount) → map first_account (map with_credentials accounts) ≡ accounts
first_account-with_credentials [] = refl
first_account-with_credentials (a ∷ rest) =
    ap (λ accounts. a ∷ accounts) (first_account-with_credentials rest)

with_credentials-IsLockedMember :
    (accounts : List FirstAccount) → All IsLockedMember (map with_credentials accounts)
with_credentials-IsLockedMember [] = tt
with_credentials-IsLockedMember (a ∷ rest) = ((refl, refl), with_credentials-IsLockedMember rest)

module _ (now : Stamp) (t : AuditedTables) where
  pub with_demo-IsValid : IsValid (as_latest t) → IsValid (as_rebuilt (with_demo now t))
  with_demo-IsValid valid = record {
    legal =
        All-map (λ r h. IsLegal-more (demo_admin now) _ r (IsLegal-more (demo_member now) _ r h))
          (map with_reward t.ledger.transactions) valid.legal;
    known_roles = (refl, (refl, valid.known_roles));
    distinct_refs = valid.distinct_refs;
    falling_ids = valid.falling_ids;
    known_outcomes = valid.known_outcomes;
    falling_audit = valid.falling_audit;
    solvent = valid.solvent;
  }

  module _ (goose : Goose now) where
    pub up-free :
        has_demo_id t ≡ false
        → IsValid (as_latest t)
        → goose.up (s4 t)
          ≡ (none, s8 (rebuilt (with_demo now t) (map with_reward t.ledger.transactions)))
    unfolding pending s6_up
    up-free free valid =
        goose.up-next (s4 t) (s6 (with_demo now t)) (rw free refl)
        ∙ goose.up-next (s6 (with_demo now t)) (s8 _)
            (rw (s8_up-rebuilt (with_demo now t) (with_demo-IsValid valid)) refl)
        ∙ goose.up-done (s8 _) refl

    pub up-taken : has_demo_id t ≡ true → goose.up (s4 t) ≡ (some (failed unique_failed), s4 t)
    unfolding pending s6_up
    up-taken taken = goose.up-fails (s4 t) (failed unique_failed) (rw taken refl)

rebuilt-Carried :
    (now : Stamp) (t : AuditedTables)
    → IsValid (as_latest t)
    → Carried now t (rebuilt (with_demo now t) (map with_reward t.ledger.transactions))
rebuilt-Carried now t valid = record {
  valid = rebuilt-IsValid (with_demo now t) (with_demo-IsValid now t valid);
  transactions = first_transaction-with_reward t.ledger.transactions;
  rewards = with_reward-HasNoReward t.ledger.transactions;
  older = map with_credentials t.ledger.accounts;
  accounts = refl;
  older_accounts = first_account-with_credentials t.ledger.accounts;
  older_logins = with_credentials-IsLockedMember t.ledger.accounts;
  audit_log = refl;
}

-- Migrating a valid database of the S4 schema, while no driver call fails: if one of its accounts has
-- the id of a demo account, `Migrate` returns an error and the file stays at S4, and otherwise the
-- result is a valid database of the last schema that has the same transactions without rewards, the
-- same audit log, and the same accounts without passwords as members, besides the two demo accounts.
pub migrate_upgrades :
    (to_error : SqlError → Error) (now : Stamp) (goose : Goose now) (t : AuditedTables)
    → IsValid (as_latest t)
    → Upgraded to_error now t (has_demo_id t) (migrate to_error goose (s4 t))
unfolding migrate
migrate_upgrades to_error now goose t valid = elim (Bool-cases (has_demo_id t)) [
  | inl taken ↦ rw (taken, up-taken now t goose taken) refl
  | inr free ↦ rw (free, up-free now t goose free valid) (_, refl, rebuilt-Carried now t valid)
]

-- A new file reaches S4 with empty tables.
pub up-blank : (now : Stamp) (goose : Goose now) → goose.up blank ≡ goose.up (s4 (s4_up s1_up))
unfolding pending
up-blank now goose =
    goose.up-next blank initial refl
    ∙ goose.up-next initial (s1 s1_up) refl
    ∙ goose.up-next (s1 s1_up) (s4 (s4_up s1_up)) refl

pub empty-IsValid : IsValid (as_latest (s4_up s1_up))
empty-IsValid = record {
  legal = tt;
  known_roles = tt;
  distinct_refs = tt;
  falling_ids = tt;
  known_outcomes = tt;
  falling_audit = tt;
  solvent = λ id. omega arith;
}

-- Migrating a new file, while no driver call fails, gives the tables with the two demo accounts alone,
-- and migrating again, at any later time, changes nothing.
pub migrate_fresh :
    (to_error : SqlError → Error) (now later : Stamp) (goose : Goose now) (again : Goose later)
    → (migrate to_error goose blank ≡ (ok tt, s8 (migrated now)))
      × ((db : Db) → migrate to_error again (s8 db) ≡ (ok tt, s8 db))
unfolding migrate pending
migrate_fresh to_error now later goose again = (
  rw (up-blank now goose ∙ up-free now (s4_up s1_up) goose refl empty-IsValid) refl,
  λ db. rw (again.up-done (s8 db) refl) refl,
)
