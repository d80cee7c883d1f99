-- ===== src/Store/Keeps.antt =====
-- The calls of the store that only read leave the database alone, and the others change it as their
-- one statement does: what each statement keeps, the store keeps.
use gowallet.Prelude.{String, ◌≡◌, refl, inl, inr, Result, ok, err, Action}
use gowallet.Wallet.{Account, AuditEntry, Role, Error}
use gowallet.Wallet.Keeps.{KeepsCall, pure-keeps, fail-keeps, if-keeps_call, handle-keeps}
use gowallet.Wallet.Auth.{parse_role}
use gowallet.Store.Ledger.{null_string}
use gowallet.Store.Db.{Db, Stamp, AccountRow, AuditRow}
use gowallet.Store.Queries
use gowallet.Store.Queries.{SqlError, Read, Write}
use gowallet.Store.Driver.{Driver}
use gowallet.Store.Session.{World, read, write, driver_call, wrapping, with_db}
use gowallet.Store.Session.Steps.{driver_call_cases}
use gowallet.Store.Accounts
use gowallet.Store.Audit

module _ (P : Db → Type 0) where
  abbrev pub OfDb : World → Type 0
  OfDb w = P w.db

  driver_call-keeps : KeepsCall OfDb driver_call
  driver_call-keeps = record {
    at = λ w h. elim (driver_call_cases w) [
      | inl (w', called, same) ↦ rw (called, same.db) h
      | inr (e, w', called, same) ↦ rw (called, same.db) h
    ];
  }

  read-keeps : {A : Type 0} (q : Read A) → KeepsCall OfDb (read q)
  unfolding read
  read-keeps q =
      handle-keeps driver_call _ _ driver_call-keeps (λ _. record { at = λ w h. h })
        (λ e. fail-keeps e)

  with_db-keeps :
      {A : Type 0} (w : World) (r : Result SqlError (A × Db))
      → ((a : A) (db : Db) → r ≡ ok (a, db) → P db)
      → P w.db
      → P (with_db w r).1.db
  with_db-keeps w (ok (a, db)) k h = k a db refl
  with_db-keeps w (err e) k h = h

  write-keeps :
      {A : Type 0} (q : Write A)
      → ((a : A) (db db' : Db) → q db ≡ ok (a, db') → P db → P db')
      → KeepsCall OfDb (write q)
  unfolding write
  write-keeps q k =
      handle-keeps driver_call _ _ driver_call-keeps
        (λ _. record { at = λ w h. with_db-keeps w (q w.db) (λ a db e. k a w.db db e h) h })
        (λ e. fail-keeps e)

  wrapping-keeps :
      {A : Type 0} (to_error : SqlError → Error) (context : String) (m : Action World SqlError A)
      → KeepsCall OfDb m
      → KeepsCall OfDb (wrapping to_error context m)
  unfolding wrapping
  wrapping-keeps to_error context m k = handle-keeps m _ _ k (λ a. pure-keeps a) (λ e. fail-keeps _)

  module _ (driver : Driver) where
    pub balance-keeps : (id : String) → KeepsCall OfDb (Accounts.balance driver id)
    unfolding Accounts.balance
    balance-keeps id =
        handle-keeps _ _ _ (wrapping-keeps _ _ _ (read-keeps (Queries.account_exists id)))
          (λ exists. if-keeps_call _ _ _ (fail-keeps _) (wrapping-keeps _ _ _ (read-keeps _)))
          (λ e. fail-keeps e)

    pub get_account-keeps : (id : String) → KeepsCall OfDb (Accounts.get_account driver id)
    unfolding Accounts.get_account
    get_account-keeps id =
        handle-keeps _ _ _ (read-keeps (Queries.get_account id)) (λ row. pure-keeps _)
          (λ e. fail-keeps _)

    credential_of-keeps :
        (row : AccountRow) (r : Result Error Role)
        → KeepsCall OfDb (Accounts.credential_of driver row r)
    unfolding Accounts.get_credential
    credential_of-keeps row (ok role) = pure-keeps _
    credential_of-keeps row (err e) = fail-keeps _

    pub get_credential-keeps : (id : String) → KeepsCall OfDb (Accounts.get_credential driver id)
    unfolding Accounts.get_credential
    get_credential-keeps id =
        handle-keeps _ _ _ (read-keeps (Queries.get_account_credential id))
          (λ row. credential_of-keeps row (parse_role row.role)) (λ e. fail-keeps _)

    pub list_accounts-keeps : KeepsCall OfDb (Accounts.list_accounts driver)
    unfolding Accounts.list_accounts
    list_accounts-keeps =
        handle-keeps _ _ _ (wrapping-keeps _ _ _ (read-keeps Queries.list_accounts_with_balance))
          (λ rows. record { at = λ w h. h }) (λ e. fail-keeps e)

    pub list_transactions-keeps :
        (id : String) → KeepsCall OfDb (Accounts.list_transactions driver id)
    unfolding Accounts.list_transactions
    list_transactions-keeps id =
        handle-keeps _ _ _ (wrapping-keeps _ _ _ (read-keeps (Queries.account_exists id)))
          (λ exists. if-keeps_call _ _ _ (fail-keeps _) (
            handle-keeps _ _ _ (wrapping-keeps _ _ _ (read-keeps _)) (λ rows. pure-keeps _)
              (λ e. fail-keeps e)))
          (λ e. fail-keeps e)

    pub ping-keeps : KeepsCall OfDb (Accounts.ping driver)
    unfolding Accounts.ping
    ping-keeps = handle-keeps _ _ _ driver_call-keeps (λ _. pure-keeps _) (λ e. fail-keeps _)

    pub list_audit-keeps :
        (to_error : SqlError → Error) (id : String) → KeepsCall OfDb (Audit.list_audit to_error id)
    unfolding Audit.list_audit
    list_audit-keeps to_error id =
        handle-keeps _ _ _ (wrapping-keeps _ _ _ (read-keeps _)) (λ rows. pure-keeps _)
          (λ e. fail-keeps e)

    pub create_account-keeps :
        (a : Account) (hash : String)
        → ((now : Stamp) (db db' : Db)
            → Queries.create_account now a.id a.name (null_string hash) db ≡ ok (tt, db')
            → P db
            → P db')
        → KeepsCall OfDb (Accounts.create_account driver a hash)
    unfolding Accounts.create_account
    create_account-keeps a hash k = record {
      at = λ w.
          (handle-keeps _ _ _ (write-keeps _ (λ _ db db'. k w.now db db')) (λ _. pure-keeps _)
              (λ e. fail-keeps _)).at
            w;
    }

    pub append_audit-keeps :
        (to_error : SqlError → Error) (e : AuditEntry)
        → ((now : Stamp) (row : AuditRow) (db db' : Db)
            → Queries.append_audit_entry now e.ref e.account_id e.kind e.points e.outcome e.reason
                db
              ≡ ok (row, db')
            → P db
            → P db')
        → KeepsCall OfDb (Audit.append_audit to_error e)
    unfolding Audit.append_audit
    append_audit-keeps to_error e k = record {
      at = λ w.
          (handle-keeps _ _ _ (wrapping-keeps _ _ _ (write-keeps _ (k w.now))) (λ row. pure-keeps _)
              (λ x. fail-keeps x)).at
            w;
    }
