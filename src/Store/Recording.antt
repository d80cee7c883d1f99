-- ===== src/Store/Recording.antt =====
-- The three recording services of internal/wallet over the store, and the writer of the audit log.
use gowallet.Prelude.{
  ◌≡◌, ◌≢◌, refl, ap, inl, inr, Bool, true, false, Result, ok, err, arith, ◌==◌, eq_iff, Bool-cases,
  pure,
}
use gowallet.Wallet.{Transaction, Kind, earn, spend, redeem, Error, AuditEntry, valid}
use gowallet.Wallet.Service.{record_earn, record_spend, record_redeem, is_incomplete}
use gowallet.Wallet.Audit.{record_attempt}
use gowallet.Store.Db.{Db, AuditRow}
use gowallet.Store.Queries.{SqlError, add_audit_row, new_audit_row, append_audit_entry}
use gowallet.Store.Session.{World}
use gowallet.Store.Session.Steps.{write_then}
use gowallet.Store.Driver.{Driver}
use gowallet.Store.Accounts.{to_error}
use gowallet.Store.Ledger.{record_transaction}
use gowallet.Store.Ledger.Outcome.{Created, Recorded, record_transaction-Recorded}
use gowallet.Store.Audit.{append_audit, audit_from_row}
use gowallet.Store.Repositories

-- What a service that stamps `kind` has done with `t`, by how it ended: an error and a replay leave
-- the database as it was, and a creation has stored `t` under that kind.
abbrev pub Stamped : Kind → Transaction → World → Result Error (Transaction × Bool) × World → Type 0
Stamped kind t w (err _, w') = w'.db ≡ w.db
Stamped kind t w (ok (stored, false), w') = w'.db ≡ w.db
Stamped kind t w (ok (stored, true), w') =
    Created (record t { kind = kind }) w.now w.db w'.db stored × (t.ref ≢ "") × (t.account_id ≢ "")

complete_of : (t : Transaction) → is_incomplete t ≡ false → (t.ref ≢ "") × (t.account_id ≢ "")
complete_of t h =
    (λ e. ground (arith, eq_iff t.ref ""), λ e. ground (arith, eq_iff t.account_id ""))

Recorded-Stamped :
    (kind : Kind) (t : Transaction) (w w' : World) (r : Result Error (Transaction × Bool))
    → is_incomplete t ≡ false
    → Recorded (record t { kind = kind }) w (r, w')
    → Stamped kind t w (r, w')
Recorded-Stamped kind t w w' (err e) complete h = h
Recorded-Stamped kind t w w' (ok (stored, false)) complete h = h.0
Recorded-Stamped kind t w w' (ok (stored, true)) complete h =
    let (ref, account) = complete_of t complete in (h, ref, account)

stamped :
    (to_error : SqlError → Error) (kind : Kind) (t : Transaction) (w : World)
    → is_incomplete t ≡ false
    → Stamped kind t w (record_transaction to_error (record t { kind = kind }) w)
stamped to_error kind t w complete =
    Recorded-Stamped kind t w _ _ complete
      (record_transaction-Recorded to_error (record t { kind = kind }) w)

redeem-Stamped :
    (driver : Driver) (t : Transaction) (w : World)
    → Stamped redeem t w (record_redeem (Repositories.transactions driver) t w)
unfolding record_redeem
redeem-Stamped driver t w = elim (Bool-cases (is_incomplete t)) [
  | inl incomplete ↦ rw incomplete refl
  | inr complete ↦ elim (Bool-cases (t.reward == "")) [
    | inl no_reward ↦ rw (complete, no_reward) refl
    | inr reward ↦ rw (complete, reward) (stamped (to_error driver) redeem t w complete)
  ]
]

-- Whatever driver calls fail: each of the three recording services leaves the database as it was when
-- it fails or replays, and otherwise has stored the submitted transaction under its own kind,
-- whatever kind it came with, and its ref and account are not empty.
pub services_stamp_kind :
    (driver : Driver) (t : Transaction) (w : World)
    → Stamped earn t w (record_earn (Repositories.transactions driver) t w)
      × Stamped spend t w (record_spend (Repositories.transactions driver) t w)
      × Stamped redeem t w (record_redeem (Repositories.transactions driver) t w)
unfolding record_earn record_spend
services_stamp_kind driver t w = elim (Bool-cases (is_incomplete t)) [
  | inl incomplete ↦ (rw incomplete refl, rw incomplete refl, redeem-Stamped driver t w)
  | inr complete ↦ (
    rw complete (stamped (to_error driver) earn t w complete),
    rw complete (stamped (to_error driver) spend t w complete),
    redeem-Stamped driver t w,
  )
]

abbrev pub Appended : AuditEntry → World → Result Error AuditEntry × World → Type 0
Appended e w (err _, w') = w'.db ≡ w.db
Appended e w (ok logged, w') =
    let row : AuditRow =
      new_audit_row w.now e.ref e.account_id e.kind e.points e.outcome e.reason w.db in
    (w'.db ≡ add_audit_row row w.db) × (logged ≡ audit_from_row row) × (valid e.outcome ≡ true)

appended_row :
    (e : AuditEntry) (w : World) (row : AuditRow) (db' : Db)
    → append_audit_entry w.now e.ref e.account_id e.kind e.points e.outcome e.reason w.db
      ≡ ok (row, db')
    → (row ≡ new_audit_row w.now e.ref e.account_id e.kind e.points e.outcome e.reason w.db)
      × (db' ≡ add_audit_row row w.db)
unfolding append_audit_entry
appended_row e w row db' h = ground arith

append_audit-Appended :
    (driver : Driver) (e : AuditEntry) (w : World)
    → valid e.outcome ≡ true
    → Appended e w (append_audit (to_error driver) e w)
unfolding append_audit
append_audit-Appended driver e w known =
    write_then (to_error driver) "append audit" (λ row. pure (audit_from_row row)) (Appended e w)
      (append_audit_entry w.now e.ref e.account_id e.kind e.points e.outcome e.reason) w
      (λ _ _ same. same)
      λ row w' done _.
        let (new, added) = appended_row e w row w'.db done in
        (rw (← new) added, ap audit_from_row new, known)

-- Whatever driver calls fail: an attempt that AuditService records either fails and leaves the
-- database as it was, or has one of the three outcomes, adds exactly its own row to the audit log,
-- with the next id and the current time, and returns that row.
pub record_attempt-Appended :
    (driver : Driver) (e : AuditEntry) (w : World)
    → Appended e w (record_attempt (Repositories.audit driver) e w)
unfolding record_attempt
record_attempt-Appended driver e w = elim (Bool-cases (valid e.outcome)) [
  | inr unknown ↦ rw unknown refl
  | inl known ↦ rw known (append_audit-Appended driver e w known)
]
