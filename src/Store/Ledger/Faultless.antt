-- ===== src/Store/Ledger/Faultless.antt =====
-- Worlds in which no driver call fails, through the calls that a batch makes.
use gowallet.Prelude.{arith, String, ◌≡◌, refl, [], Bool, true, Result, ok, err, Action}
use gowallet.Wallet.{Transaction, AuditEntry, Error, AuditOutcome, valid, Call}
use gowallet.Wallet.Keeps.{KeepsCall, pure-keeps, fail-keeps, if-keeps_call, handle-keeps}
use gowallet.Store.Db.{Db}
use gowallet.Store.Queries.{
  SqlError, Read, Write, outcome_allowed, add_audit_row, new_audit_row, append_audit_entry,
}
use gowallet.Store.Session.{World, driver_call, read, write, wrapping, in_tx, settle, with_db}
use gowallet.Store.Ledger.{record_transaction, record_body, insert, guard_balance, refuse}
use gowallet.Store.Audit.{append_audit}

abbrev pub IsCalm : World → Type 0
IsCalm w = w.faults ≡ []

driver_call-IsCalm : KeepsCall IsCalm driver_call
unfolding driver_call
driver_call-IsCalm = record { at = λ w h. rw h refl }

read-IsCalm : {A : Type 0} (q : Read A) → KeepsCall IsCalm (read q)
unfolding read
read-IsCalm q =
    handle-keeps driver_call _ _ driver_call-IsCalm (λ _. record { at = λ w h. h })
      (λ e. fail-keeps e)

with_db-IsCalm :
    {A : Type 0} (w : World) (r : Result SqlError (A × Db)) → IsCalm w → IsCalm (with_db w r).1
with_db-IsCalm w (ok (a, db)) h = h
with_db-IsCalm w (err e) h = h

write-IsCalm : {A : Type 0} (q : Write A) → KeepsCall IsCalm (write q)
unfolding write
write-IsCalm q =
    handle-keeps driver_call _ _ driver_call-IsCalm
      (λ _. record { at = λ w h. with_db-IsCalm w (q w.db) h }) (λ e. fail-keeps e)

wrapping-IsCalm :
    {A : Type 0} (to_error : SqlError → Error) (context : String) (m : Action World SqlError A)
    → KeepsCall IsCalm m
    → KeepsCall IsCalm (wrapping to_error context m)
unfolding wrapping
wrapping-IsCalm to_error context m k = handle-keeps m _ _ k (λ a. pure-keeps a) (λ e. fail-keeps _)

settle-IsCalm :
    {A : Type 0} (before : Db) (r : Result Error A) (w : World)
    → IsCalm w
    → IsCalm (settle before (r, w)).1
settle-IsCalm before (ok a) w h = h
settle-IsCalm before (err e) w h = h

outcome_allowed-valid : (o : AuditOutcome) → outcome_allowed o ≡ valid o
outcome_allowed-valid o = ground arith

module _ (to_error : SqlError → Error) where
  in_tx-IsCalm :
      {A : Type 0} (body : Call World A)
      → KeepsCall IsCalm body
      → KeepsCall IsCalm (in_tx to_error body)
  unfolding in_tx
  in_tx-IsCalm body k = record {
    at = λ w h. settle-IsCalm w.db _ _ (
        (handle-keeps (wrapping to_error "begin tx" driver_call) (λ _. body) _
            (wrapping-IsCalm _ _ _ driver_call-IsCalm) (λ _. k) (λ e. fail-keeps e)).at
          w h);
  }

  insert-IsCalm : (t : Transaction) → KeepsCall IsCalm (insert to_error t)
  unfolding insert
  insert-IsCalm t = record {
    at = λ w. (wrapping-IsCalm to_error "insert transaction" _ (write-IsCalm _)).at w;
  }

  refuse-IsCalm : KeepsCall IsCalm (refuse to_error)
  unfolding refuse
  refuse-IsCalm =
      handle-keeps _ _ _ (wrapping-IsCalm _ _ _ driver_call-IsCalm) (λ _. fail-keeps _)
        (λ e. fail-keeps e)

  guard_balance-IsCalm :
      (fresh : Bool) (t : Transaction) → KeepsCall IsCalm (guard_balance to_error fresh t)
  unfolding guard_balance
  guard_balance-IsCalm fresh t =
      if-keeps_call _ _ _
        (handle-keeps _ _ _ (wrapping-IsCalm _ _ _ (read-IsCalm _))
          (λ balance. if-keeps_call _ _ _ refuse-IsCalm (pure-keeps _)) (λ e. fail-keeps e))
        (pure-keeps _)

  record_body-IsCalm : (t : Transaction) → KeepsCall IsCalm (record_body to_error t)
  unfolding record_body
  record_body-IsCalm t =
      handle-keeps _ _ _ (wrapping-IsCalm _ _ _ (read-IsCalm _))
        (λ exists. if-keeps_call _ _ _ (fail-keeps _) (
          handle-keeps _ _ _ (insert-IsCalm t)
            (λ affected.
              handle-keeps _ _ _ (wrapping-IsCalm _ _ _ driver_call-IsCalm)
                (λ _.
                  handle-keeps _ _ _ (guard_balance-IsCalm _ t)
                    (λ _.
                      handle-keeps _ _ _ (wrapping-IsCalm _ _ _ (read-IsCalm _))
                        (λ row.
                          handle-keeps _ _ _ (wrapping-IsCalm _ _ _ driver_call-IsCalm)
                            (λ _. pure-keeps _) (λ e. fail-keeps e))
                        (λ e. fail-keeps e))
                    (λ e. fail-keeps e))
                (λ e. fail-keeps e))
            (λ e. fail-keeps e)))
        (λ e. fail-keeps e)

  -- A recording makes no driver call fail.
  pub record_transaction-IsCalm :
      (t : Transaction) → KeepsCall IsCalm (record_transaction to_error t)
  unfolding record_transaction
  record_transaction-IsCalm t = in_tx-IsCalm (record_body to_error t) (record_body-IsCalm t)

  -- An attempt with a known outcome is logged.
  pub append_audit_calm :
      (e : AuditEntry) (w : World)
      → IsCalm w
      → valid e.outcome ≡ true
      → (append_audit to_error e w).1 ≡ record w {
        db =
            add_audit_row
              (new_audit_row w.now e.ref e.account_id e.kind e.points e.outcome e.reason w.db)
              w.db;
      }
  unfolding append_audit append_audit_entry write wrapping driver_call
  append_audit_calm e w calm known = simp (calm, outcome_allowed-valid e.outcome, known) refl
