-- ===== src/System/Ingest/Rows.antt =====
-- What the recording and the logging of one row of an upload do, with no failing driver call.
use gowallet.Prelude.{ℕ, ◌+◌, ◌≡◌, refl, ap, ◌∙◌, Bool, true, false, Result, ok, err, arith, length}
use gowallet.Wallet.{Kind, earn, spend, redeem, other, Transaction, AuditEntry, valid, Error}
use gowallet.Wallet.Service.{record_spend}
use gowallet.Store.Audit.{append_audit}
use gowallet.Wallet.Audit.{record_attempt}
use gowallet.Store.Queries.{add_audit_row, new_audit_row}
use gowallet.Store.Session.{World}
use gowallet.Store.Accounts.{to_error}
use gowallet.Store.Ledger.Faultless.{IsCalm, record_transaction-IsCalm, append_audit_calm}
use gowallet.Store.Recording.{Stamped, services_stamp_kind}
use gowallet.Wallet.Keeps.{record_earn-keeps, record_spend-keeps}
use gowallet.Http.Batch.{record_audit, by_kind}
use gowallet.Store.Repositories
use gowallet.System.{Environment, server}

-- 1 for a result that reports a creation.
abbrev pub created : Result Error (Transaction × Bool) → ℕ
created (ok (_, true)) = 1
created _ = 0

-- What the recording of one row leaves.
pub record Recording (w : World) (r : Result Error (Transaction × Bool)) (w' : World) : Type 0 where
  pub quiet : IsCalm w'
  pub audit : w'.db.audit_log ≡ w.db.audit_log
  pub transactions : length w'.db.transactions ≡ created r + length w.db.transactions

module _ (env : Environment) where
  Stamped-Recording :
      (kind : Kind) (t : Transaction) (w w' : World) (r : Result Error (Transaction × Bool))
      → IsCalm w'
      → Stamped kind t w (r, w')
      → Recording w r w'
  Stamped-Recording kind t w w' (err _) quiet h = record {
    quiet = quiet;
    audit = ap (λ db. db.audit_log) h;
    transactions = rw h (omega arith);
  }
  Stamped-Recording kind t w w' (ok (stored, false)) quiet h = record {
    quiet = quiet;
    audit = ap (λ db. db.audit_log) h;
    transactions = rw h (omega arith);
  }
  Stamped-Recording kind t w w' (ok (stored, true)) quiet (c, _, _) = record {
    quiet = quiet;
    audit = ap (λ db. db.audit_log) c.added;
    transactions = rw c.added (omega arith);
  }

  record_attempt_known :
      (e : AuditEntry) (w : World)
      → valid e.outcome ≡ true
      → record_attempt (Repositories.audit env.driver) e w ≡ append_audit (to_error env.driver) e w
  unfolding record_attempt
  record_attempt_known e w known = rw known refl

  pub record_audit_calm :
      (e : AuditEntry) (w : World)
      → IsCalm w
      → valid e.outcome ≡ true
      → record_audit (server env) e w ≡ record w {
        db =
            add_audit_row
              (new_audit_row w.now e.ref e.account_id e.kind e.points e.outcome e.reason w.db)
              w.db;
      }
  unfolding record_audit
  record_audit_calm e w quiet known =
      ap (λ r. r.1) (record_attempt_known e w known)
      ∙ append_audit_calm (to_error env.driver) e w quiet known

  spend-Recording :
      (t : Transaction) (w : World)
      → IsCalm w
      → Recording w
          (record_spend (Repositories.transactions env.driver) t w).0
          (record_spend (Repositories.transactions env.driver) t w).1
  spend-Recording t w quiet =
      Stamped-Recording spend t w _ _
        ((record_spend-keeps IsCalm (Repositories.transactions env.driver)
            (record_transaction-IsCalm (to_error env.driver)) t).at
          w quiet)
        (services_stamp_kind env.driver t w).1

  -- Recording by the row's kind: an earn as it is, and anything else as a spend.
  pub by_kind-Recording :
      (kind : Kind) (t : Transaction) (w : World)
      → IsCalm w
      → Recording w (by_kind (server env) kind t w).0 (by_kind (server env) kind t w).1
  unfolding by_kind
  by_kind-Recording earn t w quiet =
      Stamped-Recording earn t w _ _
        ((record_earn-keeps IsCalm (Repositories.transactions env.driver)
            (record_transaction-IsCalm (to_error env.driver)) t).at
          w quiet)
        (services_stamp_kind env.driver t w).0
  by_kind-Recording spend t w quiet = spend-Recording t w quiet
  by_kind-Recording redeem t w quiet = spend-Recording t w quiet
  by_kind-Recording (other _) t w quiet = spend-Recording t w quiet
