-- ===== src/System/Reupload/Attempts.antt =====
-- One recording of a row: it settles the row, or is refused.
use gowallet.Prelude.{
  some, ◌≡◌, refl, ap, inl, inr, Bool, true, false, Result, ok, err, arith, Bool-cases,
}
use gowallet.Prelude.Int.{pos, ◌≤ℤ◌}
use gowallet.Wallet.{Kind, earn, spend, redeem, other, Transaction, Error}
use gowallet.Wallet.Service.{is_incomplete, record_earn, record_spend}
use gowallet.Store.Db.{TransactionRow}
use gowallet.Store.Queries.{transaction_row, kind_allowed}
use gowallet.Store.Session.{World}
use gowallet.Store.Accounts.{to_error}
use gowallet.Store.Ledger.{record_transaction, stored_of}
use gowallet.Store.Ledger.Calm.{calm, is_known, record_replay, record_unknown}
use gowallet.Store.Ledger.Outcome.{record_transaction-Recorded}
use gowallet.Store.Ledger.Faultless.{IsCalm, record_transaction-IsCalm}
use gowallet.Http.Batch.{by_kind}
use gowallet.Store.Repositories
use gowallet.System.{Environment, server}
use gowallet.System.Reupload.Settled.{Settles, Grows, Recorded-Grows, Recorded-Settles}

calm_of : (w : World) → IsCalm w → w ≡ calm w.db w.now
calm_of w quiet = ap (λ faults. record w { faults = faults }) quiet

positive_of : (t : Transaction) → is_incomplete t ≡ false → pos 1 ≤ℤ t.points
positive_of t h = ground arith

module _ (env : Environment) where
  record-Settles :
      (t : Transaction) (w : World)
      → IsCalm w
      → is_incomplete t ≡ false
      → Settles t (record_transaction (to_error env.driver) t w)
  unfolding Settles
  record-Settles t w quiet complete = elim (Bool-cases (is_known t.account_id w.db)) [
    | inl known ↦
        Recorded-Settles t w _ _ complete known
          (record_transaction-Recorded (to_error env.driver) t w)
    | inr unknown ↦
        rw (calm_of w quiet, record_unknown (to_error env.driver) t w.db w.now unknown) tt
  ]

  -- A recording of a parsed row, by its kind.
  pub record Attempt (t : Transaction) (w : World) (r : Result Error (Transaction × Bool))
      (w' : World) : Type 0 where
    pub quiet : IsCalm w'
    pub grows : Grows w.db w'.db
    pub settles : Settles t (r, w')

  recorded :
      (t : Transaction) (w : World)
      → IsCalm w
      → is_incomplete t ≡ false
      → Attempt t w
          (record_transaction (to_error env.driver) t w).0
          (record_transaction (to_error env.driver) t w).1
  recorded t w quiet complete = record {
    quiet = (record_transaction-IsCalm (to_error env.driver) t).at w quiet;
    grows = Recorded-Grows t w _ _ (record_transaction-Recorded (to_error env.driver) t w);
    settles = record-Settles t w quiet complete;
  }

  refused : (t : Transaction) (w : World) (e : Error) → IsCalm w → Attempt t w (err e) w
  unfolding Grows Settles
  refused t w e quiet = record { quiet = quiet; grows = λ u h. h; settles = tt }

  spend-Attempt :
      (t : Transaction) (w : World)
      → IsCalm w
      → Attempt t w
          (record_spend (Repositories.transactions env.driver) t w).0
          (record_spend (Repositories.transactions env.driver) t w).1
  unfolding record_spend Settles
  spend-Attempt t w quiet = elim (Bool-cases (is_incomplete t)) [
    | inl incomplete ↦ rw incomplete (refused t w _ quiet)
    | inr complete ↦
        let a = recorded (record t { kind = spend }) w quiet complete in
        rw complete (record { quiet = a.quiet; grows = a.grows; settles = a.settles })
  ]

  pub by_kind-Attempt :
      (kind : Kind) (t : Transaction) (w : World)
      → IsCalm w
      → Attempt t w (by_kind (server env) kind t w).0 (by_kind (server env) kind t w).1
  unfolding by_kind record_earn Settles
  by_kind-Attempt earn t w quiet = elim (Bool-cases (is_incomplete t)) [
    | inl incomplete ↦ rw incomplete (refused t w _ quiet)
    | inr complete ↦
        let a = recorded (record t { kind = earn }) w quiet complete in
        rw complete (record { quiet = a.quiet; grows = a.grows; settles = a.settles })
  ]
  by_kind-Attempt spend t w quiet = spend-Attempt t w quiet
  by_kind-Attempt redeem t w quiet = spend-Attempt t w quiet
  by_kind-Attempt (other _) t w quiet = spend-Attempt t w quiet

  recorded-replay :
      (t : Transaction) (w : World) (row : TransactionRow)
      → IsCalm w
      → is_incomplete t ≡ false
      → is_known t.account_id w.db ≡ true
      → kind_allowed t.kind ≡ true
      → transaction_row t.ref w.db.transactions ≡ some row
      → record_transaction (to_error env.driver) t w ≡ (ok (stored_of row, false), w)
  recorded-replay t w row quiet complete known allowed found = rw (calm_of w quiet) (
      record_replay (to_error env.driver) t w.db w.now known allowed (positive_of t complete) row
        found)

  -- A replay, by any kind.
  pub by_kind-replay :
      (kind : Kind) (t : Transaction) (w : World) (row : TransactionRow)
      → IsCalm w
      → is_incomplete t ≡ false
      → is_known t.account_id w.db ≡ true
      → transaction_row t.ref w.db.transactions ≡ some row
      → by_kind (server env) kind t w ≡ (ok (stored_of row, false), w)
  unfolding by_kind record_earn record_spend
  by_kind-replay earn t w row quiet complete known found =
      rw complete (recorded-replay (record t { kind = earn }) w row quiet complete known refl found)
  by_kind-replay spend t w row quiet complete known found =
      rw complete
        (recorded-replay (record t { kind = spend }) w row quiet complete known refl found)
  by_kind-replay redeem t w row quiet complete known found =
      rw complete
        (recorded-replay (record t { kind = spend }) w row quiet complete known refl found)
  by_kind-replay (other _) t w row quiet complete known found =
      rw complete
        (recorded-replay (record t { kind = spend }) w row quiet complete known refl found)
