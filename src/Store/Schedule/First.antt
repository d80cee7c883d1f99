-- ===== src/Store/Schedule/First.antt =====
-- What the first submission of a ref stored is what every later one gets back.
use gowallet.Prelude.{
  String, ◌≡◌, inl, inr, none, some, List, Bool, true, false, Result, ok, err, ◌==◌, eq_iff,
  Bool-cases,
}
use mathlib.Core.Path.{subst}
use gowallet.Prelude.Int.{pos, ◌≤ℤ◌}
use gowallet.Wallet.{Transaction, Error}
use gowallet.Store.Db.{Db, Stamp, TransactionRow}
use gowallet.Store.Queries.{kind_allowed, transaction_row}
use gowallet.Store.Driver.{Driver}
use gowallet.Store.Session.{World}
use gowallet.Store.Accounts.{to_error}
use gowallet.Store.Ledger.{record_transaction}
use gowallet.Store.Ledger.Calm.{calm, is_known, record_replay}
use gowallet.Store.Ledger.Outcome.{Recorded, row_of}
use gowallet.Store.Ledger.Replay.{Created-of, row_after}
use gowallet.Store.Schedule.{Event, answered, quiet, Run, done, step}
use gowallet.Store.Schedule.Steps.{Changes, Step-Changes}

abbrev Finds : String → TransactionRow → Db → Type 0
Finds ref row db = transaction_row ref db.transactions ≡ some row

Recorded-Finds :
    (ref : String) (row : TransactionRow) (t : Transaction) (w : World)
    (r : Result Error (Transaction × Bool)) (w' : World)
    → Recorded t w (r, w')
    → Finds ref row w.db
    → Finds ref row w'.db
unfolding transaction_row
Recorded-Finds ref row t w (err _) w' h found = rw h found
Recorded-Finds ref row t w (ok (stored, false)) w' (h, _) found = rw h found
Recorded-Finds ref row t w (ok (stored, true)) w' c found = elim (Bool-cases (t.ref == ref)) [
  | inr different ↦ rw (c.added, different) found
  | inl same ↦ cc (
    subst (λ x. transaction_row x w.db.transactions ≡ none) ((eq_iff t.ref ref).0 same) c.fresh,
    found,
  )
]

Changes-Finds :
    (ref : String) (row : TransactionRow) (w w' : World) (e : Event)
    → Changes w e w'
    → Finds ref row w.db
    → Finds ref row w'.db
Changes-Finds ref row w w' (answered t r) h found = Recorded-Finds ref row t w r w' h found
Changes-Finds ref row w w' quiet h found = rw h found

Run-Finds :
    (driver : Driver) (ref : String) (row : TransactionRow) {w w' : World} {es : List Event}
    → Run driver w es w'
    → Finds ref row w.db
    → Finds ref row w'.db
Run-Finds driver ref row (done w) found = found
Run-Finds driver ref row (step {w} {w1} {w2} {e} {es} s run) found =
    Run-Finds driver ref row run (Changes-Finds ref row w w1 e (Step-Changes driver s) found)

-- After a submission was stored as created, and then any interleaving of calls of the store, whatever
-- driver calls failed in all that: a submission `again` under the same ref, from any account that is
-- known then, of a legal kind and with at least one point, stores nothing and returns what was stored
-- first. No driver call fails during that last submission.
pub first_writer_wins :
    (driver : Driver) (t again stored : Transaction) (w w1 w2 : World) {es : List Event}
    (later : Stamp)
    → record_transaction (to_error driver) t w ≡ (ok (stored, true), w1)
    → Run driver w1 es w2
    → again.ref ≡ t.ref
    → is_known again.account_id w2.db ≡ true
    → kind_allowed again.kind ≡ true
    → pos 1 ≤ℤ again.points
    → record_transaction (to_error driver) again (calm w2.db later)
      ≡ (ok (stored, false), calm w2.db later)
first_writer_wins driver t again stored w w1 w2 later e run same_ref known allowed positive =
    let c = Created-of (to_error driver) t stored w w1 e in
    let row : TransactionRow = row_of t w.now w.db in
    let first : Finds again.ref row w1.db =
      rw c.added (row_after t again.ref w.now w.db same_ref) in
    rw c.returned (
      record_replay (to_error driver) again w2.db later known allowed positive row
        (Run-Finds driver again.ref row run first))
