-- ===== src/Store/Schedule/Sums.antt =====
-- The totals of an account against the answers that its submitters got.
use gowallet.Prelude.{
  ℕ, ◌+◌, String, ◌≡◌, List, [], ◌∷◌, Bool, true, false, Result, ok, err, arith, ◌==◌,
  if◌then◌else◌,
}
use gowallet.Prelude.Int.{pos_part}
use gowallet.Wallet.{Kind, Transaction, Error}
use gowallet.Store.Driver.{Driver}
use gowallet.Store.Session.{World}
use gowallet.Store.Ledger.Outcome.{Recorded}
use gowallet.Store.Totals.{earned, deducted, earned_by, deducted_by}
use gowallet.Store.Schedule.{Event, answered, quiet, Run, done, step}
use gowallet.Store.Schedule.Steps.{Changes, Step-Changes}

-- The points that answers of created=true to submissions for an account add up to, `by` the kind.
module _ (by : Kind → ℕ → ℕ) (id : String) where
  abbrev pub answered_points : Event → ℕ
  answered_points (answered t (ok (_, true))) =
      if t.account_id == id then by t.kind (pos_part t.points) else 0
  answered_points _ = 0

  abbrev pub acknowledged : List Event → ℕ
  acknowledged [] = 0
  acknowledged (e ∷ es) = answered_points e + acknowledged es

-- The two totals of an account after an event.
abbrev Counted : String → World → Event → World → Type 0
Counted id w e w' =
    (earned id w'.db.transactions ≡ earned id w.db.transactions + answered_points earned_by id e)
    × (deducted id w'.db.transactions
        ≡ deducted id w.db.transactions + answered_points deducted_by id e)

Recorded-Counted :
    (id : String) (t : Transaction) (w : World) (r : Result Error (Transaction × Bool)) (w' : World)
    → Recorded t w (r, w')
    → Counted id w (answered t r) w'
Recorded-Counted id t w (err _) w' h = rw h (omega arith)
Recorded-Counted id t w (ok (stored, false)) w' (h, _) = rw h (omega arith)
Recorded-Counted id t w (ok (stored, true)) w' c = rw c.added (omega arith)

Changes-Counted : (id : String) (w w' : World) (e : Event) → Changes w e w' → Counted id w e w'
Changes-Counted id w w' (answered t r) h = Recorded-Counted id t w r w' h
Changes-Counted id w w' quiet h = rw h (omega arith)

-- Over any interleaving of calls of the store, with any driver calls failing: what an account has
-- earned grows by exactly the points of the earns for it that were answered as created, and what it
-- has spent and redeemed by exactly those of its spends and redeems. No acknowledged recording is
-- lost, and none that failed or was a replay counts.
pub acknowledged_counted :
    (driver : Driver) (id : String) {w w' : World} {es : List Event}
    → Run driver w es w'
    → (earned id w'.db.transactions ≡ earned id w.db.transactions + acknowledged earned_by id es)
      × (deducted id w'.db.transactions
          ≡ deducted id w.db.transactions + acknowledged deducted_by id es)
acknowledged_counted driver id (done w) = omega arith
acknowledged_counted driver id (step {w} {w1} {w2} {e} {es} s run) =
    omega
      (arith, Changes-Counted id w w1 e (Step-Changes driver s), acknowledged_counted driver id run)
