-- ===== src/Store/Schedule/Once.antt =====
-- How often a ref is answered as created.
use gowallet.Prelude.{
  ℕ, ◌+◌, String, ◌≡◌, refl, inl, inr, Option, none, some, List, [], ◌∷◌, Bool, true, false, Result,
  ok, err, arith, ◌==◌, eq_iff, Bool-cases, if◌then◌else◌,
}
use mathlib.Core.Path.{subst}
use gowallet.Wallet.{Transaction, Error}
use gowallet.Store.Db.{Db, Stamp, TransactionRow}
use gowallet.Store.Queries.{transaction_row}
use gowallet.Store.Driver.{Driver}
use gowallet.Store.Session.{World}
use gowallet.Store.Ledger.Outcome.{Recorded, row_of}
use gowallet.Store.Schedule.{Event, answered, quiet, Run, done, step}
use gowallet.Store.Schedule.Steps.{Changes, Step-Changes}

-- Which events are answers of created=true to a submission of `ref`.
abbrev pub is_creation_of : String → Event → Bool
is_creation_of ref (answered t (ok (_, true))) = t.ref == ref
is_creation_of ref _ = false

abbrev pub creations : String → List Event → ℕ
creations ref [] = 0
creations ref (e ∷ es) = (if is_creation_of ref e then 1 else 0) + creations ref es

-- 1 if the ref is stored, and 0 if not.
abbrev pub stored_once : Option TransactionRow → ℕ
stored_once none = 0
stored_once (some _) = 1

abbrev pub is_stored : String → Db → ℕ
is_stored ref db = stored_once (transaction_row ref db.transactions)

stored_row :
    (ref : String) (t : Transaction) (now : Stamp) (db : Db)
    → transaction_row t.ref db.transactions ≡ none
    → stored_once (transaction_row ref (row_of t now db ∷ db.transactions))
      ≡ is_stored ref db + (if t.ref == ref then 1 else 0)
unfolding transaction_row
stored_row ref t now db fresh = elim (Bool-cases (t.ref == ref)) [
  | inr different ↦ rw different (omega arith)
  | inl same ↦
      let none_yet : transaction_row ref db.transactions ≡ none =
        subst (λ x. transaction_row x db.transactions ≡ none) ((eq_iff t.ref ref).0 same) fresh in
      rw (same, none_yet) refl
]

Recorded-is_stored :
    (ref : String) (t : Transaction) (w : World) (r : Result Error (Transaction × Bool))
    (w' : World)
    → Recorded t w (r, w')
    → is_stored ref w'.db
      ≡ is_stored ref w.db + (if is_creation_of ref (answered t r) then 1 else 0)
Recorded-is_stored ref t w (err _) w' h = rw h (omega arith)
Recorded-is_stored ref t w (ok (stored, false)) w' (h, _) = rw h (omega arith)
Recorded-is_stored ref t w (ok (stored, true)) w' c =
    rw c.added (stored_row ref t w.now w.db c.fresh)

Changes-is_stored :
    (ref : String) (w w' : World) (e : Event)
    → Changes w e w'
    → is_stored ref w'.db ≡ is_stored ref w.db + (if is_creation_of ref e then 1 else 0)
Changes-is_stored ref w w' (answered t r) h = Recorded-is_stored ref t w r w' h
Changes-is_stored ref w w' quiet h = rw h (omega arith)

-- Over any interleaving of calls of the store, with any driver calls failing: the number of
-- submissions of a ref that are answered as created, together with 1 if the ref was stored before the
-- run, is 1 if the ref is stored after it, and 0 if not. So a ref is created at most once, and what is
-- answered as created is stored.
pub created_once :
    (driver : Driver) (ref : String) {w w' : World} {es : List Event}
    → Run driver w es w'
    → creations ref es + is_stored ref w.db ≡ is_stored ref w'.db
created_once driver ref (done w) = omega arith
created_once driver ref (step {w} {w1} {w2} {e} {es} s run) =
    omega (arith, Changes-is_stored ref w w1 e (Step-Changes driver s), created_once driver ref run)
