-- ===== src/Store/Book/Runs.antt =====
-- Sequences of submissions, one after the other as the store's single connection serves them.
use gowallet.Prelude.{
  ℕ, ◌+◌, ◌≤◌, ◌<◌, String, ◌≡◌, refl, inl, inr, List, [], ◌∷◌, Bool, true, false, Result, ok, err,
  map, map_err, arith, All, ◌==◌, Bool-cases,
}
use mathlib.Core.Path.{ap₂}
use gowallet.Prelude.Int.{pos, pos_part, ◌≤ℤ◌, int64_limit}
use gowallet.Wallet.{Kind, Transaction, Sentinel, Error, sentinel}
use gowallet.Store.Db.{Db, Stamp}
use gowallet.Store.Queries.{SqlError, kind_allowed}
use gowallet.Store.Session.{World}
use gowallet.Store.Ledger.{record_transaction}
use gowallet.Store.Ledger.Outcome.{Recorded, record_transaction-Recorded}
use gowallet.Store.Ledger.Calm.{calm}
use gowallet.Store.Totals.{earned, earned_by}
use gowallet.Store.Invariant.{IsValid, record_transaction-IsValid}
use gowallet.Store.Book.{Book, book_of, submit}
use gowallet.Store.Book.Refinement.{record_transaction-Refines}

-- Each submission comes with the time at which it is recorded.
unfoldable pub record_all :
    (SqlError → Error)
    → List (Stamp × Transaction)
    → Db
    → List (Result Error (Transaction × Bool)) × Db
record_all to_error [] db = ([], db)
record_all to_error ((now, t) ∷ rest) db =
    let (r, w) = record_transaction to_error t (calm db now) in
    let (rs, db') = record_all to_error rest w.db in (r ∷ rs, db')

unfoldable pub submit_all :
    List (Stamp × Transaction) → Book → List (Result Sentinel (Transaction × Bool)) × Book
submit_all [] b = ([], b)
submit_all ((now, t) ∷ rest) b =
    let (r, b1) = submit t b in let (rs, b2) = submit_all rest b1 in (r ∷ rs, b2)

-- A kind and a number of points that the services let through.
abbrev pub IsLegalSubmission : Stamp × Transaction → Type 0
IsLegalSubmission (now, t) = (kind_allowed t.kind ≡ true) × (pos 1 ≤ℤ t.points)

-- All the points that are submitted.
abbrev pub submitted : List (Stamp × Transaction) → ℕ
submitted [] = 0
submitted ((now, t) ∷ rest) = pos_part t.points + submitted rest

earned_by-le : (k : Kind) (n : ℕ) → earned_by k n ≤ n
earned_by-le k n = ground arith

-- One submission adds at most its own points to what any account has earned.
pub Recorded-earned :
    (t : Transaction) (w : World) (r : Result Error (Transaction × Bool)) (w' : World) (id : String)
    → Recorded t w (r, w')
    → earned id w'.db.transactions ≤ earned id w.db.transactions + pos_part t.points
Recorded-earned t w (err _) w' id h = rw h (omega arith)
Recorded-earned t w (ok (stored, false)) w' id (h, _) = rw h (omega arith)
Recorded-earned t w (ok (stored, true)) w' id c =
    rw c.added (elim (Bool-cases (t.account_id == id)) [
      | inl mine ↦ rw mine (omega (arith, earned_by-le t.kind (pos_part t.points)))
      | inr other_account ↦ rw other_account (omega arith)
    ])

-- The store refines the book over every sequence of submissions: from a valid database, with legal
-- kinds, at least one point each, no failing driver call, and fewer than 2^63 points earned and
-- submitted in all, the store returns the book's answers one for one, and in the end holds the book
-- that the book's steps leave.
pub record_all-refines :
    (to_error : SqlError → Error) (ts : List (Stamp × Transaction)) (db : Db)
    → IsValid db
    → All IsLegalSubmission ts
    → ((id : String) → earned id db.transactions + submitted ts < int64_limit)
    → ((record_all to_error ts db).0 ≡ map (map_err sentinel) (submit_all ts (book_of db)).0)
      × (book_of (record_all to_error ts db).1 ≡ (submit_all ts (book_of db)).1)
unfolding record_all submit_all
record_all-refines to_error [] db valid legal small = (refl, refl)
record_all-refines to_error ((now, t) ∷ rest) db valid legal small =
    let (r, w) = record_transaction to_error t (calm db now) in
    let (same_answer, same_book) =
      record_transaction-Refines to_error t db now valid legal.0.0 legal.0.1
        (omega (arith, small t.account_id)) in
    let (answers, book) =
      record_all-refines to_error rest w.db
        (record_transaction-IsValid to_error t (calm db now) valid) legal.1
        (λ id. omega (
          arith,
          small id,
          Recorded-earned t (calm db now) r w id
              (record_transaction-Recorded to_error t (calm db now)),
        )) in
    rw (← same_book) (ap₂ ◌∷◌ same_answer answers, book)
