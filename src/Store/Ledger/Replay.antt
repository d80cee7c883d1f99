-- ===== src/Store/Ledger/Replay.antt =====
-- Submitting a ref again, and what a stored transaction keeps of the submitted one.
use gowallet.Prelude.{
  String, ◌≡◌, refl, inl, inr, some, true, ok, arith, ◌∷◌, Bool-cases, eq_iff, eq_refl, ◌≤◌, ◌<◌,
  ◌==◌,
}
use mathlib.Core.Path.{subst}
use gowallet.Wallet.{Transaction, Time, Error}
use gowallet.Store.Db.{Db, Stamp, format, parse, year_0, year_10000}
use gowallet.Store.Queries.{SqlError, transaction_row}
use gowallet.Store.Session.{World}
use gowallet.Store.Ledger.{record_transaction, stored_of, null_string, string_of}
use gowallet.Store.Ledger.Outcome.{Recorded, Created, row_of, record_transaction-Recorded}

pub Created-of :
    (to_error : SqlError → Error) (t stored : Transaction) (w w' : World)
    → record_transaction to_error t w ≡ (ok (stored, true), w')
    → Created t w.now w.db w'.db stored
Created-of to_error t stored w w' e =
    subst (Recorded t w) e (record_transaction-Recorded to_error t w)

pub row_after :
    (t : Transaction) (ref : String) (now : Stamp) (db : Db)
    → ref ≡ t.ref
    → transaction_row ref (row_of t now db ∷ db.transactions) ≡ some (row_of t now db)
unfolding transaction_row
row_after t ref now db e = rw (e, eq_refl t.ref) refl

pub string_of-null_string : (s : String) → string_of (null_string s) ≡ s
string_of-null_string s = elim (Bool-cases (s == "")) [
  | inl empty ↦ rw (empty, (eq_iff s "").0 empty) refl
  | inr filled ↦ rw filled refl
]

parse-format :
    (t : Time) → year_0 ≤ t.sec → t.sec < year_10000 → parse (format t) ≡ record t { nsec = 0 }
unfolding parse format
parse-format t lo hi = ground arith

-- A transaction whose occurred_at lies in the years 0 to 9999 comes back from its row as it was
-- submitted, but for the nanoseconds of occurred_at.
pub stored_of-row_of :
    (t : Transaction) (now : Stamp) (db : Db)
    → year_0 ≤ t.occurred_at.sec
    → t.occurred_at.sec < year_10000
    → stored_of (row_of t now db)
      ≡ record t { occurred_at = record { sec = t.occurred_at.sec; nsec = 0 } }
unfolding stored_of
stored_of-row_of t now db lo hi =
    rw (string_of-null_string t.reward, parse-format t.occurred_at lo hi) refl
