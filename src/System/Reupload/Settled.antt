-- ===== src/System/Reupload/Settled.antt =====
-- The lines of an upload whose transactions are stored.
use gowallet.Prelude.{
  ℕ, ◌+◌, ◌≤◌, String, Option, none, some, ◌≡◌, refl, inl, inr, List, [], ◌∷◌, Bool, true, false,
  not, ◌&&◌, Result, ok, err, arith, if◌then◌else◌, Bool-cases, ◌==◌,
}
use gowallet.Wallet.{Transaction, Error, is, not_found, insufficient_balance}
use gowallet.Wallet.Service.{is_incomplete}
use gowallet.Store.Db.{Db, Stamp, TransactionRow}
use gowallet.Store.Queries.{transaction_row}
use gowallet.Store.Session.{World}
use gowallet.Store.Ledger.Calm.{is_known}
use gowallet.Store.Ledger.Outcome.{Recorded, row_of}
use gowallet.Store.Ledger.Replay.{row_after}
use gowallet.Http.Response.{BatchSummary}
use gowallet.Http.Batch.{
  Line, fields, broken, tally, count_row, classify_outcome, Bucket, parse_row,
}

-- A transaction that any recording service would answer as a replay.
abbrev is_stored : Option TransactionRow → Bool
is_stored none = false
is_stored (some _) = true

abbrev pub replays : Transaction → Db → Bool
replays t db =
    not (is_incomplete t)
    && (is_known t.account_id db && is_stored (transaction_row t.ref db.transactions))

-- A line whose transaction is stored.
abbrev pub row_settled : Db → Result String Transaction → Bool
row_settled db (err _) = false
row_settled db (ok t) = replays t db

abbrev pub is_settled : Db → Line → Bool
is_settled db broken = false
is_settled db (fields rec) = row_settled db (parse_row rec)

-- What a recording that succeeded leaves.
unfoldable pub Settles : Transaction → Result Error (Transaction × Bool) × World → Type 0
Settles t (err _, w) = Unit
Settles t (ok _, w) = replays t w.db ≡ true

-- What was a replay stays one.
unfoldable pub Grows : Db → Db → Type 0
Grows db db' = (t : Transaction) → replays t db ≡ true → replays t db' ≡ true

stored-row :
    (t u : Transaction) (now : Stamp) (db : Db)
    → is_stored (transaction_row u.ref db.transactions) ≡ true
    → is_stored (transaction_row u.ref (row_of t now db ∷ db.transactions)) ≡ true
unfolding transaction_row
stored-row t u now db h = elim (Bool-cases (t.ref == u.ref)) [
  | inl same ↦ rw same refl
  | inr different ↦ rw different h
]

pub replays_parts :
    (t : Transaction) (db : Db)
    → replays t db ≡ true
    → (is_incomplete t ≡ false)
      × (is_known t.account_id db ≡ true)
      × (is_stored (transaction_row t.ref db.transactions) ≡ true)
replays_parts t db h = ground arith

pub Recorded-Grows :
    (t : Transaction) (w : World) (r : Result Error (Transaction × Bool)) (w' : World)
    → Recorded t w (r, w')
    → Grows w.db w'.db
unfolding Grows
Recorded-Grows t w (err _) w' h u settled = rw h settled
Recorded-Grows t w (ok (stored, false)) w' h u settled = rw h.0 settled
Recorded-Grows t w (ok (stored, true)) w' c u settled =
    let (complete, known, found) = replays_parts u w.db settled in
    rw (c.added, complete, known, stored-row t u w.now w.db found) refl

pub Recorded-Settles :
    (t : Transaction) (w : World) (r : Result Error (Transaction × Bool)) (w' : World)
    → is_incomplete t ≡ false
    → is_known t.account_id w.db ≡ true
    → Recorded t w (r, w')
    → Settles t (r, w')
unfolding Settles
Recorded-Settles t w (err _) w' complete known h = tt
Recorded-Settles t w (ok (stored, false)) w' complete known h =
    rw (h.0, complete, known, h.1.found) refl
Recorded-Settles t w (ok (stored, true)) w' complete known c =
    rw (c.added, complete, known, row_after t t.ref w.now w.db refl) refl

-- 1 for a result that is no error, and 1 for a settled line.
abbrev pub done_by : Result Error (Transaction × Bool) → ℕ
done_by (err _) = 0
done_by (ok _) = 1

abbrev pub settled_at : Db → Line → ℕ
settled_at db line = if is_settled db line then 1 else 0

abbrev pub settled_lines : Db → List Line → ℕ
settled_lines db [] = 0
settled_lines db (line ∷ lines) = settled_at db line + settled_lines db lines

-- The rows of a summary that were not rejected.
abbrev pub kept_rows : BatchSummary → ℕ
kept_rows sum = sum.accepted + sum.duplicates

pub classified_rows :
    (r : Result Error (Transaction × Bool)) (sum : BatchSummary)
    → kept_rows (tally (classify_outcome r).2 (count_row sum)) ≡ done_by r + kept_rows sum
unfolding classify_outcome
classified_rows (ok (stored, true)) sum = omega arith
classified_rows (ok (stored, false)) sum = omega arith
classified_rows (err e) sum = elim (Bool-cases (is e not_found)) [
  | inl missing ↦ rw missing (omega arith)
  | inr found ↦ elim (Bool-cases (is e insufficient_balance)) [
    | inl short ↦ rw (found, short) (omega arith)
    | inr enough ↦ rw (found, enough) (omega arith)
  ]
]

pub tally_duplicates :
    (b : Bucket) (sum : BatchSummary) → sum.duplicates ≤ (tally b (count_row sum)).duplicates
tally_duplicates b sum = ground arith

row_settled-le :
    (db db' : Db) (row : Result String Transaction)
    → Grows db db'
    → (if row_settled db row then 1 else 0) ≤ (if row_settled db' row then 1 else 0)
unfolding Grows
row_settled-le db db' (err _) grows = omega arith
row_settled-le db db' (ok t) grows = elim (Bool-cases (replays t db)) [
  | inl settled ↦ rw (settled, grows t settled) (omega arith)
  | inr new ↦ rw new (omega arith)
]

pub settled_at-le :
    (db db' : Db) (line : Line) → Grows db db' → settled_at db line ≤ settled_at db' line
settled_at-le db db' broken grows = omega arith
settled_at-le db db' (fields rec) grows = row_settled-le db db' (parse_row rec) grows

pub settled_lines-le :
    (db db' : Db) (lines : List Line)
    → Grows db db'
    → settled_lines db lines ≤ settled_lines db' lines
settled_lines-le db db' [] grows = omega arith
settled_lines-le db db' (line ∷ lines) grows =
    omega (arith, settled_at-le db db' line grows, settled_lines-le db db' lines grows)
