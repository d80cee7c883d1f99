-- ===== src/Store/Book/Refinement.antt =====
-- `RecordTransaction` against the book.
use gowallet.Prelude.{
  ℕ, ◌+◌, ◌-◌, ◌≤◌, ◌<◌, String, ◌≡◌, refl, ap, inl, inr, none, some, ◌∷◌, Bool, true, false, not,
  Result, ok, map_err, arith, ◌==◌, leb, ltb, Bool-cases, Option-cases, if◌then◌else◌,
}
use mathlib.Core.Path.{fun_ext}
use gowallet.Prelude.Int.{pos, pos_part, ◌≤ℤ◌, int64_limit}
use gowallet.Wallet.{Kind, earn, spend, redeem, other, Transaction, Sentinel, Error, sentinel}
use gowallet.Store.Db.{Db, Stamp}
use gowallet.Store.Queries.{SqlError, kind_allowed, transaction_row, add_row}
use gowallet.Store.Session.{World}
use gowallet.Store.Ledger.{record_transaction, stored_of, is_deduction}
use gowallet.Store.Ledger.Outcome.{row_of}
use gowallet.Store.Ledger.Calm.{calm, is_known, record_unknown, record_replay, record_fresh}
use gowallet.Store.Ledger.Exact.{record_deduction_exact}
use gowallet.Store.Ledger.Replay.{string_of-null_string}
use gowallet.Store.Totals.{earned, deducted, earned_by, deducted_by}
use gowallet.Store.Invariant.{IsValid}
use gowallet.Store.Book.{Book, book_of, as_stored, enter, submit, new_balance, kept}

-- The result is the book's, and the database holds the book that the book's step leaves.
abbrev pub Refines :
    Result Error (Transaction × Bool) × World → Result Sentinel (Transaction × Bool) × Book → Type 0
Refines (r, w) (r', b) = (r ≡ map_err sentinel r') × (book_of w.db ≡ b)

new_balance_lem :
    (k : Kind) (p e d : ℕ)
    → kind_allowed k ≡ true
    → d ≤ e
    → (earned_by k p + e) - (deducted_by k p + d) ≡ new_balance k p (e - d)
new_balance_lem earn p e d allowed solvent = omega arith
new_balance_lem spend p e d allowed solvent = omega arith
new_balance_lem redeem p e d allowed solvent = omega arith
new_balance_lem (other _) p e d allowed solvent = cc

-- The book of one more row, field by field.
module _ (t : Transaction) (now : Stamp) (db : Db) where
  stored_of-row_of-kept : stored_of (row_of t now db) ≡ kept t
  unfolding stored_of
  stored_of-row_of-kept = rw (string_of-null_string t.reward) refl

  stored-add_row :
      (ref : String)
      → as_stored (transaction_row ref (row_of t now db ∷ db.transactions))
        ≡ (if t.ref == ref then some (kept t) else as_stored (transaction_row ref db.transactions))
  unfolding transaction_row
  stored-add_row ref = elim (Bool-cases (t.ref == ref)) [
    | inl same ↦ rw same (ap some stored_of-row_of-kept)
    | inr different ↦ rw different refl
  ]

  balance-add_row :
      (id : String)
      → kind_allowed t.kind ≡ true
      → deducted id db.transactions ≤ earned id db.transactions
      → (book_of (add_row (row_of t now db) db)).balance id ≡ (enter t (book_of db)).balance id
  unfolding book_of enter
  balance-add_row id allowed solvent = elim (Bool-cases (t.account_id == id)) [
    | inl mine ↦ rw mine (new_balance_lem t.kind (pos_part t.points) _ _ allowed solvent)
    | inr other_account ↦ rw other_account (omega arith)
  ]

  book_of-add_row :
      kind_allowed t.kind ≡ true
      → IsValid db
      → book_of (add_row (row_of t now db) db) ≡ enter t (book_of db)
  unfolding book_of enter
  book_of-add_row allowed valid = λ i. record {
    known = λ id. is_known id db;
    stored = fun_ext stored-add_row i;
    balance = fun_ext (λ id. balance-add_row id allowed (valid.solvent id)) i;
  }

covers_iff : (e d p : ℕ) → d ≤ e → leb (d + p) e ≡ not (ltb (e - d) p)
covers_iff e d p h = ground arith

module _ (to_error : SqlError → Error) (t : Transaction) (db : Db) (now : Stamp)
    (valid : IsValid db) (allowed : kind_allowed t.kind ≡ true) (positive : pos 1 ≤ℤ t.points)
    (small : earned t.account_id db.transactions + pos_part t.points < int64_limit)
    (known : is_known t.account_id db ≡ true)
    (fresh : transaction_row t.ref db.transactions ≡ none) where
  earn-Refines :
      is_deduction t.kind ≡ false
      → Refines (record_transaction to_error t (calm db now)) (submit t (book_of db))
  unfolding submit book_of
  earn-Refines earn_kind =
      rw
        (
          record_fresh to_error t db now known allowed positive fresh
              (λ deduction. cc (deduction, earn_kind)),
          known,
          fresh,
          earn_kind,
        )
        (
          ap (λ x. ok (x, true)) (stored_of-row_of-kept t now db),
          book_of-add_row t now db allowed valid,
        )

  deduction-Refines :
      is_deduction t.kind ≡ true
      → Refines (record_transaction to_error t (calm db now)) (submit t (book_of db))
  unfolding submit book_of
  deduction-Refines deduction =
      let exact =
        record_deduction_exact to_error t db now valid known deduction positive (omega arith) fresh
          (omega arith) in
      let covers =
        covers_iff (earned t.account_id db.transactions) (deducted t.account_id db.transactions)
          (pos_part t.points) (valid.solvent t.account_id) in
      elim (Bool-cases (
        ltb (earned t.account_id db.transactions - deducted t.account_id db.transactions)
          (pos_part t.points))) [
            | inl short ↦ rw (exact, covers, known, fresh, deduction, short) (refl, refl)
            | inr enough ↦
                rw (exact, covers, known, fresh, deduction, enough)
                  (
                    ap (λ x. ok (x, true)) (stored_of-row_of-kept t now db),
                    book_of-add_row t now db allowed valid,
                  )
          ]

-- The store refines the book: in a valid database, with no failing driver call, a submission of a
-- legal kind and at least one point, which leaves what its account has earned below 2^63, returns
-- what the book's step returns, and the database then holds the book that the step leaves.
pub record_transaction-Refines :
    (to_error : SqlError → Error) (t : Transaction) (db : Db) (now : Stamp)
    → IsValid db
    → kind_allowed t.kind ≡ true
    → pos 1 ≤ℤ t.points
    → earned t.account_id db.transactions + pos_part t.points < int64_limit
    → Refines (record_transaction to_error t (calm db now)) (submit t (book_of db))
unfolding submit book_of
record_transaction-Refines to_error t db now valid allowed positive small =
    elim (Bool-cases (is_known t.account_id db)) [
      | inr unknown ↦ rw (record_unknown to_error t db now unknown, unknown) (refl, refl)
      | inl known ↦ elim (Option-cases (transaction_row t.ref db.transactions)) [
        | inr (row, found) ↦
            rw (record_replay to_error t db now known allowed positive row found, known, found)
              (refl, refl)
        | inl fresh ↦ elim (Bool-cases (is_deduction t.kind)) [
          | inr earn_kind ↦
              earn-Refines to_error t db now valid allowed positive small known fresh earn_kind
          | inl deduction ↦
              deduction-Refines to_error t db now valid allowed positive small known fresh deduction
        ]
      ]
    ]
