-- ===== src/Store/Migrations/Copy.antt =====
-- Copying the rows of a valid transactions table into the rebuilt one.
use gowallet.Prelude.{
  ℕ, suc, ◌≤◌, ◌<◌, ◌≡◌, refl, inl, inr, List, [], ◌∷◌, none, false, ◌||◌, ok, map, arith, any, eqb,
  All, ◌==◌, Bool-cases,
}
use gowallet.Prelude.Int.{pos, leb_ℤ}
use gowallet.Store.Db.{Db, AccountRow, TransactionRow}
use gowallet.Store.Queries.{transaction_row}
use gowallet.Store.Invariant.{IsLegal, IsValid, HasDistinctRefs, HasFallingIds}
use gowallet.Store.Migrations.{
  CredentialTables, rebuilt, s8_up, FirstTransaction, with_reward, add_copy, copy_rows, largest_id,
}

HasFallingIds-le :
    (low high : ℕ) (rows : List TransactionRow)
    → low ≤ high
    → HasFallingIds low rows
    → HasFallingIds high rows
HasFallingIds-le low high [] le h = tt
HasFallingIds-le low high (r ∷ older) le h = (omega arith, h.1)

smaller : (m n : ℕ) → m < n → eqb m n ≡ false
smaller m n h = ground arith

-- A row with a greater id and a new ref meets no other.
unmet :
    (row : TransactionRow) (rows : List TransactionRow)
    → transaction_row row.ref rows ≡ none
    → HasFallingIds row.id rows
    → any (λ r. eqb r.id row.id || r.ref == row.ref) rows ≡ false
unfolding transaction_row
unmet row [] fresh falling = refl
unmet row (r ∷ older) fresh falling = elim (Bool-cases (r.ref == row.ref)) [
  | inl same ↦ cc (fresh, same)
  | inr different ↦
      rw (different, smaller r.id row.id falling.0)
        (unmet row older (rw different at fresh)
          (HasFallingIds-le r.id row.id older (omega (arith, falling.0)) falling.1))
]

add_copy-ok :
    (accounts : List AccountRow) (row : TransactionRow) (rows : List TransactionRow)
    → IsLegal accounts row
    → transaction_row row.ref rows ≡ none
    → HasFallingIds row.id rows
    → add_copy accounts row rows ≡ ok (row ∷ rows)
unfolding add_copy
add_copy-ok accounts row rows legal fresh falling =
    let positive : leb_ℤ row.points (pos 0) ≡ false = ground (arith, legal.positive) in
    rw (legal.allowed, positive, unmet row rows fresh falling, legal.known) refl

copy_rows-ok :
    (accounts : List AccountRow) (rows : List FirstTransaction) (bound : ℕ)
    → All (IsLegal accounts) (map with_reward rows)
    → HasDistinctRefs (map with_reward rows)
    → HasFallingIds bound (map with_reward rows)
    → copy_rows accounts rows ≡ ok (map with_reward rows)
unfolding copy_rows
copy_rows-ok accounts [] bound legal distinct falling = refl
copy_rows-ok accounts (r ∷ older) bound legal distinct falling =
    rw (copy_rows-ok accounts older r.id legal.1 distinct.1 falling.1)
      (add_copy-ok accounts (with_reward r) (map with_reward older) legal.0 distinct.0 falling.1)

largest_id-HasFallingIds :
    (bound : ℕ) (rows : List TransactionRow)
    → HasFallingIds bound rows
    → HasFallingIds (suc (largest_id rows)) rows
largest_id-HasFallingIds bound [] h = tt
largest_id-HasFallingIds bound (r ∷ older) h = (omega arith, h.1)

-- The tables of S6, with the later column at its default.
abbrev pub as_rebuilt : CredentialTables → Db
as_rebuilt t = record {
  accounts = t.accounts;
  transactions = map with_reward t.audited.ledger.transactions;
  transaction_seq = t.audited.ledger.transaction_seq;
  audit_log = t.audited.audit_log;
  audit_seq = t.audited.audit_seq;
}

pub rebuilt-IsValid :
    (t : CredentialTables)
    → IsValid (as_rebuilt t)
    → IsValid (rebuilt t (map with_reward t.audited.ledger.transactions))
rebuilt-IsValid t valid = record {
  legal = valid.legal;
  known_roles = valid.known_roles;
  distinct_refs = valid.distinct_refs;
  falling_ids =
      largest_id-HasFallingIds _ (map with_reward t.audited.ledger.transactions) valid.falling_ids;
  known_outcomes = valid.known_outcomes;
  falling_audit = valid.falling_audit;
  solvent = valid.solvent;
}

pub s8_up-rebuilt :
    (t : CredentialTables)
    → IsValid (as_rebuilt t)
    → s8_up t ≡ ok (rebuilt t (map with_reward t.audited.ledger.transactions))
unfolding s8_up
s8_up-rebuilt t valid =
    rw
      (
        copy_rows-ok t.accounts t.audited.ledger.transactions _ valid.legal valid.distinct_refs
            valid.falling_ids,
        s8_up,
      )
      refl
