-- ===== src/Store/Ledger/Outcome.antt =====
-- What a call of `RecordTransaction` can have done, whatever driver calls failed on the way.
use gowallet.Prelude.{
  ℕ, String, ◌≡◌, refl, ◌∙◌, ap, ◌⊎◌, inl, inr, none, some, Bool, true, false, not, Result, ok, err,
  ◌>>=◌, ◌>>◌, continue, fail, pure, arith, ◌==◌, eqb, any, ◌∷◌, Bool-cases, Option-cases,
  if◌then◌else◌, eq_refl,
}
use gowallet.Prelude.Int.{ℤ, pos, ◌≤ℤ◌, ltb_ℤ}
use gowallet.Wallet.{Transaction, Error, sentinel, insufficient_balance, Call}
use gowallet.Store.Db.{Db, Stamp, TransactionRow, format}
use gowallet.Store.Queries.{
  SqlError, kind_allowed, new_row, add_row, transaction_row, insert_transaction, account_exists,
  balance_for_account, get_transaction_by_ref,
}
use gowallet.Store.Session.{World, read, driver_call, wrapping, in_tx, settle}
use gowallet.Store.Session.Steps.{SameData, read_then, write_then, call_then, driver_call_cases}
use gowallet.Store.Ledger.{
  null_string, is_deduction, stored_of, insert, refuse, guard_balance, record_body,
  record_transaction,
}

-- The row that `t` is stored as.
abbrev pub row_of : Transaction → Stamp → Db → TransactionRow
row_of t now db =
    new_row now t.ref t.account_id t.kind t.points (null_string t.reward) (format t.occurred_at) db

-- The ref was known: its first row came back.
pub record Replayed (t : Transaction) (db : Db) (stored : Transaction) : Type 0 where
  pub row : TransactionRow
  pub found : transaction_row t.ref db.transactions ≡ some row
  pub returned : stored ≡ stored_of row

-- The balance after a fresh deduction was read, and is not negative.
pub record Covered (account_id : String) (db : Db) : Type 0 where
  pub amount : ℤ
  pub summed : balance_for_account account_id db ≡ ok amount
  pub nonneg : pos 0 ≤ℤ amount

-- The ref was new: one row was added, with every constraint met.
pub record Created (t : Transaction) (now : Stamp) (db db' : Db) (stored : Transaction)
    : Type 0 where
  pub fresh : transaction_row t.ref db.transactions ≡ none
  pub known : any (λ r. r.account_id == t.account_id) db.accounts ≡ true
  pub allowed : kind_allowed t.kind ≡ true
  pub positive : pos 1 ≤ℤ t.points
  pub added : db' ≡ add_row (row_of t now db) db
  pub returned : stored ≡ stored_of (row_of t now db)
  pub covered : is_deduction t.kind ≡ true → Covered t.account_id db'

abbrev Inserted : Transaction → Stamp → Db → ℕ → Db → Type 0
Inserted t now db n db' =
    ((n ≡ 0)
      × (db' ≡ db)
      × ((row : TransactionRow) × (transaction_row t.ref db.transactions ≡ some row)))
    ⊎ ((n ≡ 1)
        × (transaction_row t.ref db.transactions ≡ none)
        × (any (λ r. r.account_id == t.account_id) db.accounts ≡ true)
        × (kind_allowed t.kind ≡ true)
        × (pos 1 ≤ℤ t.points)
        × (db' ≡ add_row (row_of t now db) db))

insert_cases :
    (t : Transaction) (now : Stamp) (db db' : Db) (n : ℕ)
    → insert_transaction now t.ref t.account_id t.kind t.points
        (null_string t.reward)
        (format t.occurred_at)
        db
      ≡ ok (n, db')
    → Inserted t now db n db'
unfolding insert_transaction
insert_cases t now db db' n h = elim (Option-cases (transaction_row t.ref db.transactions)) [
  | inl fresh ↦ ground (arith, fresh)
  | inr (row, found) ↦ inl (ground (arith, found), ground (arith, found), (row, found))
]

module _ {B : Type 0} (to_error : SqlError → Error) (Q : Result Error B × World → Type 0) where
  refuse_then :
      (rest : Call World B) (w : World)
      → ((e : Error) (w' : World) → w'.db ≡ w.db → Q (err e, w'))
      → Q ((refuse to_error >> rest) w)
  unfolding refuse
  refuse_then rest w on_error =
      call_then to_error "rollback spend" (λ _. fail (sentinel insufficient_balance))
        (λ r. Q (continue (λ _. rest) fail r.0 r.1)) w on_error
        (λ w' same. on_error (sentinel insufficient_balance) w' same.db)

  guard_then :
      (fresh : Bool) (t : Transaction) (rest : Call World B) (w : World)
      → ((e : Error) (w' : World) → w'.db ≡ w.db → Q (err e, w'))
      → ((w' : World)
          → SameData w w'
          → (fresh ≡ true → is_deduction t.kind ≡ true → Covered t.account_id w.db)
          → Q (rest w'))
      → Q ((guard_balance to_error fresh t >> rest) w)
  unfolding guard_balance
  guard_then false t rest w on_error on_value =
      on_value w (record { db = refl; now = refl }) (λ e. cc)
  guard_then true t rest w on_error on_value = elim (Bool-cases (is_deduction t.kind)) [
    | inr other_kind ↦ rw other_kind (on_value w (record { db = refl; now = refl }) (λ _ e. cc))
    | inl deduction ↦ rw deduction (
        read_then to_error "balance check"
          (λ amount. if ltb_ℤ amount (pos 0) then refuse to_error else pure tt)
          (λ r. Q (continue (λ _. rest) fail r.0 r.1)) (balance_for_account t.account_id) w on_error
          λ amount w' summed same. elim (Bool-cases (ltb_ℤ amount (pos 0))) [
            | inl negative ↦
                rw negative (refuse_then rest w' λ e w'' same'. on_error e w'' (same' ∙ same.db))
            | inr enough ↦ rw enough (
                on_value w' same
                  λ _ _. record { amount = amount; summed = summed; nonneg = ground arith })
          ])
  ]

abbrev Body : Transaction → World → Result Error (Transaction × Bool) × World → Type 0
Body t w (err _, _) = Unit
Body t w (ok (stored, false), w') = (w'.db ≡ w.db) × Replayed t w.db stored
Body t w (ok (stored, true), w') = Created t w.now w.db w'.db stored

-- The row that `get_transaction_by_ref` finds after the insertion is the inserted one.
newest_row :
    (t : Transaction) (now : Stamp) (db : Db) (row : TransactionRow)
    → transaction_row t.ref (row_of t now db ∷ db.transactions) ≡ some row
    → row ≡ row_of t now db
unfolding transaction_row
newest_row t now db row h = cc (eq_refl t.ref)

row_found :
    (ref : String) (row : TransactionRow) (db : Db)
    → get_transaction_by_ref ref db ≡ ok row
    → transaction_row ref db.transactions ≡ some row
unfolding get_transaction_by_ref
row_found ref row db h = ground arith

-- The stored row is read back inside the same transaction.
read_back :
    (t : Transaction) (w w' : World) (n : ℕ) (row : TransactionRow)
    → Inserted t w.now w.db n w'.db
    → transaction_row t.ref w'.db.transactions ≡ some row
    → (eqb n 1 ≡ true → is_deduction t.kind ≡ true → Covered t.account_id w'.db)
    → Body t w (ok (stored_of row, eqb n 1), w')
read_back t w w' n row (inl (zero_rows, same, (first, found))) back covered =
    rw zero_rows (same, record { row = row; found = rw same at back; returned = refl })
read_back t w w' n row (inr (one_row, fresh, known, allowed, positive, added)) back covered =
    rw one_row (record {
      fresh = fresh;
      known = known;
      allowed = allowed;
      positive = positive;
      added = added;
      returned = ap stored_of (newest_row t w.now w.db row (rw added at back));
      covered = covered (rw one_row);
    })

-- The steps after the insertion change nothing but may fail.
finish :
    (to_error : SqlError → Error) (t : Transaction) (w w2 : World) (affected : ℕ)
    → Inserted t w.now w.db affected w2.db
    → Body t w (
        (wrapping to_error "rows affected" driver_call
            >> (guard_balance to_error (eqb affected 1) t
                >> (wrapping to_error "get transaction by ref" (read (get_transaction_by_ref t.ref))
                    >>= λ row.
                        wrapping to_error "commit" driver_call
                        >> pure (stored_of row, eqb affected 1))))
          w2)
finish to_error t w w2 affected inserted =
    call_then to_error "rows affected" _ (Body t w) w2 (λ _ _ _. tt)
      λ w3 same3.
        guard_then to_error (Body t w) (eqb affected 1) t _ w3 (λ _ _ _. tt)
          λ w4 same4 covered.
            read_then to_error "get transaction by ref" _ (Body t w) (get_transaction_by_ref t.ref)
              w4 (λ _ _ _. tt)
              λ row w5 found same5.
                call_then to_error "commit" _ (Body t w) w5 (λ _ _ _. tt)
                  λ w6 same6.
                    let e : w6.db ≡ w2.db = same6.db ∙ same5.db ∙ same4.db ∙ same3.db in
                    let e4 : w6.db ≡ w4.db = same6.db ∙ same5.db in
                    read_back t w w6 affected row (rw e inserted)
                      (rw e4 (row_found t.ref row w4.db found))
                      (λ one deduction. rw (same6.db ∙ same5.db ∙ same4.db) (covered one deduction))

record_body-Body :
    (to_error : SqlError → Error) (t : Transaction) (w : World)
    → Body t w (record_body to_error t w)
unfolding record_body insert
record_body-Body to_error t w =
    read_then to_error "account exists" _ (Body t w) (account_exists t.account_id) w (λ _ _ _. tt)
      λ exists w1 _ same1. elim (Bool-cases (not exists)) [
        | inl missing ↦ rw missing tt
        | inr known ↦ rw known (
            write_then to_error "insert transaction" _ (Body t w)
              (insert_transaction w1.now t.ref t.account_id t.kind t.points (null_string t.reward)
                (format t.occurred_at))
              w1 (λ _ _ _. tt)
              λ affected w2 done _.
                finish to_error t w w2 affected
                  (insert_cases t w.now w.db w2.db affected (rw (← same1.db, ← same1.now) done)))
      ]

-- What a call has done, by how it ended: an error changes nothing, a replay changes nothing and
-- returns the first row, and a creation adds one row.
abbrev pub Recorded : Transaction → World → Result Error (Transaction × Bool) × World → Type 0
Recorded t w (err _, w') = w'.db ≡ w.db
Recorded t w (ok (stored, false), w') = (w'.db ≡ w.db) × Replayed t w.db stored
Recorded t w (ok (stored, true), w') = Created t w.now w.db w'.db stored

settle-Recorded :
    (t : Transaction) (w w0 : World) (r : Result Error (Transaction × Bool)) (w' : World)
    → SameData w w0
    → Body t w0 (r, w')
    → Recorded t w (settle w.db (r, w'))
settle-Recorded t w w0 (err _) w' same h = refl
settle-Recorded t w w0 (ok (stored, false)) w' same h = rw (← same.db) h
settle-Recorded t w w0 (ok (stored, true)) w' same h = rw (← same.db, ← same.now) h

-- Whatever driver calls fail: a call of `record_transaction` that returns an error leaves the
-- database as it was; one that returns created=false leaves it too, and returns the row first stored
-- under the ref; one that returns created=true found the ref new and the account known, the points
-- positive and the kind one of the three, has added exactly the row of `t` with the next id, and, for
-- a spend or a redeem, has read a balance with that row that is not negative.
pub record_transaction-Recorded :
    (to_error : SqlError → Error) (t : Transaction) (w : World)
    → Recorded t w (record_transaction to_error t w)
unfolding record_transaction in_tx wrapping
record_transaction-Recorded to_error t w = elim (driver_call_cases w) [
  | inr (e, w', called, same) ↦ rw called refl
  | inl (w', called, same) ↦
      rw called (settle-Recorded t w w' _ _ same (record_body-Body to_error t w'))
]
