-- ===== src/Store/Totals.antt =====
-- The balance of the requirements, Σ earn − Σ spend − Σ redeem, over the rows of the transactions
-- table, and what SUM makes of it.
use gowallet.Prelude.{
  ℕ, ◌+◌, ◌-◌, ◌≤◌, ◌<◌, String, ◌≡◌, refl, ap, ◌⊎◌, inl, inr, some, List, [], ◌∷◌, true, ok, arith,
  ◌==◌, if◌then◌else◌, All, Option-cases, Bool-cases,
}
use gowallet.Prelude.Int.{
  ℤ, pos, negsuc, pos_part, neg_part, ◌+ℤ◌, ◌≤ℤ◌, neg_ℤ, add_int64, int64_limit, InInt64, +ℤ_parts,
  neg_ℤ_parts, eq_of_parts,
}
use gowallet.Wallet.{Kind, earn, spend, redeem, other}
use gowallet.Store.Db.{Db, TransactionRow}
use gowallet.Store.Queries.{signed_points, sum_points, balance_for_account}

abbrev pub earned_by : Kind → ℕ → ℕ
earned_by earn n = n
earned_by _ n = 0

abbrev pub deducted_by : Kind → ℕ → ℕ
deducted_by spend n = n
deducted_by redeem n = n
deducted_by _ n = 0

-- The points that an account has earned, and those that it has spent or redeemed.
abbrev pub earned : String → List TransactionRow → ℕ
earned id [] = 0
earned id (r ∷ older) =
    (if r.account_id == id then earned_by r.kind (pos_part r.points) else 0) + earned id older

abbrev pub deducted : String → List TransactionRow → ℕ
deducted id [] = 0
deducted id (r ∷ older) =
    (if r.account_id == id then deducted_by r.kind (pos_part r.points) else 0) + deducted id older

abbrev pub IsPositive : TransactionRow → Type 0
IsPositive r = pos 1 ≤ℤ r.points

-- A row changes a total by what it earns less what it deducts.
signed_points_parts :
    (k : Kind) (p : ℤ)
    → pos 1 ≤ℤ p
    → pos_part (signed_points k p) + deducted_by k (pos_part p)
      ≡ neg_part (signed_points k p) + earned_by k (pos_part p)
unfolding signed_points
signed_points_parts earn p h = ground arith
signed_points_parts spend p h = ground (arith, neg_ℤ_parts p)
signed_points_parts redeem p h = ground (arith, neg_ℤ_parts p)
signed_points_parts (other _) p h = ground arith

add_int64-some : (a b c : ℤ) → add_int64 a b ≡ some c → c ≡ a +ℤ b
unfolding add_int64
add_int64-some a b c h = ground arith

add_int64_in_range : (a b : ℤ) → InInt64 (a +ℤ b) → add_int64 a b ≡ some (a +ℤ b)
unfolding add_int64
add_int64_in_range a b h = ground arith

-- A sum that SQLite computes is what was earned less what was deducted.
pub sum_points_sound :
    (id : String) (rows : List TransactionRow) (total : ℤ)
    → All IsPositive rows
    → sum_points id rows ≡ some total
    → pos_part total + deducted id rows ≡ neg_part total + earned id rows
unfolding sum_points
sum_points_sound id [] total h e = ground arith
sum_points_sound id (r ∷ older) total h e = elim (Bool-cases (r.account_id == id)) [
  | inr other_account ↦
      rw other_account (omega (arith, sum_points_sound id older total h.1 (rw other_account at e)))
  | inl mine ↦ elim (Option-cases (sum_points id older)) [
    | inl overflow ↦ ground (arith, mine, overflow)
    | inr (before, found) ↦
        let added =
          add_int64-some before (signed_points r.kind r.points) total (rw (mine, found) at e) in
        rw mine (
          omega (
            arith,
            sum_points_sound id older before h.1 found,
            signed_points_parts r.kind r.points h.0,
            +ℤ_parts before (signed_points r.kind r.points),
            ap pos_part added,
            ap neg_part added,
          ))
  ]
]

-- A normal form for the parts of an integer: one of them is zero.
parts_normal : (a : ℤ) → (pos_part a ≡ 0) ⊎ (neg_part a ≡ 0)
parts_normal (pos n) = inr refl
parts_normal (negsuc n) = inl refl

-- One more row stays within 64 bits if the totals do.
next_in_range :
    (before p : ℤ) (k : Kind) (e d : ℕ)
    → pos 1 ≤ℤ p
    → pos_part before + d ≡ neg_part before + e
    → earned_by k (pos_part p) + e < int64_limit
    → deducted_by k (pos_part p) + d < int64_limit
    → InInt64 (before +ℤ signed_points k p)
next_in_range before p k e d positive before_eq el dl = omega (
  arith,
  signed_points_parts k p positive,
  +ℤ_parts before (signed_points k p),
  parts_normal (before +ℤ signed_points k p),
)

add_row_sum :
    (id : String) (r : TransactionRow) (older : List TransactionRow)
    → All IsPositive (r ∷ older)
    → earned id (r ∷ older) < int64_limit
    → deducted id (r ∷ older) < int64_limit
    → ((total : ℤ) × (sum_points id older ≡ some total))
    → (total : ℤ) × (sum_points id (r ∷ older) ≡ some total)
unfolding sum_points
add_row_sum id r older h e d (before, found) = elim (Bool-cases (r.account_id == id)) [
  | inr other_account ↦ (before, rw (other_account, found))
  | inl mine ↦ (
    before +ℤ signed_points r.kind r.points,
    rw (mine, found)
        (add_int64_in_range before (signed_points r.kind r.points) (
          next_in_range before r.points r.kind (earned id older) (deducted id older) h.0
            (sum_points_sound id older before h.1 found) (rw mine at e) (rw mine at d))),
  )
]

-- Within 64 bits the sum is computed.
pub sum_points_complete :
    (id : String) (rows : List TransactionRow)
    → All IsPositive rows
    → earned id rows < int64_limit
    → deducted id rows < int64_limit
    → (total : ℤ) × (sum_points id rows ≡ some total)
unfolding sum_points
sum_points_complete id [] h e d = (pos 0, refl)
sum_points_complete id (r ∷ older) h e d =
    add_row_sum id r older h e d (sum_points_complete id older h.1 (omega arith) (omega arith))

-- With no more deducted than earned, and less than 2^63 earned, the balance query returns what was
-- earned less what was deducted.
pub balance_for_account-exact :
    (id : String) (db : Db)
    → All IsPositive db.transactions
    → deducted id db.transactions ≤ earned id db.transactions
    → earned id db.transactions < int64_limit
    → balance_for_account id db ≡ ok (pos (earned id db.transactions - deducted id db.transactions))
unfolding balance_for_account
balance_for_account-exact id db h solvent small =
    let (total, found) = sum_points_complete id db.transactions h small (omega arith) in
    let sound = sum_points_sound id db.transactions total h found in
    rw found (ap ok (eq_of_parts total (pos _) (omega arith)))

neg_ℤ_positive : (p : ℤ) → pos 1 ≤ℤ p → (pos_part (neg_ℤ p) ≡ 0) × (neg_part (neg_ℤ p) ≡ pos_part p)
unfolding neg_ℤ
neg_ℤ_positive p h = ground arith

-- One more deduction on a readable balance that is not negative is summed without an overflow.
pub sum_points-deduction :
    (id : String) (r : TransactionRow) (older : List TransactionRow) (b : ℕ)
    → (r.account_id == id) ≡ true
    → signed_points r.kind r.points ≡ neg_ℤ r.points
    → IsPositive r
    → pos_part r.points < int64_limit
    → b < int64_limit
    → sum_points id older ≡ some (pos b)
    → (total : ℤ) × (sum_points id (r ∷ older) ≡ some total)
      × (pos_part total + pos_part r.points ≡ neg_part total + b)
unfolding sum_points
sum_points-deduction id r older b mine negated positive small bound found =
    let total = pos b +ℤ neg_ℤ r.points in
    let parts = +ℤ_parts (pos b) (neg_ℤ r.points) in
    let negative = neg_ℤ_positive r.points positive in
    let fits : InInt64 total = omega (arith, parts, negative, parts_normal total) in
    (
      total,
      rw (mine, negated, found) (add_int64_in_range (pos b) (neg_ℤ r.points) fits),
      omega (arith, parts, negative),
    )
