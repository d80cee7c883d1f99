-- ===== src/Http/Batch/Counts.antt =====
-- The summary of a batch, and what a row that parses holds.
use gowallet.Prelude.{
  ℕ, suc, ◌+◌, ◌<◌, eqb, ltb, leb, String, ◌≡◌, refl, sym, eq_iff, ◌⊎◌, inl, inr, Option, none,
  some, List, [], ◌∷◌, Bool, true, false, Result, ok, err, arith, length, Bool-cases,
}
use Prim.Native.Char.{code}
use mathlib.Core.Path.{subst}
use gowallet.Prelude.Int.{ℤ, pos, pos_part, ◌≤ℤ◌, int64_limit, InInt64}
use gowallet.Wallet.{Kind, earn, spend, Transaction, Time}
use gowallet.Http.Response.{BatchSummary}
use gowallet.Http.Server.{Server}
use gowallet.Http.Text.{parse_int, trim_space, in_int64, unsigned}
use gowallet.Http.Time.{parse_time}
use gowallet.Http.Batch.{
  Line, fields, broken, Bucket, accepted_bucket, rejected_bucket, duplicate_bucket, tally,
  count_row, process_parsed, process_line, process_lines, no_rows_yet, parse_row, parse_kind,
  at_least_one, parsed,
}

-- Each counted row is in exactly one bucket.
abbrev pub IsBalanced : ℕ → BatchSummary → Type 0
IsBalanced n sum =
    (sum.processed ≡ n) × (sum.accepted + sum.rejected + sum.duplicates ≡ sum.processed)

tally-IsBalanced :
    (n : ℕ) (sum : BatchSummary) (bucket : Bucket)
    → IsBalanced n sum
    → IsBalanced (suc n) (tally bucket (count_row sum))
tally-IsBalanced n sum accepted_bucket h = omega arith
tally-IsBalanced n sum rejected_bucket h = omega arith
tally-IsBalanced n sum duplicate_bucket h = omega arith

module _ {S : Type 0} (srv : Server S) where
  process_parsed-IsBalanced :
      (n : ℕ) (r : Result String Transaction) (rec : List String) (sum : BatchSummary) (s : S)
      → IsBalanced n sum
      → IsBalanced (suc n) (process_parsed srv r rec (count_row sum, s)).0
  unfolding process_parsed
  process_parsed-IsBalanced n (err reason) rec sum s h = tally-IsBalanced n sum rejected_bucket h
  process_parsed-IsBalanced n (ok t) rec sum s h = tally-IsBalanced n sum _ h

  process_line-IsBalanced :
      (n : ℕ) (line : Line) (sum : BatchSummary) (s : S)
      → IsBalanced n sum
      → IsBalanced (suc n) (process_line srv line (sum, s)).0
  unfolding process_line
  process_line-IsBalanced n broken sum s h = tally-IsBalanced n sum rejected_bucket h
  process_line-IsBalanced n (fields rec) sum s h =
      process_parsed-IsBalanced n (parse_row rec) rec sum s h

  process_lines_from :
      (n : ℕ) (lines : List Line) (sum : BatchSummary) (s : S)
      → IsBalanced n sum
      → IsBalanced (length lines + n) (process_lines srv lines (sum, s)).0
  unfolding process_lines
  process_lines_from n [] sum s h = omega arith
  process_lines_from n (line ∷ lines) sum s h =
      let (sum', s') = process_line srv line (sum, s) in
      let rest =
        process_lines_from (suc n) lines sum' s' (process_line-IsBalanced n line sum s h) in
      omega (arith, rest)

  -- However the services answer, the summary of a batch counts every line after the header once as
  -- processed, broken lines included, and each of them in exactly one of accepted, rejected and
  -- duplicates.
  pub process_lines-IsBalanced :
      (lines : List Line) (s : S)
      → IsBalanced (length lines) (process_lines srv lines (no_rows_yet, s)).0
  process_lines-IsBalanced lines s =
      let rest = process_lines_from 0 lines no_rows_yet s (refl, refl) in omega (arith, rest)

abbrev IsRange : Option ℤ → Type 0
IsRange none = Unit
IsRange (some n) = InInt64 n

in_int64-IsRange : (negative : Bool) (n : Option ℕ) → IsRange (in_int64 negative n)
in_int64-IsRange negative none = tt
in_int64-IsRange false (some n) = elim (Bool-cases (ltb n int64_limit)) [
  | inl small ↦ rw small (ground arith)
  | inr large ↦ rw large tt
]
in_int64-IsRange true (some n) = elim (Bool-cases (leb n int64_limit)) [
  | inl small ↦ rw small (ground arith)
  | inr large ↦ rw large tt
]

parse_int-IsRange : (s : String) → IsRange (parse_int s)
unfolding parse_int
parse_int-IsRange String.[] = tt
parse_int-IsRange (String.◌∷◌ c s) = elim (Bool-cases (eqb (code c) b'+')) [
  | inl plus ↦ rw plus (in_int64-IsRange false (unsigned s))
  | inr no_plus ↦ elim (Bool-cases (eqb (code c) b'-')) [
    | inl minus ↦ rw (no_plus, minus) (in_int64-IsRange true (unsigned s))
    | inr digits ↦ rw (no_plus, digits) (in_int64-IsRange false (unsigned (String.◌∷◌ c s)))
  ]
]

-- A field that `parse_int` accepts is an int64.
parse_int-InInt64 : (s : String) (n : ℤ) → parse_int s ≡ some n → InInt64 n
parse_int-InInt64 s n h = subst IsRange h (parse_int-IsRange s)

-- What a parsed row says, against the five fields of its record.
pub record IsRow (rec : List String) (t : Transaction) : Type 0 where
  pub kind : String
  pub points : String
  pub at : String
  pub five : rec ≡ t.ref ∷ t.account_id ∷ kind ∷ points ∷ at ∷ []
  pub kind_known : ((kind ≡ "earn") × (t.kind ≡ earn)) ⊎ ((kind ≡ "spend") × (t.kind ≡ spend))
  pub points_read : parse_int (trim_space points) ≡ some t.points
  pub positive : pos 1 ≤ℤ t.points
  pub small : pos_part t.points < int64_limit
  pub time_read : parse_time (trim_space at) ≡ some t.occurred_at
  pub no_reward : t.reward ≡ ""

parse_kind-cases :
    (s : String) (k : Kind)
    → some k ≡ parse_kind s
    → ((s ≡ "earn") × (k ≡ earn)) ⊎ ((s ≡ "spend") × (k ≡ spend))
unfolding parse_kind
parse_kind-cases s k h = ground (arith, eq_iff s "earn", eq_iff s "spend")

at_least_one-some : (r : Option ℤ) (p : ℤ) → some p ≡ at_least_one r → (r ≡ some p) × (pos 1 ≤ℤ p)
unfolding at_least_one
at_least_one-some none p h = ground arith
at_least_one-some (some n) p h = ground arith

ok-injective : {A : Type 0} (x y : A) → ◌≡◌ {A = Result String A} (ok x) (ok y) → x ≡ y
ok-injective x y h = ground arith

parsed-IsRow :
    (ref account_id kind points at : String) (k : Option Kind) (p : Option ℤ) (o : Option Time)
    (t : Transaction)
    → k ≡ parse_kind kind
    → p ≡ at_least_one (parse_int (trim_space points))
    → o ≡ parse_time (trim_space at)
    → parsed ref account_id k p o ≡ ok t
    → IsRow (ref ∷ account_id ∷ kind ∷ points ∷ at ∷ []) t
unfolding parsed
parsed-IsRow ref account_id kind points at (some k) (some p) (some o) t ek ep eo h =
    let (read, positive) = at_least_one-some (parse_int (trim_space points)) p ep in
    let range : InInt64 p = parse_int-InInt64 (trim_space points) p read in
    subst (IsRow (ref ∷ account_id ∷ kind ∷ points ∷ at ∷ [])) (ok-injective _ t h) (record {
      kind = kind;
      points = points;
      at = at;
      five = refl;
      kind_known = parse_kind-cases kind k ek;
      points_read = read;
      positive = positive;
      small = omega arith;
      time_read = sym eo;
      no_reward = refl;
    })
parsed-IsRow ref account_id kind points at none p o t ek ep eo h = ground arith
parsed-IsRow ref account_id kind points at (some k) none o t ek ep eo h = ground arith
parsed-IsRow ref account_id kind points at (some k) (some p) none t ek ep eo h = ground arith

-- A record that `parse_row` accepts has five fields, and gives the ref and the account as they are,
-- the kind earn or spend that it spells, at least 1 and less than 2^63 points, and no reward.
pub parse_row-IsRow : (rec : List String) (t : Transaction) → parse_row rec ≡ ok t → IsRow rec t
unfolding parse_row
parse_row-IsRow (ref ∷ account_id ∷ kind ∷ points ∷ at ∷ []) t h =
    parsed-IsRow ref account_id kind points at _ _ _ t refl refl refl h
parse_row-IsRow [] t h = ground arith
parse_row-IsRow (a ∷ []) t h = ground arith
parse_row-IsRow (a ∷ b ∷ []) t h = ground arith
parse_row-IsRow (a ∷ b ∷ c ∷ []) t h = ground arith
parse_row-IsRow (a ∷ b ∷ c ∷ d ∷ []) t h = ground arith
parse_row-IsRow (a ∷ b ∷ c ∷ d ∷ e ∷ f ∷ rest) t h = ground arith
