-- ===== src/Store/Listing.antt =====
-- The listings of internal/sqlitestore: order and contents.
pub mod Audit
pub mod Roles
use gowallet.Prelude.{
  ℕ, suc, ◌≤◌, String, ◌≡◌, refl, inl, inr, some, List, [], ◌∷◌, true, Result, ok, err, arith, ◌==◌,
  keep, map, ap, ◌∙◌, sym, All, Bool-cases, Option-cases, Result-cases, leb,
}
use mathlib.Core.List.{Perm}
use mathlib.Core.List.Perm
use mathlib.Core.Path.{subst}
use gowallet.Prelude.Int.{ℤ}
use gowallet.Prelude.Sort.{HasFalling-IsSorted, sort-eq_of_IsSorted, sort, sort-perm}
use gowallet.Wallet.{AccountSummary, Transaction, Error}
use gowallet.Wallet.Auth.{parse_role}
use gowallet.Store.Db.{Db, Stamp, AccountRow, TransactionRow, parse}
use gowallet.Store.Queries.{
  sum_points, with_balances, balance_for_account, account_exists, list_transactions_by_account,
  list_accounts_with_balance, transaction_after, account_before,
}
use gowallet.Store.Session.{World, read, driver_call, wrapping}
use gowallet.Store.Session.Steps.{read_then}
use gowallet.Store.Driver.{Driver}
use gowallet.Store.Accounts.{to_error, list_transactions, list_accounts, summaries, entries}
use gowallet.Store.Ledger.Calm.{calm, is_known}
use gowallet.Store.Invariant.{IsValid}

list_transactions-entries :
    (driver : Driver) (id : String) (db : Db) (now : Stamp)
    → IsValid db
    → is_known id db ≡ true
    → list_transactions driver id (calm db now)
      ≡ (ok (entries driver id (keep (λ r. r.account_id == id) db.transactions)), calm db now)
unfolding list_transactions account_exists read driver_call list_transactions_by_account wrapping
list_transactions-entries driver id db now valid known =
    simp
      (
        known,
        sort-eq_of_IsSorted transaction_after (keep (λ r. r.account_id == id) db.transactions) (
            HasFalling-IsSorted (λ r. r.id) (λ r. r.account_id == id) _ db.transactions
              valid.falling_ids),
      )
      refl

-- The listed transactions say of the rows, one for one and in their order, what the rows say; the
-- reward is not listed, and the time is the stored one.
pub record IsListing (id : String) (rows : List TransactionRow) (out : List Transaction)
    : Type 0 where
  pub refs : map (λ t. t.ref) out ≡ map (λ r. r.ref) rows
  pub accounts : map (λ t. t.account_id) out ≡ map (λ r. id) rows
  pub kinds : map (λ t. t.kind) out ≡ map (λ r. r.kind) rows
  pub points : map (λ t. t.points) out ≡ map (λ r. r.points) rows
  pub rewards : map (λ t. t.reward) out ≡ map (λ r. "") rows
  pub times : map (λ t. t.occurred_at) out ≡ map (λ r. parse r.occurred_at) rows

entries-IsListing :
    (driver : Driver) (id : String) (rows : List TransactionRow)
    → IsListing id rows (entries driver id rows)
entries-IsListing driver id [] = record {
  refs = refl;
  accounts = refl;
  kinds = refl;
  points = refl;
  rewards = refl;
  times = refl;
}
entries-IsListing driver id (r ∷ rows) =
    let rest = entries-IsListing driver id rows in
    record {
      refs = ap (λ xs. r.ref ∷ xs) rest.refs;
      accounts = ap (λ xs. id ∷ xs) rest.accounts;
      kinds = ap (λ xs. r.kind ∷ xs) rest.kinds;
      points = ap (λ xs. r.points ∷ xs) rest.points;
      rewards = ap (λ xs. "" ∷ xs) rest.rewards;
      times = ap (λ xs. parse r.occurred_at ∷ xs) rest.times;
    }

-- In a valid database and with no failing driver call, `list_transactions` of a known account
-- changes nothing and returns one transaction for each of the account's rows and no others, the last
-- recorded first, each with the ref, the account, the kind, the points and the time of its row and
-- with no reward.
pub list_transactions-newest_first :
    (driver : Driver) (id : String) (db : Db) (now : Stamp)
    → IsValid db
    → is_known id db ≡ true
    → (out : List Transaction) × (list_transactions driver id (calm db now) ≡ (ok out, calm db now))
      × IsListing id (keep (λ r. r.account_id == id) db.transactions) out
list_transactions-newest_first driver id db now valid known =
    let rows : List TransactionRow = keep (λ r. r.account_id == id) db.transactions in
    (
      entries driver id rows,
      list_transactions-entries driver id db now valid known,
      entries-IsListing driver id rows,
    )

abbrev HasBalance : List TransactionRow → AccountRow × ℤ → Type 0
HasBalance txns r = sum_points r.0.account_id txns ≡ some r.1

with_balances-cons :
    (txns : List TransactionRow) (a : AccountRow) (rest : List AccountRow)
    (rows : List (AccountRow × ℤ))
    → with_balances txns (a ∷ rest) ≡ ok rows
    → (amount : ℤ) × (more : List (AccountRow × ℤ)) × (sum_points a.account_id txns ≡ some amount)
      × (with_balances txns rest ≡ ok more)
      × (rows ≡ (a, amount) ∷ more)
unfolding with_balances
with_balances-cons txns a rest rows e = elim (Option-cases (sum_points a.account_id txns)) [
  | inl overflow ↦ ground (arith, overflow)
  | inr (amount, found) ↦ elim (Result-cases (with_balances txns rest)) [
    | inr (failure, later) ↦ ground (arith, found, later)
    | inl (more, later) ↦ (amount, more, found, later, ground (arith, found, later))
  ]
]

pub with_balances-balances :
    (txns : List TransactionRow) (accounts : List AccountRow) (rows : List (AccountRow × ℤ))
    → with_balances txns accounts ≡ ok rows
    → All (HasBalance txns) rows × (map (λ r. r.0) rows ≡ accounts)
unfolding with_balances
with_balances-balances txns [] rows e =
    let none_left : rows ≡ [] = ground arith in rw none_left (tt, refl)
with_balances-balances txns (a ∷ rest) rows e =
    let (amount, more, found, later, same) = with_balances-cons txns a rest rows e in
    let (balances, names) = with_balances-balances txns rest more later in
    rw same ((found, balances), ap (λ xs. a ∷ xs) names)

row_ids :
    (rows : List (AccountRow × ℤ))
    → map (λ r. r.0.account_id) rows ≡ map (λ a. a.account_id) (map (λ r. r.0) rows)
row_ids [] = refl
row_ids (r ∷ rows) = ap (λ xs. r.0.account_id ∷ xs) (row_ids rows)

module _ (driver : Driver) where
  abbrev Agree : Db → List (AccountRow × ℤ) → List AccountSummary → Type 0
  Agree db rows out =
      All (λ s. balance_for_account s.id db ≡ ok s.balance) out
      × (map (λ s. s.id) out ≡ map (λ r. r.0.account_id) rows)

  summaries-cons :
      (a : AccountRow) (amount : ℤ) (rows : List (AccountRow × ℤ)) (out : List AccountSummary)
      → summaries driver ((a, amount) ∷ rows) ≡ ok out
      → (s : AccountSummary) × (more : List AccountSummary) × (s.id ≡ a.account_id)
        × (s.balance ≡ amount)
        × (summaries driver rows ≡ ok more)
        × (out ≡ s ∷ more)
  unfolding summaries
  summaries-cons a amount rows out e = elim (Result-cases (parse_role a.role)) [
    | inr (failure, unknown) ↦ ground (arith, unknown)
    | inl (role, known) ↦ elim (Result-cases (summaries driver rows)) [
      | inr (failure, later) ↦ ground (arith, known, later)
      | inl (more, later) ↦ (
        record { id = a.account_id; name = a.name; role = role; balance = amount },
        more,
        refl,
        refl,
        later,
        ground (arith, known, later),
      )
    ]
  ]

  summaries-Agree :
      (db : Db) (rows : List (AccountRow × ℤ)) (out : List AccountSummary)
      → All (HasBalance db.transactions) rows
      → summaries driver rows ≡ ok out
      → Agree db rows out
  unfolding summaries balance_for_account
  summaries-Agree db [] out h e = let none_left : out ≡ [] = ground arith in rw none_left (tt, refl)
  summaries-Agree db ((a, amount) ∷ rows) out h e =
      let (s, more, named, summed, later, same) = summaries-cons a amount rows out e in
      let (balances, names) = summaries-Agree db rows more h.1 later in
      rw same ((rw (named, summed, h.0) refl, balances), rw (named, names) refl)

  abbrev pub Listed : World → Result Error (List AccountSummary) × World → Type 0
  Listed w (err _, _) = Unit
  Listed w (ok out, _) =
      All (λ s. balance_for_account s.id w.db ≡ ok s.balance) out
      × Perm (map (λ s. s.id) out) (map (λ a. a.account_id) w.db.accounts)

  Listed-cases :
      (w w' : World) (rows : List (AccountRow × ℤ)) (r : Result Error (List AccountSummary))
      → list_accounts_with_balance w.db ≡ ok rows
      → r ≡ summaries driver rows
      → Listed w (r, w')
  unfolding list_accounts_with_balance
  Listed-cases w w' rows (err e) found same = tt
  Listed-cases w w' rows (ok out) found same =
      let (balances, sorted) =
        with_balances-balances w.db.transactions (sort account_before w.db.accounts) rows found in
      let (agree, names) = summaries-Agree w.db rows out balances (sym same) in
      (
        agree,
        subst (λ ids. Perm ids (map (λ a. a.account_id) w.db.accounts))
            (sym (names ∙ row_ids rows ∙ ap (map (λ a. a.account_id)) sorted))
            (Perm.map (λ a. a.account_id) (sort-perm account_before w.db.accounts)),
      )

  -- Whatever driver calls fail: what `list_accounts` returns names every account exactly once, each
  -- with the balance that the balance query gives for it.
  pub list_accounts-Listed : (w : World) → Listed w (list_accounts driver w)
  unfolding list_accounts
  list_accounts-Listed w =
      read_then (to_error driver) "list accounts" (λ rows w1. (summaries driver rows, w1))
        (Listed w) list_accounts_with_balance w (λ _ _ _. tt)
        λ rows w1 found _. Listed-cases w w1 rows _ found refl
