-- ===== src/Store/Sure.antt =====
-- The reading methods of internal/sqlitestore when no driver call fails: which errors are left.
use gowallet.Prelude.{
  ◌<◌, String, ◌≡◌, refl, inl, inr, List, [], ◌∷◌, Result, ok, err, arith, find?, ◌==◌, Bool-cases,
  Option-cases,
}
use gowallet.Prelude.Int.{ℤ, int64_limit}
use gowallet.Prelude.Sort.{sort}
use gowallet.Wallet.{Error, sentinel, not_found}
use gowallet.Store.Db.{Db, Stamp, AccountRow}
use gowallet.Store.Totals.{earned, deducted, sum_points_complete}
use gowallet.Store.Invariant.{IsValid, IsPositive-of_legal}
use gowallet.Store.Balance.{balance-exact}
use gowallet.Store.Listing.{list_transactions-newest_first}
use gowallet.Store.Audit.{list_audit}
use gowallet.Store.Listing.Audit.{list_audit-newest_first}
use gowallet.Store.Listing.Roles.{summaries-ok, listed-RowRole}
use gowallet.Store.Ledger.Calm.{calm, is_known}
use gowallet.Store.Queries
use gowallet.Store.Queries.{
  SqlError, account_row, account_exists, account_before, with_balances, list_accounts_with_balance,
  sum_points,
}
use gowallet.Store.Session.{read, driver_call, wrapping}
use gowallet.Store.Driver.{Driver}
use gowallet.Store.Accounts.{to_error, get_account, balance, list_transactions, list_accounts}

-- A call succeeds, or it is refused with ErrNotFound.
abbrev pub IsFoundOrNot : {A : Type 0} → Result Error A → Type 0
IsFoundOrNot (ok a) = Unit
IsFoundOrNot (err e) = e ≡ sentinel not_found

abbrev pub IsOk : {A : Type 0} → Result Error A → Type 0
IsOk (ok a) = Unit
IsOk (err e) = ⊥

-- Every account has earned less than 2^63 points.
abbrev pub IsSmall : Db → Type 0
IsSmall db = (id : String) → earned id db.transactions < int64_limit

module _ (driver : Driver) (db : Db) (now : Stamp) where
  pub get_account-IsFoundOrNot :
      (id : String) → IsFoundOrNot (get_account driver id (calm db now)).0
  unfolding get_account read driver_call Queries.get_account account_row
  get_account-IsFoundOrNot id = elim (Option-cases (find? (λ a. a.account_id == id) db.accounts)) [
    | inl absent ↦ rw absent refl
    | inr (row, found) ↦ rw found tt
  ]

  module _ (valid : IsValid db) (small : IsSmall db) where
    pub balance-IsFoundOrNot : (id : String) → IsFoundOrNot (balance driver id (calm db now)).0
    unfolding balance account_exists read driver_call wrapping
    balance-IsFoundOrNot id = elim (Bool-cases (is_known id db)) [
      | inl known ↦ rw (balance-exact driver id db now valid known (small id)) tt
      | inr unknown ↦ rw unknown refl
    ]

    few_deducted : (id : String) → deducted id db.transactions < int64_limit
    few_deducted id = let solvent = valid.solvent id in let few = small id in omega arith

    with_balances-IsOk :
        (accounts : List AccountRow)
        → (rows : List (AccountRow × ℤ)) × (with_balances db.transactions accounts ≡ ok rows)
    unfolding with_balances
    with_balances-IsOk [] = ([], refl)
    with_balances-IsOk (a ∷ rest) =
        let (total, found) =
          sum_points_complete a.account_id db.transactions
            (IsPositive-of_legal db.accounts db.transactions valid.legal) (small a.account_id)
            (few_deducted a.account_id) in
        let (rows, more) = with_balances-IsOk rest in
        ((a, total) ∷ rows, ground (arith, found, more))

    pub list_accounts-IsOk : IsOk (list_accounts driver (calm db now)).0
    unfolding list_accounts wrapping read driver_call list_accounts_with_balance
    list_accounts-IsOk =
        let (rows, found) = with_balances-IsOk (sort account_before db.accounts) in
        let (out, all) = summaries-ok driver rows (listed-RowRole db rows valid found) in
        rw (found, all) tt

  pub list_transactions-IsFoundOrNot :
      IsValid db → (id : String) → IsFoundOrNot (list_transactions driver id (calm db now)).0
  unfolding list_transactions account_exists read driver_call wrapping
  list_transactions-IsFoundOrNot valid id = elim (Bool-cases (is_known id db)) [
    | inl known ↦
        let (out, listed, _) = list_transactions-newest_first driver id db now valid known in
        rw listed tt
    | inr unknown ↦ rw unknown refl
  ]

  pub list_audit-IsOk :
      IsValid db → (id : String) → IsOk (list_audit (to_error driver) id (calm db now)).0
  list_audit-IsOk valid id =
      let (out, listed, _) = list_audit-newest_first (to_error driver) id db now valid in
      rw listed tt
