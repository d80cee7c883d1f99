-- ===== src/Store/Listing/Roles.antt =====
-- Every account of a valid database has a role that `ListAccounts` can read.
use gowallet.Prelude.{
  ◌≡◌, refl, sym, inl, inr, List, [], ◌∷◌, ok, arith, All, map, ◌==◌, Bool-cases, Result-cases,
}
use mathlib.Core.Path.{subst}
use gowallet.Prelude.Int.{ℤ}
use gowallet.Prelude.Sort.{sort, sort-All}
use gowallet.Wallet.{AccountSummary, Role}
use gowallet.Wallet.Auth.{parse_role}
use gowallet.Wallet.Raises.{Only}
use gowallet.Store.Db.{Db, AccountRow}
use gowallet.Store.Queries.{list_accounts_with_balance, account_before}
use gowallet.Store.Session.{World, read, wrapping}
use gowallet.Store.Raises.{root-to_error}
use gowallet.Store.Session.Steps.{driver_call_cases}
use gowallet.Store.Driver.{Driver}
use gowallet.Store.Accounts.{list_accounts, summaries}
use gowallet.Store.Invariant.{IsValid, HasKnownRole}
use gowallet.Store.Listing.{with_balances-balances}

parsed_role : (a : AccountRow) → HasKnownRole a → (role : Role) × (parse_role a.role ≡ ok role)
unfolding parse_role
parsed_role a h = elim (Bool-cases (a.role == "member")) [
  | inl plain ↦ rw plain (_, refl)
  | inr other_role ↦ elim (Bool-cases (a.role == "admin")) [
    | inl chief ↦ rw (other_role, chief) (_, refl)
    | inr unknown ↦ cc (rw (other_role, unknown) at h)
  ]
]

-- The accounts of listed rows.
abbrev pub RowRole : AccountRow × ℤ → Type 0
RowRole r = HasKnownRole r.0

pub summaries-ok :
    (driver : Driver) (rows : List (AccountRow × ℤ))
    → All RowRole rows
    → (out : List AccountSummary) × (summaries driver rows ≡ ok out)
unfolding summaries
summaries-ok driver [] h = ([], refl)
summaries-ok driver ((a, amount) ∷ rows) h =
    let (role, known) = parsed_role a h.0 in
    let (out, rest) = summaries-ok driver rows h.1 in
    (
      record { id = a.account_id; name = a.name; role = role; balance = amount } ∷ out,
      ground (arith, known, rest),
    )

All-names :
    (rows : List (AccountRow × ℤ)) → All HasKnownRole (map (λ r. r.0) rows) → All RowRole rows
All-names [] h = tt
All-names (r ∷ rows) h = (h.0, All-names rows h.1)

pub listed-RowRole :
    (db : Db) (rows : List (AccountRow × ℤ))
    → IsValid db
    → list_accounts_with_balance db ≡ ok rows
    → All RowRole rows
unfolding list_accounts_with_balance
listed-RowRole db rows valid found =
    let (_, names) =
      with_balances-balances db.transactions (sort account_before db.accounts) rows found in
    All-names rows (
      subst (All HasKnownRole) (sym names)
        (sort-All account_before HasKnownRole db.accounts valid.known_roles))

pub list_accounts-Only :
    (driver : Driver) (w : World) → IsValid w.db → Only [] (list_accounts driver w).0
unfolding list_accounts wrapping read
list_accounts-Only driver w valid = elim (driver_call_cases w) [
  | inr (e, w1, called, same) ↦ rw called (rw (root-to_error driver e) tt)
  | inl (w1, called, same) ↦ elim (Result-cases (list_accounts_with_balance w1.db)) [
    | inr (e, refused) ↦ rw (called, refused) (rw (root-to_error driver e) tt)
    | inl (rows, found) ↦
        let (out, all) =
          summaries-ok driver rows (listed-RowRole w1.db rows (rw same.db valid) found) in
        rw (called, found, all) tt
  ]
]
