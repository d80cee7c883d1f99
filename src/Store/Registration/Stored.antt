-- ===== src/Store/Registration/Stored.antt =====
-- A created account can be read back, whatever driver calls fail.
use gowallet.Prelude.{
  String, ◌≡◌, refl, ◌⊎◌, inl, inr, some, List, [], ◌∷◌, Bool, true, false, ok, err, any, find?,
  ◌==◌, eq_refl, Bool-cases, Result-cases,
}
use gowallet.Wallet.{Account}
use gowallet.Wallet.Raises.{Only, Leaves}
use gowallet.Store.Queries
use gowallet.Store.Queries.{Failure, failed}
use gowallet.Store.Queries.{account_row}
use gowallet.Store.Additions.{create_account-adds}
use gowallet.Store.Session.{World, outcome_of, driver_call, read, write}
use gowallet.Store.Session.Steps.{driver_call_cases}
use gowallet.Store.Driver.{Driver}
use gowallet.Store.Accounts
use gowallet.Store.Accounts.{to_error, or_not_found}
use gowallet.Store.Ledger.{null_string}
use gowallet.Store.Ledger.Calm.{is_known}

find_any :
    {A : Type 0} (p : A → Bool) (xs : List A) → any p xs ≡ true → (x : A) × (find? p xs ≡ some x)
find_any p [] h = cc
find_any p (x ∷ xs) h = elim (Bool-cases (p x)) [
  | inl here ↦ rw here (x, refl)
  | inr later ↦ rw later (find_any p xs (rw later at h))
]

-- A call of the driver fails, if it does, with an error of its own.
driver_call_failed :
    (w : World)
    → ((w1 : World) × (driver_call w ≡ (ok tt, w1)) × (w1.db ≡ w.db))
      ⊎ ((f : Failure) × (w1 : World) × (driver_call w ≡ (err (failed f), w1)))
unfolding driver_call
driver_call_failed w = by_faults w.faults w
  where
    by_faults :
        (faults : List Bool) (w : World)
        → ((w1 : World) × (outcome_of faults w ≡ (ok tt, w1)) × (w1.db ≡ w.db))
          ⊎ ((f : Failure) × (w1 : World) × (outcome_of faults w ≡ (err (failed f), w1)))
    by_faults [] w = inl (w, refl, refl)
    by_faults (false ∷ later) w = inl (_, refl, refl)
    by_faults (true ∷ later) w = inr (_, _, refl)

module _ (driver : Driver) where
  -- An account that is known is read back, or a driver call fails.
  get_account_known-Only :
      (id : String) (w : World)
      → is_known id w.db ≡ true
      → Only [] (Accounts.get_account driver id w).0
  unfolding Accounts.get_account read Queries.get_account account_row
  get_account_known-Only id w known = elim (driver_call_failed w) [
    | inr (f, w1, called) ↦ rw called tt
    | inl (w1, called, same) ↦
        let (row, found) = find_any (λ r. r.account_id == id) w1.db.accounts (rw same known) in
        rw (called, found) tt
  ]

  -- After `CreateAccount`, reading the account fails only when a driver call does.
  pub create_account-Leaves :
      (a : Account) (hash : String) (w : World)
      → Leaves
          (λ w'. Only [] (Accounts.get_account driver a.id w').0)
          (Accounts.create_account driver a hash w)
  unfolding Accounts.create_account write
  create_account-Leaves a hash w = elim (driver_call_cases w) [
    | inr (e, w1, called, same) ↦ rw called tt
    | inl (w1, called, same) ↦
        elim (Result-cases (Queries.create_account w.now a.id a.name (null_string hash) w1.db)) [
          | inr (e, refused) ↦ rw (called, refused) tt
          | inl ((_, db), done) ↦
              rw (called, done)
                (get_account_known-Only a.id (record w1 { db = db })
                  (rw
                    (
                      create_account-adds w.now a.id a.name (null_string hash) w1.db db done,
                      eq_refl a.id,
                    )
                    refl))
        ]
  ]
