-- ===== src/Store/Raises.antt =====
-- Which sentinels the errors of internal/sqlitestore's methods wrap, whatever driver calls fail.
use gowallet.Prelude.{
  String, ◌≡◌, refl, inl, inr, none, List, [], ◌∷◌, Result, ok, err, Action, pure, fail, handle,
  Bool-cases, ◌>>◌,
}
use gowallet.Wallet.{Account, Sentinel, Error, not_found, account_exists, Call}
use gowallet.Wallet.Raises.{
  root, IsRaised, Only, Raises, pure-Raises, fail-Raises, if-Raises, handle-Raises, bind-Raises,
}
use gowallet.Store.Db.{Db}
use gowallet.Store.Ledger.{null_string}
use gowallet.Store.Queries
use gowallet.Store.Queries.{SqlError, no_rows, failed}
use gowallet.Store.Driver.{Driver, is_unique_violation}
use gowallet.Store.Session.{World, write, driver_call, wrapping, in_tx, settle}
use gowallet.Store.Accounts
use gowallet.Store.Accounts.{to_error, create_failed, or_not_found}
use gowallet.Store.Audit

module _ (driver : Driver) where
  pub root-to_error : (e : SqlError) → root (to_error driver e) ≡ none
  root-to_error no_rows = refl
  root-to_error (failed f) = refl

  pub wrapping-Raises :
      {A : Type 0} {ss : List Sentinel} (context : String) (m : Action World SqlError A)
      → Raises ss (wrapping (to_error driver) context m)
  unfolding wrapping
  wrapping-Raises context m =
      handle-Raises m _ _ (λ a. pure-Raises a) (λ e. fail-Raises _ (rw (root-to_error e) tt))

  settle-Only :
      {A : Type 0} (ss : List Sentinel) (before : Db) (r : Result Error A) (w : World)
      → Only ss r
      → Only ss (settle before (r, w)).0
  settle-Only ss before (ok a) w h = tt
  settle-Only ss before (err e) w h = h

  pub in_tx-Raises :
      {A : Type 0} {ss : List Sentinel} (body : Call World A)
      → Raises ss body
      → Raises ss (in_tx (to_error driver) body)
  unfolding in_tx
  in_tx-Raises {A} {ss} body h = record {
    at = λ w.
        let begun : Call World A = wrapping (to_error driver) "begin tx" driver_call >> body in
        settle-Only ss w.db (begun w).0 (begun w).1
          ((bind-Raises _ _ (wrapping-Raises "begin tx" driver_call) (λ _. h)).at w);
  }

  create_failed-IsRaised :
      (e : SqlError) → IsRaised (account_exists ∷ []) (root (create_failed driver e))
  create_failed-IsRaised no_rows = tt
  create_failed-IsRaised (failed f) = elim (Bool-cases (is_unique_violation (driver.text f))) [
    | inl taken ↦ rw taken (inl refl)
    | inr trouble ↦ rw trouble tt
  ]

  created-Raises :
      (m : Action World SqlError (Unit {0}))
      → Raises (account_exists ∷ []) (handle m (λ _. pure tt) (λ e. fail (create_failed driver e)))
  created-Raises m =
      handle-Raises m _ _ (λ _. pure-Raises tt) (λ e. fail-Raises _ (create_failed-IsRaised e))

  pub create_account-Raises :
      (a : Account) (hash : String)
      → Raises (account_exists ∷ []) (Accounts.create_account driver a hash)
  unfolding Accounts.create_account
  create_account-Raises a hash = record {
    at = λ w.
        (created-Raises (write (Queries.create_account w.now a.id a.name (null_string hash)))).at w;
  }

  or_not_found-IsRaised :
      (context : String) (e : SqlError)
      → IsRaised (not_found ∷ []) (root (or_not_found driver context e))
  or_not_found-IsRaised context no_rows = inl refl
  or_not_found-IsRaised context (failed f) = tt

  pub get_account-Raises : (id : String) → Raises (not_found ∷ []) (Accounts.get_account driver id)
  unfolding Accounts.get_account
  get_account-Raises id =
      handle-Raises _ _ _ (λ row. pure-Raises _)
        (λ e. fail-Raises _ (or_not_found-IsRaised "get account" e))

  pub balance-Raises : (id : String) → Raises (not_found ∷ []) (Accounts.balance driver id)
  unfolding Accounts.balance
  balance-Raises id =
      bind-Raises _ _ (wrapping-Raises _ _)
        (λ exists. if-Raises _ _ _ (fail-Raises _ (inl refl)) (wrapping-Raises _ _))

  pub list_transactions-Raises :
      (id : String) → Raises (not_found ∷ []) (Accounts.list_transactions driver id)
  unfolding Accounts.list_transactions
  list_transactions-Raises id = bind-Raises _ _ (wrapping-Raises _ _) (λ exists.
      if-Raises _ _ _ (fail-Raises _ (inl refl))
        (bind-Raises _ _ (wrapping-Raises _ _) (λ rows. pure-Raises _)))

  pub list_audit-Raises : (id : String) → Raises [] (Audit.list_audit (to_error driver) id)
  unfolding Audit.list_audit
  list_audit-Raises id = bind-Raises _ _ (wrapping-Raises _ _) (λ rows. pure-Raises _)
