-- ===== src/Store/Ledger/Raises.antt =====
-- Which sentinels the errors of `RecordTransaction` wrap, whatever driver calls fail.
use gowallet.Prelude.{refl, inl, inr, [], ◌∷◌, Bool}
use gowallet.Wallet.{Transaction, not_found, insufficient_balance}
use gowallet.Wallet.Raises.{Raises, pure-Raises, fail-Raises, if-Raises, bind-Raises}
use gowallet.Store.Driver.{Driver}
use gowallet.Store.Accounts.{to_error}
use gowallet.Store.Raises.{wrapping-Raises, in_tx-Raises}
use gowallet.Store.Ledger.{record_transaction, record_body, insert, guard_balance, refuse}

module _ (driver : Driver) where
  guard_balance-Raises :
      (fresh : Bool) (t : Transaction)
      → Raises (not_found ∷ insufficient_balance ∷ []) (guard_balance (to_error driver) fresh t)
  unfolding guard_balance refuse
  guard_balance-Raises fresh t =
      if-Raises _ _ _
        (bind-Raises _ _ (wrapping-Raises driver _ _) (λ balance.
          if-Raises _ _ _
            (bind-Raises _ _ (wrapping-Raises driver _ _) (λ _. fail-Raises _ (inr (inl refl))))
            (pure-Raises _)))
        (pure-Raises _)

  record_body-Raises :
      (t : Transaction)
      → Raises (not_found ∷ insufficient_balance ∷ []) (record_body (to_error driver) t)
  unfolding record_body insert
  record_body-Raises t = bind-Raises _ _ (wrapping-Raises driver _ _) (λ exists.
      if-Raises _ _ _ (fail-Raises _ (inl refl)) (
        bind-Raises (insert (to_error driver) t) _
          (record {
            at = λ w.
                (wrapping-Raises driver {ss = not_found ∷ insufficient_balance ∷ []}
                    "insert transaction" _).at
                  w;
          })
          (λ affected. bind-Raises _ _ (wrapping-Raises driver _ _) (λ _.
            bind-Raises _ _ (guard_balance-Raises _ t) (λ _.
              bind-Raises _ _ (wrapping-Raises driver _ _)
                (λ row. bind-Raises _ _ (wrapping-Raises driver _ _) (λ _. pure-Raises _)))))))

  pub record_transaction-Raises :
      (t : Transaction)
      → Raises (not_found ∷ insufficient_balance ∷ []) (record_transaction (to_error driver) t)
  unfolding record_transaction
  record_transaction-Raises t = in_tx-Raises driver _ (record_body-Raises t)
