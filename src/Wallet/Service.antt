-- ===== src/Wallet/Service.antt =====
-- `WalletService` of internal/wallet/wallet.go over its two repositories. bcrypt
-- (golang.org/x/crypto) is the parameter `Bcrypt`; the salt that a hash draws is an argument.
pub mod Bcrypt
use gowallet.Prelude.{
  String, List, Bool, ◌||◌, Result, ok, err, pure, fail, handle, ◌==◌, if◌then◌else◌,
}
use gowallet.Prelude.Int.{ℤ, pos, leb_ℤ}
use gowallet.Wallet.Types.{
  Account, AccountSummary, Transaction, earn, spend, redeem, Identity, Role, Error, sentinel,
  external, invalid_input, invalid_credentials,
}
use gowallet.Wallet.Repository.{Call, AccountRepository, TransactionRepository}

module _ {S : Type 0} (bcrypt : Bcrypt.Bcrypt) (accounts : AccountRepository S) where
  -- The repository call that a hashing result leads to.
  unfoldable pub store_hashed : Account → Result Bcrypt.HashError String → Call S (Unit {0})
  store_hashed a (ok hash) = accounts.create_account a hash
  store_hashed a (err Bcrypt.too_long) = fail (sentinel invalid_input)
  store_hashed a (err (Bcrypt.other text)) = fail (external text)

  -- `WalletService.CreateAccount`
  unfoldable pub create_account : String → Account → String → Call S (Unit {0})
  unfolding store_hashed
  create_account salt a secret =
      if a.id == "" || a.name == ""
      then fail (sentinel invalid_input)
      else if secret == ""
      then accounts.create_account a ""
      else store_hashed a (bcrypt.generate salt secret)

  -- `Login` after the credential was read.
  check_credential : String → String → String × Role → Call S Identity
  check_credential account_id secret (hash, role) =
      if hash == ""
      then fail (sentinel invalid_credentials)
      else if bcrypt.matches hash secret
      then pure (record { account_id = account_id; role = role })
      else fail (sentinel invalid_credentials)

  -- `WalletService.Login`; the comparison with the dummy hash only spends time.
  unfoldable pub login : String → String → Call S Identity
  unfolding check_credential
  login account_id secret =
      handle (accounts.get_credential account_id) (check_credential account_id secret)
        (λ _. fail (sentinel invalid_credentials))

-- `WalletService.GetAccount`, `Balance`, `ListAccounts` and `ListTransactions`, which ask the repository.
module _ {S : Type 0} (accounts : AccountRepository S) where
  abbrev pub get_account : String → Call S Account
  get_account id = accounts.get_account id

  abbrev pub balance : String → Call S ℤ
  balance id = accounts.balance id

  abbrev pub list_accounts : Call S (List AccountSummary)
  list_accounts = accounts.list_accounts

  abbrev pub list_transactions : String → Call S (List Transaction)
  list_transactions account_id = accounts.list_transactions account_id

-- The guard that the three recording operations share.
abbrev pub is_incomplete : Transaction → Bool
is_incomplete t = t.ref == "" || t.account_id == "" || leb_ℤ t.points (pos 0)

module _ {S : Type 0} (txns : TransactionRepository S) where
  -- `WalletService.RecordEarn`
  unfoldable pub record_earn : Transaction → Call S (Transaction × Bool)
  record_earn t =
      if is_incomplete t
      then fail (sentinel invalid_input)
      else txns.record_transaction (record t { kind = earn })

  -- `WalletService.RecordSpend`
  unfoldable pub record_spend : Transaction → Call S (Transaction × Bool)
  record_spend t =
      if is_incomplete t
      then fail (sentinel invalid_input)
      else txns.record_transaction (record t { kind = spend })

  -- `WalletService.RecordRedeem`
  unfoldable pub record_redeem : Transaction → Call S (Transaction × Bool)
  record_redeem t =
      if is_incomplete t || t.reward == ""
      then fail (sentinel invalid_input)
      else txns.record_transaction (record t { kind = redeem })
