-- ===== src/Wallet/Keeps.antt =====
-- What each repository call keeps, each operation of the services keeps: the services change the
-- state only through the repositories.
use gowallet.Prelude.{
  String, Action, handle, continue, fail, pure, Bool, true, false, Result, ok, err, if◌then◌else◌,
}
use gowallet.Wallet.Types.{Account, Transaction, AuditEntry}
use gowallet.Wallet.Repository.{AccountRepository, TransactionRepository, AuditRepository}
use gowallet.Wallet.Service
use gowallet.Wallet.Service.{record_earn, record_spend, record_redeem}
use gowallet.Wallet.Service.Bcrypt.{Bcrypt, HashError}
use gowallet.Wallet.Audit.{record_attempt}

-- A call that keeps `P`, also when it fails.
pub record KeepsCall {S E A : Type 0} (P : S → Type 0) (m : Action S E A) : Type 0 where
  pub at : (s : S) → P s → P (m s).1

module _ {S E : Type 0} {P : S → Type 0} where
  pub pure-keeps : {A : Type 0} (a : A) → KeepsCall P (pure {S = S} {E = E} a)
  pure-keeps a = record { at = λ s h. h }

  pub fail-keeps : {A : Type 0} (e : E) → KeepsCall P (fail {S = S} {A = A} e)
  fail-keeps e = record { at = λ s h. h }

  pub if-keeps_call :
      {A : Type 0} (b : Bool) (m n : Action S E A)
      → KeepsCall P m
      → KeepsCall P n
      → KeepsCall P (if b then m else n)
  if-keeps_call true m n km kn = km
  if-keeps_call false m n km kn = kn

module _ {S E F A B : Type 0} {P : S → Type 0} where
  continue-keeps :
      (r : Result E A) (f : A → Action S F B) (g : E → Action S F B)
      → ((a : A) → KeepsCall P (f a))
      → ((e : E) → KeepsCall P (g e))
      → (s : S) → P s
      → P (continue f g r s).1
  continue-keeps (ok a) f g kf kg = (kf a).at
  continue-keeps (err e) f g kf kg = (kg e).at

  pub handle-keeps :
      (m : Action S E A) (f : A → Action S F B) (g : E → Action S F B)
      → KeepsCall P m
      → ((a : A) → KeepsCall P (f a))
      → ((e : E) → KeepsCall P (g e))
      → KeepsCall P (handle m f g)
  handle-keeps m f g km kf kg = record {
    at = λ s h. let (r, s') = m s in continue-keeps r f g kf kg s' (km.at s h);
  }

module _ {S : Type 0} (P : S → Type 0) (txns : TransactionRepository S)
    (keeps : (t : Transaction) → KeepsCall P (txns.record_transaction t)) where
  pub record_earn-keeps : (t : Transaction) → KeepsCall P (record_earn txns t)
  unfolding record_earn
  record_earn-keeps t = if-keeps_call _ _ _ (fail-keeps _) (keeps _)

  pub record_spend-keeps : (t : Transaction) → KeepsCall P (record_spend txns t)
  unfolding record_spend
  record_spend-keeps t = if-keeps_call _ _ _ (fail-keeps _) (keeps _)

  pub record_redeem-keeps : (t : Transaction) → KeepsCall P (record_redeem txns t)
  unfolding record_redeem
  record_redeem-keeps t = if-keeps_call _ _ _ (fail-keeps _) (keeps _)

module _ {S : Type 0} (P : S → Type 0) (bcrypt : Bcrypt) (accounts : AccountRepository S) where
  store_hashed-keeps :
      (a : Account) (r : Result HashError String)
      → ((hash : String) → KeepsCall P (accounts.create_account a hash))
      → KeepsCall P (Service.store_hashed bcrypt accounts a r)
  unfolding Service.create_account
  store_hashed-keeps a (ok hash) k = k hash
  store_hashed-keeps a (err HashError.too_long) k = fail-keeps _
  store_hashed-keeps a (err (HashError.other text)) k = fail-keeps _

  pub create_account-keeps :
      (salt : String) (a : Account) (secret : String)
      → ((hash : String) → KeepsCall P (accounts.create_account a hash))
      → KeepsCall P (Service.create_account bcrypt accounts salt a secret)
  unfolding Service.create_account
  create_account-keeps salt a secret k =
      if-keeps_call _ _ _ (fail-keeps _)
        (if-keeps_call _ _ _ (k "") (store_hashed-keeps a (bcrypt.generate salt secret) k))

  pub login-keeps :
      (account_id secret : String)
      → KeepsCall P (accounts.get_credential account_id)
      → KeepsCall P (Service.login bcrypt accounts account_id secret)
  unfolding Service.login
  login-keeps account_id secret k =
      handle-keeps (accounts.get_credential account_id) _ _ k
        (λ credential.
          if-keeps_call _ _ _ (fail-keeps _) (if-keeps_call _ _ _ (pure-keeps _) (fail-keeps _)))
        (λ e. fail-keeps _)

module _ {S : Type 0} (P : S → Type 0) (repo : AuditRepository S) where
  pub record_attempt-keeps :
      (e : AuditEntry) → KeepsCall P (repo.append_audit e) → KeepsCall P (record_attempt repo e)
  unfolding record_attempt
  record_attempt-keeps e k = if-keeps_call _ _ _ (fail-keeps _) k
