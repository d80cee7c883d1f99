-- ===== src/Wallet/Login.antt =====
-- What a failed login of `WalletService` tells its caller.
use gowallet.Prelude.{
  String, ◌≡◌, refl, inl, inr, true, false, Result, ok, err, ◌==◌, Bool-cases, Result-cases,
}
use gowallet.Wallet.Types.{Identity, Error, sentinel, invalid_credentials}
use gowallet.Wallet.Repository.{AccountRepository}
use gowallet.Wallet.Service
use gowallet.Wallet.Service.Bcrypt.{Bcrypt}

-- How a login ended: an error is ErrInvalidCredentials, and an identity is the requested account with
-- the role that the repository gives, whose hash is not empty and matches the secret.
abbrev pub LoggedIn :
    {S : Type 0}
    → Bcrypt
    → AccountRepository S
    → String
    → String
    → S
    → Result Error Identity
    → Type 0
LoggedIn bcrypt accounts account_id secret s (err e) = e ≡ sentinel invalid_credentials
LoggedIn bcrypt accounts account_id secret s (ok id) =
    (hash : String) × ((accounts.get_credential account_id s).0 ≡ ok (hash, id.role))
    × (id.account_id ≡ account_id)
    × ((hash == "") ≡ false)
    × (bcrypt.matches hash secret ≡ true)

-- Over any repository: a login that fails returns ErrInvalidCredentials, so that an unknown account, a
-- wrong secret, an account with no secret and a repository that is out of order look alike. A login
-- that succeeds returns the requested account with the role that the repository gives, and the secret
-- matched the hash that it gives, which is not empty.
pub login-uniform :
    {S : Type 0} (bcrypt : Bcrypt) (accounts : AccountRepository S) (account_id secret : String)
    (s : S)
    → LoggedIn bcrypt accounts account_id secret s
        (Service.login bcrypt accounts account_id secret s).0
unfolding Service.login
login-uniform bcrypt accounts account_id secret s =
    elim (Result-cases (accounts.get_credential account_id s).0) [
      | inr (e, failed) ↦ rw failed refl
      | inl ((hash, role), found) ↦ elim (Bool-cases (hash == "")) [
        | inl empty ↦ rw (found, empty) refl
        | inr filled ↦ elim (Bool-cases (bcrypt.matches hash secret)) [
          | inr wrong ↦ rw (found, filled, wrong) refl
          | inl right ↦ rw (found, filled, right) (hash, found, refl, filled, right)
        ]
      ]
    ]
