-- ===== src/Http/Errors/Statuses.antt =====
-- Which status `writeDomainError` gives an error.
use gowallet.Prelude.{ℕ, String, ◌≡◌, refl, Option, none, some}
use gowallet.Wallet.{
  Error, Sentinel, forbidden, not_found, account_exists, insufficient_balance, invalid_input,
  invalid_credentials, duplicate_ref,
}
use gowallet.Wallet.Raises.{root}
use gowallet.Http.Errors.{write_domain_error}

-- The status that the switch answers a sentinel with; none is any other error.
abbrev pub answered_status : Sentinel → ℕ
answered_status forbidden = 403
answered_status not_found = 404
answered_status account_exists = 409
answered_status insufficient_balance = 409
answered_status invalid_input = 400
answered_status _ = 500

abbrev pub answered_status_of : Option Sentinel → ℕ
answered_status_of none = 500
answered_status_of (some s) = answered_status s

-- The status of the envelope depends only on the sentinel that the error wraps, at any depth: not on
-- the context or the message.
pub write_domain_error-status :
    (request_id : String) (e : Error)
    → (write_domain_error request_id e).status ≡ answered_status_of (root e)
unfolding write_domain_error
write_domain_error-status request_id (Error.sentinel not_found) = refl
write_domain_error-status request_id (Error.sentinel account_exists) = refl
write_domain_error-status request_id (Error.sentinel invalid_input) = refl
write_domain_error-status request_id (Error.sentinel duplicate_ref) = refl
write_domain_error-status request_id (Error.sentinel insufficient_balance) = refl
write_domain_error-status request_id (Error.sentinel invalid_credentials) = refl
write_domain_error-status request_id (Error.sentinel forbidden) = refl
write_domain_error-status request_id (Error.external text) = refl
write_domain_error-status request_id (Error.wrap context e) = write_domain_error-status request_id e
