-- ===== src/Http/Errors.antt =====
-- internal/httpapi/errors.go: the error envelope and the one map from domain errors to HTTP.
pub mod Statuses
pub mod Known
use gowallet.Prelude.{ℕ, String, Option, none, some, ◌==◌, if◌then◌else◌}
use gowallet.Wallet.{
  Error, is, forbidden, not_found, account_exists, insufficient_balance, invalid_input,
}
use gowallet.Http.Response.{Response, error, write_json, add_header}

-- `middleware.GetReqID`: an empty id is left out.
abbrev pub echoed : String → Option String
echoed request_id = if request_id == "" then none else some request_id

-- `writeError`
unfoldable pub write_error : String → ℕ → String → String → Response
write_error request_id status code message =
    write_json status (error code message (echoed request_id))

-- `writeDomainError`
unfoldable pub write_domain_error : String → Error → Response
unfolding write_error
write_domain_error request_id e =
    if is e forbidden
    then write_error request_id 403 "forbidden" "you may not access this account"
    else if is e not_found
    then write_error request_id 404 "not_found" "resource not found"
    else if is e account_exists
    then write_error request_id 409 "account_exists" "account_id already exists"
    else if is e insufficient_balance
    then write_error request_id 409 "insufficient_balance"
        "transaction would drive balance below zero"
    else if is e invalid_input
    then write_error request_id 400 "invalid_input" "request body is invalid"
    else write_error request_id 500 "internal_error" "an unexpected error occurred"

-- `notFoundHandler`
unfoldable pub not_found_handler : String → Response
unfolding write_error
not_found_handler request_id = write_error request_id 404 "not_found" "resource not found"

-- `methodNotAllowedHandler`, given the Allow header that is already set.
unfoldable pub method_not_allowed_handler : String → String → Response
unfolding write_error
method_not_allowed_handler request_id allow =
    add_header "Allow" (if allow == "" then "GET" else allow)
      (write_error request_id 405 "method_not_allowed" "method not allowed")

-- `recoverer`: none is a handler that panicked before it wrote anything.
unfoldable pub recoverer : String → Option Response → Response
unfolding write_error
recoverer request_id none =
    write_error request_id 500 "internal_error" "an unexpected error occurred"
recoverer request_id (some r) = r
