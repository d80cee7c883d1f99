-- ===== src/Http/Login.antt =====
-- internal/httpapi/login.go.
use gowallet.Prelude.{◌/◌, String, Option, none, some, Result, ok, err, if◌then◌else◌}
use gowallet.Wallet.{Error, is, invalid_credentials}
use gowallet.Wallet.Service
use gowallet.Http.Response.{Response, token, Web, reply, run, write_json}
use gowallet.Http.Errors.{write_error}
use gowallet.Http.Auth.{issue_token}
use gowallet.Http.Server.{Server, Context}
use gowallet.Http.Accounts.{or_empty}

-- `gen.LoginRequest`
pub record LoginRequest : Type 0 where
  pub account_id : String
  pub secret : Option String

module _ {S : Type 0} (srv : Server S) (ctx : Context) where
  unfoldable pub login_failed : Error → Response
  unfolding write_error
  login_failed e =
      if is e invalid_credentials
      then write_error ctx.request_id 401 "invalid_credentials" "invalid credentials"
      else write_error ctx.request_id 500 "internal_error" "could not process login"

  unfoldable pub minted : Result Error String → Response
  unfolding write_error
  minted (ok text) = write_json 200 (token text "Bearer" (srv.jwt_ttl / 1_000_000_000))
  minted (err _) = write_error ctx.request_id 500 "internal_error" "could not issue token"

  -- `Login`
  unfoldable pub login : Option LoginRequest → Web S
  unfolding login_failed minted Service.login issue_token
  login none = reply (write_error ctx.request_id 400 "invalid_input" "malformed JSON body")
  login (some body) =
      run (Service.login srv.bcrypt srv.accounts body.account_id (or_empty body.secret))
        (λ id. reply (minted (issue_token srv.jwt srv.jwt_secret ctx.now srv.jwt_ttl id)))
        (λ e. reply (login_failed e))
