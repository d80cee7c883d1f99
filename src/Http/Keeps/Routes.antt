-- ===== src/Http/Keeps/Routes.antt =====
-- What requests keep, in terms of the repository calls.
use gowallet.Prelude.{ℕ, inl, inr, Bool-cases, String, Option, none, some, Result, ok, err, ◌==◌}
use gowallet.Wallet.{Identity, Error}
use gowallet.Http.Auth.{authenticator, admit, after_bearer, bearer_token, verify_token}
use gowallet.Http.Jwt.{Jwt}
use gowallet.Http.Response.{Web}
use gowallet.Http.Server.{Server, Context}
use gowallet.Http.Router.{
  Operation, Target, operation, bad_parameter, spec_file, swagger, no_route, other_method, Request,
  dispatch, authenticate, validate, wrap_all, middlewares, serve,
}
use gowallet.Http.Keeps.Rules.{KeepsWeb, KeepsRepositories, reply-keeps, if-keeps}
use gowallet.Http.Keeps.Handlers.{
  get_balance-keeps, get_account-keeps, list_accounts-keeps, list_transactions-keeps,
  create_account-KeepsWeb, create_transaction-keeps, redeem_points-keeps, login-KeepsWeb,
  list_audit-keeps, get_health-keeps,
}
use gowallet.Http.Keeps.Ingest.{ingest_batch-keeps}

module _ {S : Type 0} {P : S → Type 0} (jwt : Jwt) (secret request_id : String) (now : ℕ)
    (next : Identity → Web S) (keeps : (id : Identity) → KeepsWeb P (next id)) where
  admit-keeps : (r : Result Error Identity) → KeepsWeb P (admit jwt secret request_id now next r)
  unfolding authenticator
  admit-keeps (err e) = reply-keeps _
  admit-keeps (ok id) = keeps id

  token-keeps :
      (found : Option String) → KeepsWeb P (after_bearer jwt secret request_id now next found)
  unfolding authenticator
  token-keeps none = reply-keeps _
  token-keeps (some token) = admit-keeps (verify_token jwt secret now token)

  authenticator-keeps :
      (header : String) → KeepsWeb P (authenticator jwt secret request_id now next header)
  unfolding authenticator
  authenticator-keeps header = token-keeps (bearer_token header)

module _ {S : Type 0} (P : S → Type 0) (srv : Server S) (keeps : KeepsRepositories P srv) where
  dispatch-keeps : (op : Operation) (ctx : Context) → KeepsWeb P (dispatch srv op ctx)
  unfolding dispatch
  dispatch-keeps Operation.list_accounts ctx = list_accounts-keeps P srv keeps ctx
  dispatch-keeps (Operation.create_account body) ctx = create_account-KeepsWeb P srv keeps ctx body
  dispatch-keeps (Operation.get_account id) ctx = get_account-keeps P srv keeps ctx id
  dispatch-keeps (Operation.get_balance id) ctx = get_balance-keeps P srv keeps ctx id
  dispatch-keeps (Operation.redeem_points id body) ctx = redeem_points-keeps P srv keeps ctx id body
  dispatch-keeps (Operation.list_transactions id) ctx = list_transactions-keeps P srv keeps ctx id
  dispatch-keeps (Operation.list_audit id) ctx = list_audit-keeps P srv keeps ctx id
  dispatch-keeps (Operation.ingest_batch file) ctx = ingest_batch-keeps P srv keeps ctx file
  dispatch-keeps Operation.get_health ctx = get_health-keeps P srv keeps ctx
  dispatch-keeps (Operation.login body) ctx = login-KeepsWeb P srv keeps ctx body
  dispatch-keeps (Operation.create_transaction body) ctx =
      create_transaction-keeps P srv keeps ctx body

  abbrev KeepsHandler : (Context → Web S) → Type 0
  KeepsHandler h = (ctx : Context) → KeepsWeb P (h ctx)

  authenticate-keeps :
      (req : Request) (h : Context → Web S) → KeepsHandler h → KeepsHandler (authenticate srv req h)
  authenticate-keeps req h k ctx =
      if-keeps _ _ _ (k ctx)
        (authenticator-keeps srv.jwt srv.jwt_secret ctx.request_id ctx.now _ (λ id. k _) _)

  validate-keeps :
      (req : Request) (h : Context → Web S) → KeepsHandler h → KeepsHandler (validate srv req h)
  validate-keeps req h k ctx = if-keeps _ _ _ (k ctx) (reply-keeps _)

  operation-keeps :
      (req : Request) (h : Context → Web S)
      → KeepsHandler h
      → KeepsHandler (wrap_all srv (middlewares srv req) h)
  unfolding middlewares
  operation-keeps req h k ctx = elim (Bool-cases (srv.jwt_secret == "")) [
    | inl no_secret ↦ elim (Bool-cases (srv.spec_yaml == "")) [
      | inl no_spec ↦ rw (no_secret, no_spec) (k ctx)
      | inr spec ↦ rw (no_secret, spec) (validate-keeps req h k ctx)
    ]
    | inr secret ↦ elim (Bool-cases (srv.spec_yaml == "")) [
      | inl no_spec ↦ rw (secret, no_spec) (authenticate-keeps req h k ctx)
      | inr spec ↦ rw (secret, spec) (validate-keeps req _ (authenticate-keeps req h k) ctx)
    ]
  ]

  target-keeps :
      (req : Request) (ctx : Context) (target : Target)
      → KeepsWeb P (serve srv (record req { target = target }) ctx)
  unfolding serve
  target-keeps req ctx (operation op) =
      operation-keeps (record req { target = operation op }) (dispatch srv op) (dispatch-keeps op)
        (record ctx { identity = none })
  target-keeps req ctx bad_parameter = reply-keeps _
  target-keeps req ctx spec_file = reply-keeps _
  target-keeps req ctx swagger = reply-keeps _
  target-keeps req ctx no_route = reply-keeps _
  target-keeps req ctx (other_method allow) = reply-keeps _

  -- Whatever holds of the state and survives each repository call holds after every request: the
  -- routes, the middleware and the handlers change the state in no other way.
  pub serve-keeps : (req : Request) (ctx : Context) → KeepsWeb P (serve srv req ctx)
  serve-keeps req ctx = target-keeps req ctx req.target
