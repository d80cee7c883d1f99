-- ===== src/Http/Contract/Routes.antt =====
-- The middleware adds only refusals that the contract declares.
use gowallet.Prelude.{
  ℕ, String, ◌≡◌, refl, sym, inl, inr, ◌⊎◌, Bool-cases, Option, none, some, true, Result, ok, err,
  ◌==◌,
}
use mathlib.Core.Path.{subst}
use gowallet.Wallet.{Identity, Error}
use gowallet.Http.Auth.{authenticator, admit, after_bearer, bearer_token, verify_token}
use gowallet.Http.Errors.{write_error}
use gowallet.Http.Jwt.{Jwt}
use gowallet.Http.Response.{Response, Web, write_json}
use gowallet.Http.Server.{Server, Context}
use gowallet.Http.Router.{
  Operation, operation, Request, is_public, dispatch, authenticate, validate, wrap_all, middlewares,
  answer, serve,
}
use gowallet.Http.Contract.Bodies.{ErrorBody, error_body}
use gowallet.Http.Contract.Rules.{Fits, Answers, reply-Answers, if-Answers}
use gowallet.Http.Contract.Declared.{Declared}
use gowallet.Http.Contract.Handlers.{
  ContractRepositories, get_account-Answers, get_balance-Answers, list_accounts-Answers,
  list_transactions-Answers, list_audit-Answers,
}
use gowallet.Http.Contract.Writes.{
  create_account-Answers, create_transaction-Answers, redeem_points-Answers,
}
use gowallet.Http.Contract.Login.{login-Answers, ingest_batch-Answers, get_health-Answers}
use gowallet.Http.Contract.Accounts.{
  list_accounts_401, create_account_400, create_account_401, get_account_400, get_account_401,
  get_balance_400, get_balance_401,
}
use gowallet.Http.Contract.Ledger.{
  redeem_points_400, redeem_points_401, list_transactions_400, list_transactions_401,
  create_transaction_400, create_transaction_401,
}
use gowallet.Http.Contract.Service.{
  list_audit_400, list_audit_401, ingest_batch_400, ingest_batch_401, login_400, login_401,
}

-- An error body with this status has `D`.
abbrev Errs : ℕ → (Response → Type 0) → Type 0
Errs status D = (b : ErrorBody) → D (write_json status (error_body b))

-- What routing and validation see to: `GET /healthz` is a public path, and neither it nor
-- `GET /accounts` has a parameter or a body that the validator could refuse.
abbrev pub IsRouted : Operation → Request → Type 0
IsRouted Operation.list_accounts req = req.satisfies_spec ≡ true
IsRouted Operation.get_health req = (is_public req.path ≡ true) × (req.satisfies_spec ≡ true)
IsRouted _ req = Unit

abbrev Refusals : Request → (Response → Type 0) → Type 0
Refusals req D =
    ((is_public req.path ≡ true) ⊎ Errs 401 D) × ((req.satisfies_spec ≡ true) ⊎ Errs 400 D)

refusals : (op : Operation) (req : Request) → IsRouted op req → Refusals req (Declared op)
refusals Operation.list_accounts req h = (inr (λ b. (list_accounts_401 b, refl, refl)), inl h)
refusals (Operation.create_account body) req h =
    (inr (λ b. (create_account_401 b, refl, refl)), inr (λ b. (create_account_400 b, refl, refl)))
refusals (Operation.get_account id) req h =
    (inr (λ b. (get_account_401 b, refl, refl)), inr (λ b. (get_account_400 b, refl, refl)))
refusals (Operation.get_balance id) req h =
    (inr (λ b. (get_balance_401 b, refl, refl)), inr (λ b. (get_balance_400 b, refl, refl)))
refusals (Operation.redeem_points id body) req h =
    (inr (λ b. (redeem_points_401 b, refl, refl)), inr (λ b. (redeem_points_400 b, refl, refl)))
refusals (Operation.list_transactions id) req h = (
  inr (λ b. (list_transactions_401 b, refl, refl)),
  inr (λ b. (list_transactions_400 b, refl, refl)),
)
refusals (Operation.list_audit id) req h =
    (inr (λ b. (list_audit_401 b, refl, refl)), inr (λ b. (list_audit_400 b, refl, refl)))
refusals (Operation.ingest_batch file) req h =
    (inr (λ b. (ingest_batch_401 b, refl, refl)), inr (λ b. (ingest_batch_400 b, refl, refl)))
refusals Operation.get_health req h = (inl h.0, inl h.1)
refusals (Operation.login body) req h =
    (inr (λ b. (login_401 b, refl, refl)), inr (λ b. (login_400 b, refl, refl)))
refusals (Operation.create_transaction body) req h = (
  inr (λ b. (create_transaction_401 b, refl, refl)),
  inr (λ b. (create_transaction_400 b, refl, refl)),
)

fitting_refusals : (req : Request) (D : Response → Type 0) → Refusals req D → Refusals req (Fits D)
fitting_refusals req D (inl public, inl satisfied) = (inl public, inl satisfied)
fitting_refusals req D (inl public, inr errs) = (inl public, inr (λ b. inr (errs b)))
fitting_refusals req D (inr errs, inl satisfied) = (inr (λ b. inr (errs b)), inl satisfied)
fitting_refusals req D (inr auth_errs, inr errs) =
    (inr (λ b. inr (auth_errs b)), inr (λ b. inr (errs b)))

module _ {S : Type 0} (P : S → Type 0) (D : Response → Type 0) where
  module _ (jwt : Jwt) (secret request_id : String) (now : ℕ) (next : Identity → Web S)
      (errs : Errs 401 D) (answers : (id : Identity) → Answers P D (next id)) where
    admit-Answers :
        (r : Result Error Identity) → Answers P D (admit jwt secret request_id now next r)
    unfolding authenticator
    admit-Answers (err e) = reply-Answers _ (errs _)
    admit-Answers (ok id) = answers id

    after_bearer-Answers :
        (found : Option String) → Answers P D (after_bearer jwt secret request_id now next found)
    unfolding authenticator
    after_bearer-Answers none = reply-Answers _ (errs _)
    after_bearer-Answers (some token) = admit-Answers (verify_token jwt secret now token)

    authenticator-Answers :
        (header : String) → Answers P D (authenticator jwt secret request_id now next header)
    unfolding authenticator
    authenticator-Answers header = after_bearer-Answers (bearer_token header)

  module _ (srv : Server S) (req : Request) where
    abbrev HandlerAnswers : (Context → Web S) → Type 0
    HandlerAnswers h = (ctx : Context) → Answers P D (h ctx)

    authenticate-Answers :
        (h : Context → Web S)
        → (is_public req.path ≡ true) ⊎ Errs 401 D
        → HandlerAnswers h
        → HandlerAnswers (authenticate srv req h)
    authenticate-Answers h (inl public) k ctx = rw public (k ctx)
    authenticate-Answers h (inr errs) k ctx =
        if-Answers _ _ _ (k ctx)
          (authenticator-Answers srv.jwt srv.jwt_secret ctx.request_id ctx.now _ errs (λ id. k _) _)

    validate-Answers :
        (h : Context → Web S)
        → (req.satisfies_spec ≡ true) ⊎ Errs 400 D
        → HandlerAnswers h
        → HandlerAnswers (validate srv req h)
    unfolding write_error
    validate-Answers h (inl satisfied) k ctx = rw satisfied (k ctx)
    validate-Answers h (inr errs) k ctx = if-Answers _ _ _ (k ctx) (reply-Answers _ (errs _))

    pub middlewares-Answers :
        (h : Context → Web S)
        → Refusals req D
        → HandlerAnswers h
        → HandlerAnswers (wrap_all srv (middlewares srv req) h)
    unfolding middlewares
    middlewares-Answers h (auth, valid) k ctx = elim (Bool-cases (srv.jwt_secret == "")) [
      | inl no_secret ↦ elim (Bool-cases (srv.spec_yaml == "")) [
        | inl no_spec ↦ rw (no_secret, no_spec) (k ctx)
        | inr spec ↦ rw (no_secret, spec) (validate-Answers h valid k ctx)
      ]
      | inr secret ↦ elim (Bool-cases (srv.spec_yaml == "")) [
        | inl no_spec ↦ rw (secret, no_spec) (authenticate-Answers h auth k ctx)
        | inr spec ↦
            rw (secret, spec) (validate-Answers _ valid (authenticate-Answers h auth k) ctx)
      ]
    ]

module _ {S : Type 0} (P : S → Type 0) (srv : Server S)
    (repositories : ContractRepositories P srv) where
  dispatch-Answers :
      (op : Operation) (ctx : Context) → Answers P (Fits (Declared op)) (dispatch srv op ctx)
  unfolding dispatch
  dispatch-Answers Operation.list_accounts ctx = list_accounts-Answers P srv repositories ctx
  dispatch-Answers (Operation.create_account body) ctx =
      create_account-Answers P srv repositories ctx body
  dispatch-Answers (Operation.get_account id) ctx = get_account-Answers P srv repositories ctx id
  dispatch-Answers (Operation.get_balance id) ctx = get_balance-Answers P srv repositories ctx id
  dispatch-Answers (Operation.redeem_points id body) ctx =
      redeem_points-Answers P srv repositories ctx id body
  dispatch-Answers (Operation.list_transactions id) ctx =
      list_transactions-Answers P srv repositories ctx id
  dispatch-Answers (Operation.list_audit id) ctx = list_audit-Answers P srv repositories ctx id
  dispatch-Answers (Operation.ingest_batch file) ctx =
      ingest_batch-Answers P srv repositories ctx file
  dispatch-Answers Operation.get_health ctx = get_health-Answers P srv repositories ctx
  dispatch-Answers (Operation.login body) ctx = login-Answers P srv repositories ctx body
  dispatch-Answers (Operation.create_transaction body) ctx =
      create_transaction-Answers P srv repositories ctx body

  pub operation-Answers :
      (req : Request) (ctx : Context) (op : Operation)
      → IsRouted op req
      → req.target ≡ operation op
      → Answers P (Fits (Declared op)) (serve srv req ctx)
  unfolding serve
  operation-Answers req ctx op routed matched =
      subst (λ t. Answers P (Fits (Declared op)) (answer srv req ctx t)) (sym matched)
        (middlewares-Answers P (Fits (Declared op)) srv req (dispatch srv op)
          (fitting_refusals req (Declared op) (refusals op req routed)) (dispatch-Answers op)
          (record ctx { identity = none }))
