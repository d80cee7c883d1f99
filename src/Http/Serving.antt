-- ===== src/Http/Serving.antt =====
-- What the middleware chain of `NewRouter` lets through, and in which order it refuses.
use gowallet.Prelude.{
  String, ◌≡◌, refl, ap, inl, inr, none, some, true, false, ok, err, ◌==◌, Bool-cases, Option-cases,
}
use gowallet.Wallet.{Identity, Error}
use gowallet.Http.Response.{reply}
use gowallet.Http.Errors.{write_error}
use gowallet.Http.Auth.{authenticator, bearer_token, verify_token}
use gowallet.Http.Server.{Server, Context}
use gowallet.Http.Router.{
  Request, Operation, operation, dispatch, middlewares, is_public, wrap_all, answer, serve,
}

-- The identity that a request proves: its bearer token, verified.
abbrev pub Proves : {S : Type 0} → Server S → Request → Context → Identity → Type 0
Proves srv req ctx id =
    (token : String) × (bearer_token req.authorization ≡ some token)
    × (verify_token srv.jwt srv.jwt_secret ctx.now token ≡ ok id)

abbrev pub IsRefused : {S : Type 0} → Server S → Request → Context → Type 0
IsRefused srv req ctx =
    (token : String)
    → bearer_token req.authorization ≡ some token
    → (e : Error) × (verify_token srv.jwt srv.jwt_secret ctx.now token ≡ err e)

module _ {S : Type 0} (srv : Server S) (req : Request) (ctx : Context) (op : Operation) (s : S)
    (matched : req.target ≡ operation op) where
  serve_operation :
      serve srv req ctx s
      ≡ wrap_all srv (middlewares srv req) (dispatch srv op) (record ctx { identity = none }) s
  unfolding serve
  serve_operation = ap (λ target. answer srv req ctx target s) matched

  -- With a contract loaded, a request for an operation that does not satisfy it is answered 400 and
  -- changes nothing, whatever its path and its token: the validator runs before the authentication.
  pub contract_checked_first :
      (srv.spec_yaml == "") ≡ false
      → req.satisfies_spec ≡ false
      → serve srv req ctx s ≡ (
        write_error ctx.request_id 400 "invalid_input" "request does not satisfy the API contract",
        s,
      )
  unfolding middlewares reply
  contract_checked_first spec broken = elim (Bool-cases (srv.jwt_secret == "")) [
    | inl no_secret ↦ simp (serve_operation, spec, broken, no_secret) refl
    | inr secret ↦ simp (serve_operation, spec, broken, secret) refl
  ]

  module _ (secret : (srv.jwt_secret == "") ≡ false) (satisfies : req.satisfies_spec ≡ true)
      (protected : is_public req.path ≡ false) where
    -- With a secret configured, a request for an operation that the validator accepts, on a path that is
    -- not public, with no bearer token or with one that is not accepted, is answered 401 and changes
    -- nothing.
    pub unproven_refused :
        IsRefused srv req ctx
        → ((serve srv req ctx s).0.status ≡ 401) × ((serve srv req ctx s).1 ≡ s)
    unfolding middlewares reply authenticator write_error
    unproven_refused refused = elim (Bool-cases (srv.spec_yaml == "")) [
      | inl no_spec ↦ elim (Option-cases (bearer_token req.authorization)) [
        | inl missing ↦ simp (serve_operation, secret, protected, no_spec, missing) (refl, refl)
        | inr (token, found) ↦
            let (e, rejected) = refused token found in
            simp (serve_operation, secret, protected, no_spec, found, rejected) (refl, refl)
      ]
      | inr spec ↦ elim (Option-cases (bearer_token req.authorization)) [
        | inl missing ↦
            simp (serve_operation, secret, satisfies, protected, spec, missing) (refl, refl)
        | inr (token, found) ↦
            let (e, rejected) = refused token found in
            simp (serve_operation, secret, satisfies, protected, spec, found, rejected) (refl, refl)
      ]
    ]

    -- With a secret configured, a request for an operation that the validator accepts, on a path that is
    -- not public, and whose bearer token is accepted, reaches the handler exactly with the identity that
    -- its token proves.
    pub proven_served :
        (id : Identity)
        → Proves srv req ctx id
        → serve srv req ctx s ≡ dispatch srv op (record ctx { identity = some id }) s
    unfolding middlewares reply authenticator
    proven_served id (token, found, verified) = elim (Bool-cases (srv.spec_yaml == "")) [
      | inl no_spec ↦ simp (serve_operation, secret, protected, no_spec, found, verified) refl
      | inr spec ↦ simp (serve_operation, secret, satisfies, protected, spec, found, verified) refl
    ]
