-- ===== src/Http/Router.antt =====
-- `NewRouter` of internal/httpapi/httpapi.go, validate.go and infra.go, with the middleware loop of
-- gen/types_server.gen.go. chi's matching and kin-openapi's verdict on a request against
-- api/openapi.yaml are outside: a request comes with its target and with that verdict.
use gowallet.Prelude.{String, Option, none, some, List, [], ◌∷◌, Bool, ◌||◌, ◌==◌, if◌then◌else◌}
use gowallet.Http.Response.{Web, reply}
use gowallet.Http.Errors.{write_error, not_found_handler, method_not_allowed_handler}
use gowallet.Http.Auth.{authenticator}
use gowallet.Http.Server
use gowallet.Http.Server.{Server, Context}
use gowallet.Http.Accounts
use gowallet.Http.Accounts.{NewAccount}
use gowallet.Http.Transactions
use gowallet.Http.Transactions.{NewTransaction, NewRedemption}
use gowallet.Http.Infra.{serve_spec, serve_swagger}
use gowallet.Http.Login
use gowallet.Http.Login.{LoginRequest}
use gowallet.Http.Audit
use gowallet.Http.Batch
use gowallet.Http.Batch.{Line}

-- The operations of the generated `ServerInterface`, with their decoded parameters and bodies.
pub data Operation : Type 0 where
  list_accounts : Operation
  create_account : Option NewAccount → Operation
  get_account : String → Operation
  get_balance : String → Operation
  redeem_points : String → Option NewRedemption → Operation
  list_transactions : String → Operation
  list_audit : Option String → Operation
  ingest_batch : Option (List Line) → Operation
  get_health : Operation
  login : Option LoginRequest → Operation
  create_transaction : Option NewTransaction → Operation

-- What chi matched: an operation whose path parameters could be bound or not, an infra route,
-- nothing, or a path with another method.
pub data Target : Type 0 where
  operation : Operation → Target
  bad_parameter : Target
  spec_file : Target
  swagger : Target
  no_route : Target
  other_method : String → Target

-- `satisfies_spec` is the validator's verdict.
pub record Request : Type 0 where
  pub path : String
  pub authorization : String
  pub satisfies_spec : Bool
  pub target : Target

-- `publicPaths`
unfoldable pub is_public : String → Bool
is_public path =
    path == "/healthz" || path == "/login" || path == "/openapi.yaml" || path == "/swagger"

module _ {S : Type 0} (srv : Server S) where
  -- The handler of an operation.
  unfoldable pub dispatch : Operation → Context → Web S
  dispatch list_accounts ctx = Accounts.list_accounts srv ctx
  dispatch (create_account body) ctx = Accounts.create_account srv ctx body
  dispatch (get_account id) ctx = Accounts.get_account srv ctx id
  dispatch (get_balance id) ctx = Accounts.get_balance srv ctx id
  dispatch (redeem_points id body) ctx = Transactions.redeem_points srv ctx id body
  dispatch (list_transactions id) ctx = Accounts.list_transactions srv ctx id
  dispatch (list_audit id) ctx = Audit.list_audit srv ctx id
  dispatch (ingest_batch file) ctx = Batch.ingest_batch srv ctx file
  dispatch get_health ctx = Server.get_health srv
  dispatch (login body) ctx = Login.login srv ctx body
  dispatch (create_transaction body) ctx = Transactions.create_transaction srv ctx body

  abbrev pub Handler : Type 0
  Handler = Context → Web S

  -- The authentication middleware that `NewRouter` builds from `Authenticator`.
  abbrev pub authenticate : Request → Handler → Handler
  authenticate req next ctx =
      if is_public req.path
      then next ctx
      else authenticator srv.jwt srv.jwt_secret ctx.request_id ctx.now
          (λ id. next (record ctx { identity = some id })) req.authorization

  -- The middleware of `newValidator`.
  abbrev pub validate : Request → Handler → Handler
  validate req next ctx =
      if req.satisfies_spec
      then next ctx
      else reply (
          write_error ctx.request_id 400 "invalid_input"
            "request does not satisfy the API contract")

  -- `for _, middleware := range siw.HandlerMiddlewares { handler = middleware(handler) }`
  abbrev pub wrap_all : List (Handler → Handler) → Handler → Handler
  wrap_all [] handler = handler
  wrap_all (middleware ∷ more) handler = wrap_all more (middleware handler)

  -- `mws`: auth only with a secret, and the validator only with a spec.
  abbrev spec_checks : Request → List (Handler → Handler)
  spec_checks req = if srv.spec_yaml == "" then [] else validate req ∷ []

  unfoldable pub middlewares : Request → List (Handler → Handler)
  middlewares req =
      if srv.jwt_secret == "" then spec_checks req else authenticate req ∷ spec_checks req

  -- The answer to what was matched.
  unfoldable pub answer : Request → Context → Target → Web S
  unfolding dispatch middlewares is_public write_error serve_spec serve_swagger not_found_handler
      method_not_allowed_handler
  answer req ctx (operation op) =
      wrap_all (middlewares req) (dispatch op) (record ctx { identity = none })
  answer req ctx bad_parameter =
      reply (write_error ctx.request_id 400 "invalid_input" "malformed path parameter")
  answer req ctx spec_file = reply (serve_spec srv.spec_yaml)
  answer req ctx swagger = reply serve_swagger
  answer req ctx no_route = reply (not_found_handler ctx.request_id)
  answer req ctx (other_method allow) = reply (method_not_allowed_handler ctx.request_id allow)

  -- The router. A request begins with no identity in its context.
  unfoldable pub serve : Request → Context → Web S
  unfolding answer
  serve req ctx = answer req ctx req.target
