-- ===== src/System/Liveness/Writes.antt =====
-- The same of the handlers that write, of `Login`, `IngestBatch` and `GetHealth`.
use gowallet.Prelude.{
  String, ◌≡◌, ◌≢◌, refl, inl, inr, Option, none, some, List, [], ◌∷◌, Result, ok, err, ◌==◌, ◌||◌,
  Bool-cases, Result-cases,
}
use gowallet.Wallet.{Account, Identity, Error, zero_time}
use gowallet.Wallet.Login.{login-uniform}
use gowallet.Wallet.Health.{report, check}
use gowallet.Wallet.Service
use gowallet.Wallet.Service.Bcrypt.{HashError, too_long, other}
use gowallet.Store.Db.{Db, Stamp}
use gowallet.Store.Accounts
use gowallet.Store.Ledger.Calm.{calm, is_known}
use gowallet.Store.Registration.{create_account_computed}
use gowallet.Store.Session.{World}
use gowallet.Store.Sure.{get_account-IsFoundOrNot}
use gowallet.Http.Errors.Known.{
  IsAnswer, FailsKnown, choose-IsAnswer, run-IsAnswer, on_result-IsAnswer,
}
use gowallet.Http.Errors.{write_error}
use gowallet.Http.Auth.{issue_token, claims_of}
use gowallet.Http.Jwt.{Claims}
use gowallet.Http.Response.{reply, run, on_result}
use gowallet.Http.Server
use gowallet.Http.Server.{Context, health_response}
use gowallet.Http.Accounts as AccountHandlers
use gowallet.Http.Accounts.{NewAccount, or_empty}
use gowallet.Http.Login as LoginHandler
use gowallet.Http.Login.{LoginRequest}
use gowallet.Http.Batch
use gowallet.Http.Batch.{Line, fields, broken, same_header, expected_header}
use gowallet.System.{Environment, server}
use gowallet.System.Liveness.{IsFoundOrNot-FailsKnown, require_admin-FailsKnown}

-- The libraries do their part: tokens can be signed, and a secret that is not too long can be hashed.
pub record LibrariesWork (env : Environment) : Type 0 where
  pub signs : (c : Claims) → (text : String) × (env.jwt.sign env.jwt_secret c ≡ ok text)
  pub hashes : (salt secret text : String) → env.bcrypt.generate salt secret ≢ err (other text)

-- What a call does when no driver call fails: it fails with known errors, and none will fail after it.
abbrev Calmly : {A : Type 0} → Stamp → Result Error A × World → Type 0
Calmly now (r, w) = FailsKnown r × ((db : Db) × (w ≡ calm db now))

module _ (env : Environment) (works : LibrariesWork env) (ctx : Context) (db : Db)
    (now : Stamp) where
  stored-Calmly :
      (a : Account) (hash : String)
      → Calmly now (Accounts.create_account env.driver a hash (calm db now))
  stored-Calmly a hash = elim (Bool-cases (is_known a.id db)) [
    | inl taken ↦ rw (create_account_computed env.driver a hash db now, taken) (refl, (db, refl))
    | inr free ↦ rw (create_account_computed env.driver a hash db now, free) (tt, (_, refl))
  ]

  hashed-Calmly :
      (a : Account) (salt secret : String)
      → Calmly now (
          Service.store_hashed env.bcrypt
            (server env).accounts
            a
            (env.bcrypt.generate salt secret)
            (calm db now))
  unfolding Service.store_hashed
  hashed-Calmly a salt secret = by_hash (env.bcrypt.generate salt secret) (works.hashes salt secret)
    where
      by_hash :
          (r : Result HashError String)
          → ((text : String) → r ≢ err (other text))
          → Calmly now (Service.store_hashed env.bcrypt (server env).accounts a r (calm db now))
      by_hash (ok hash) h = stored-Calmly a hash
      by_hash (err too_long) h = (refl, (db, refl))
      by_hash (err (other text)) h = elim (h text refl) [ ]

  service-Calmly :
      (a : Account) (salt secret : String)
      → Calmly now
          (Service.create_account env.bcrypt (server env).accounts salt a secret (calm db now))
  unfolding Service.create_account
  service-Calmly a salt secret = elim (Bool-cases (a.id == "" || a.name == "")) [
    | inl incomplete ↦ rw incomplete (refl, (db, refl))
    | inr complete ↦ elim (Bool-cases (secret == "")) [
      | inl no_secret ↦ rw (complete, no_secret) (stored-Calmly a "")
      | inr some_secret ↦ rw (complete, some_secret) (hashed-Calmly a salt secret)
    ]
  ]

  read_back-IsAnswer :
      (id : String) (db : Db)
      → IsAnswer (AccountHandlers.read_back (server env) ctx id (calm db now)).0
  unfolding AccountHandlers.read_back reply
  read_back-IsAnswer id db =
      run-IsAnswer ctx.request_id _ _ _
        (IsFoundOrNot-FailsKnown _ (get_account-IsFoundOrNot env.driver db now id)) (λ acct _. refl)

  pub create_account-IsAnswer :
      (body : Option NewAccount)
      → IsAnswer (AccountHandlers.create_account (server env) ctx body (calm db now)).0
  unfolding AccountHandlers.create_account AccountHandlers.create reply write_error
  create_account-IsAnswer none = refl
  create_account-IsAnswer (some body) =
      let a : Account = record { id = body.account_id; name = body.name; created_at = zero_time } in
      let (known, (db', after)) = service-Calmly a ctx.salt (or_empty body.secret) in
      choose-IsAnswer (body.account_id == "" || body.name == "") _ _ (calm db now) refl (
        run-IsAnswer ctx.request_id
          (Service.create_account env.bcrypt (server env).accounts ctx.salt a
            (or_empty body.secret))
          _ (calm db now) known (λ _ _. rw after (read_back-IsAnswer body.account_id db')))

  minted-IsAnswer :
      (id : Identity)
      → IsAnswer (
          LoginHandler.minted
            (server env)
            ctx
            (issue_token env.jwt env.jwt_secret ctx.now env.jwt_ttl id))
  unfolding LoginHandler.minted issue_token
  minted-IsAnswer id =
      let (text, signed) = works.signs (claims_of ctx.now env.jwt_ttl id) in rw signed refl

  pub login-IsAnswer :
      (body : Option LoginRequest) (w : World)
      → IsAnswer (LoginHandler.login (server env) ctx body w).0
  unfolding LoginHandler.login LoginHandler.login_failed reply run on_result write_error
  login-IsAnswer none w = refl
  login-IsAnswer (some body) w =
      let secret : String = or_empty body.secret in
      let ended = login-uniform env.bcrypt (server env).accounts body.account_id secret w in
      elim (Result-cases
        (Service.login env.bcrypt (server env).accounts body.account_id secret w).0) [
          | inl (id, inside) ↦ rw inside (minted-IsAnswer id)
          | inr (e, refused) ↦ rw (refused, rw refused at ended) refl
        ]

  ingest_file-IsAnswer :
      (lines : List Line) (w : World) → IsAnswer (Batch.ingest_file (server env) ctx lines w).0
  unfolding Batch.ingest_file Batch.summarise Batch.bad_header
  ingest_file-IsAnswer [] w = refl
  ingest_file-IsAnswer (broken ∷ lines) w = refl
  ingest_file-IsAnswer (fields header ∷ lines) w =
      elim (Bool-cases (same_header header expected_header)) [
        | inl right ↦ rw right refl
        | inr wrong ↦ rw wrong refl
      ]

  pub ingest_batch-IsAnswer :
      (file : Option (List Line)) (w : World)
      → IsAnswer (Batch.ingest_batch (server env) ctx file w).0
  unfolding Batch.ingest_batch reply write_error
  ingest_batch-IsAnswer none w =
      on_result-IsAnswer ctx.request_id _ _ _ (require_admin-FailsKnown ctx.identity) (λ _ _. refl)
  ingest_batch-IsAnswer (some lines) w =
      on_result-IsAnswer ctx.request_id _ _ _ (require_admin-FailsKnown ctx.identity)
        (λ _ _. ingest_file-IsAnswer lines w)

health_response-IsAnswer : (r : Result Error (Unit {0})) → IsAnswer (health_response (report r))
unfolding report
health_response-IsAnswer (ok _) = refl
health_response-IsAnswer (err _) = refl

pub get_health-IsAnswer :
    (env : Environment) (w : World) → IsAnswer (Server.get_health (server env) w).0
unfolding Server.get_health check
get_health-IsAnswer env w = health_response-IsAnswer ((server env).db.ping w).0
