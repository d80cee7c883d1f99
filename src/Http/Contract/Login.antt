-- ===== src/Http/Contract/Login.antt =====
-- The same of `Login`, `IngestBatch` and `GetHealth`.
use gowallet.Prelude.{
  String, refl, inl, inr, Option, none, some, List, [], ◌∷◌, Result, ok, err, Bool-cases,
}
use gowallet.Wallet.{Error, Identity, is, invalid_credentials}
use gowallet.Wallet.Health.{report, check}
use gowallet.Wallet.Service
use gowallet.Http.Response.{reply, run, on_result}
use gowallet.Http.Router.{Operation}
use gowallet.Http.Server
use gowallet.Http.Server.{Server, Context, health_response}
use gowallet.Http.Accounts.{or_empty}
use gowallet.Http.Auth.{issue_token}
use gowallet.Http.Login
use gowallet.Http.Login.{LoginRequest}
use gowallet.Http.Batch
use gowallet.Http.Batch.{Line, fields, broken, same_header, expected_header, no_rows_yet}
use gowallet.Http.Contract.Rules.{Fits, require_admin-Answers, reply-Answers, if-Fits}
use gowallet.Http.Contract.Handlers.{ContractRepositories, AnswersOperation}
use gowallet.Http.Contract.Declared.{Declared}
use gowallet.Http.Contract.Service.{
  ingest_batch_200, ingest_batch_400, ingest_batch_403, get_health_200, get_health_503, login_200,
  login_400, login_401,
}

module _ {S : Type 0} (P : S → Type 0) (srv : Server S) (repositories : ContractRepositories P srv)
    (ctx : Context) where
  minted-Fits :
      (body : LoginRequest) (r : Result Error String)
      → Fits (Declared (Operation.login (some body))) (Login.minted srv ctx r)
  unfolding Login.minted
  minted-Fits body (ok text) =
      inr (login_200 (record { token = text; token_type = "Bearer"; expires_in = _ }), refl, refl)
  minted-Fits body (err e) = inl refl

  login_failed-Fits :
      (body : LoginRequest) (e : Error)
      → Fits (Declared (Operation.login (some body))) (Login.login_failed srv ctx e)
  unfolding Login.login_failed
  login_failed-Fits body e =
      if-Fits (Declared (Operation.login (some body))) [] tt (is e invalid_credentials) _ _
        (inr (login_401 _, refl, refl)) (inl refl)

  pub login-Answers :
      (body : Option LoginRequest)
      → AnswersOperation P srv repositories ctx (Operation.login body) (Login.login srv ctx body)
  unfolding Login.login run on_result reply
  login-Answers none = reply-Answers _ (inr (login_400 _, refl, refl))
  login-Answers (some body) = record { at = λ s _. after (called s).0 (called s).1 }
    where
      called : S → Result Error Identity × S
      called = Service.login srv.bcrypt srv.accounts body.account_id (or_empty body.secret)

      after :
          (r : Result Error Identity) (s : S)
          → Fits
              (Declared (Operation.login (some body)))
              (on_result r
                (λ id. reply (
                  Login.minted srv ctx (issue_token srv.jwt srv.jwt_secret ctx.now srv.jwt_ttl id)))
                (λ e. reply (Login.login_failed srv ctx e))
                s).0
      after (ok id) s = minted-Fits body _
      after (err e) s = login_failed-Fits body e

  ingest_file-Answers :
      (lines : List Line)
      → AnswersOperation P srv repositories ctx
          (Operation.ingest_batch (some lines))
          (Batch.ingest_file srv ctx lines)
  unfolding Batch.ingest_file Batch.summarise Batch.bad_header
  ingest_file-Answers [] = record { at = λ s _. inr (ingest_batch_400 _, refl, refl) }
  ingest_file-Answers (broken ∷ lines) = record { at = λ s _. inr (ingest_batch_400 _, refl, refl) }
  ingest_file-Answers (fields header ∷ lines) = record {
    at = λ s _. elim (Bool-cases (same_header header expected_header)) [
      | inl right ↦ rw right (inr (ingest_batch_200 _, refl, refl))
      | inr wrong ↦ rw wrong (inr (ingest_batch_400 _, refl, refl))
    ];
  }

  pub ingest_batch-Answers :
      (file : Option (List Line))
      → AnswersOperation P srv repositories ctx
          (Operation.ingest_batch file)
          (Batch.ingest_batch srv ctx file)
  unfolding Batch.ingest_batch
  ingest_batch-Answers none =
      require_admin-Answers _ ctx.request_id ctx.identity _ (λ b. (ingest_batch_403 b, refl, refl))
        (λ _. reply-Answers _ (inr (ingest_batch_400 _, refl, refl)))
  ingest_batch-Answers (some lines) =
      require_admin-Answers _ ctx.request_id ctx.identity _ (λ b. (ingest_batch_403 b, refl, refl))
        (λ _. ingest_file-Answers lines)

  health-Fits :
      (r : Result Error (Unit {0}))
      → Fits (Declared Operation.get_health) (health_response (report r))
  unfolding report
  health-Fits (ok _) = inr (get_health_200 (record { status = "ok"; db = "up" }), refl, refl)
  health-Fits (err _) =
      inr (get_health_503 (record { status = "degraded"; db = "down" }), refl, refl)

  pub get_health-Answers :
      AnswersOperation P srv repositories ctx Operation.get_health (Server.get_health srv)
  unfolding Server.get_health check
  get_health-Answers = record { at = λ s _. health-Fits (srv.db.ping s).0 }
