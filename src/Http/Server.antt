-- ===== src/Http/Server.antt =====
-- The `server` struct of internal/httpapi/health.go with its services' collaborators, what a request
-- brings beside its body, and `GetHealth`.
use Prim.Native.String.{◌++◌}
use gowallet.Prelude.{ℕ, String, Option, ◌==◌, if◌then◌else◌}
use gowallet.Wallet.{AccountRepository, TransactionRepository, AuditRepository, Pinger, Identity}
use gowallet.Wallet.Service.Bcrypt.{Bcrypt}
use gowallet.Wallet.Health.{Health, check}
use gowallet.Http.Response.{Response, raw, Web, write_json}
use gowallet.Http.Jwt.{Jwt}

-- The services carry no state of their own, only their repositories.
pub record Server (S : Type 0) : Type 0 where
  pub accounts : AccountRepository S
  pub txns : TransactionRepository S
  pub audit : AuditRepository S
  pub db : Pinger S
  pub bcrypt : Bcrypt
  pub jwt : Jwt
  pub spec_yaml : String
  pub jwt_secret : String
  pub jwt_ttl : ℕ

-- The identity in the context, the request id, the time in nanoseconds, and the salt that bcrypt
-- draws while the request is served.
pub record Context : Type 0 where
  pub identity : Option Identity
  pub request_id : String
  pub now : ℕ
  pub salt : String

abbrev pub health_response : Health → Response
health_response h =
    write_json (if h.status == "ok" then 200 else 503)
      (raw ("{\"status\":\"" ++ h.status ++ "\",\"db\":\"" ++ h.db ++ "\"}"))

-- `GetHealth`
unfoldable pub get_health : {S : Type 0} → Server S → Web S
unfolding check
get_health srv s = let (h, s') = check srv.db s in (health_response h, s')
