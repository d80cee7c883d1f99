-- ===== src/System.antt =====
-- The whole service as `run` of cmd/gowallet/main.go wires it: the router over the services over the
-- store, and what a sequence of requests leaves of the database. The one connection serialises the
-- statements, and a recording runs inside one transaction.
pub mod Invariant
pub mod History
pub mod Ingest
pub mod Replay
pub mod Api
pub mod Reupload
pub mod Startup
pub mod Contract
pub mod Liveness
use gowallet.Prelude.{ℕ, String, List, [], ◌∷◌}
use gowallet.Wallet.Service.Bcrypt.{Bcrypt}
use gowallet.Store.Driver.{Driver}
use gowallet.Store.Session.{World}
use gowallet.Store.Repositories
use gowallet.Http.Jwt.{Jwt}
use gowallet.Http.Server.{Server, Context}
use gowallet.Http.Response.{Response}
use gowallet.Http.Router.{Request, serve}

-- What the program takes from outside: the driver's texts, bcrypt, JWT, the secret, the time to live
-- of a token in nanoseconds, and the contract.
pub record Environment : Type 0 where
  pub driver : Driver
  pub bcrypt : Bcrypt
  pub jwt : Jwt
  pub jwt_secret : String
  pub jwt_ttl : ℕ
  pub spec_yaml : String

-- `httpapi.Deps` over the store.
abbrev pub server : Environment → Server World
server env = record {
  accounts = Repositories.accounts env.driver;
  txns = Repositories.transactions env.driver;
  audit = Repositories.audit env.driver;
  db = Repositories.pinger env.driver;
  bcrypt = env.bcrypt;
  jwt = env.jwt;
  spec_yaml = env.spec_yaml;
  jwt_secret = env.jwt_secret;
  jwt_ttl = env.jwt_ttl;
}

-- Requests one after the other.
unfoldable pub serve_all : Environment → List (Request × Context) → World → World
serve_all env [] w = w
serve_all env ((req, ctx) ∷ rest) w = serve_all env rest (serve (server env) req ctx w).1
