-- ===== src/System/Invariant.antt =====
-- The well-formedness of the database under requests.
use gowallet.Prelude.{refl, Bool, String, List, [], ◌∷◌, arith, ◌≤◌}
use gowallet.Store.Db.{Stamp, migrated}
use gowallet.Store.Additions.{create_account-IsValid, append_audit_entry-IsValid}
use gowallet.Store.Invariant.{IsValid, record_transaction-IsValid}
use gowallet.Store.Keeps.{
  OfDb, balance-keeps, get_account-keeps, get_credential-keeps, list_accounts-keeps,
  list_transactions-keeps, ping-keeps, list_audit-keeps, create_account-keeps, append_audit-keeps,
}
use gowallet.Store.Accounts.{to_error}
use gowallet.Store.Session.{World}
use gowallet.Store.Totals.{earned, deducted}
use gowallet.Http.Server.{Context}
use gowallet.Http.Router.{Request}
use gowallet.Http.Keeps.Rules.{KeepsRepositories}
use gowallet.Http.Keeps.Routes.{serve-keeps}
use gowallet.System.{Environment, server, serve_all}

pub repositories-keep_IsValid : (env : Environment) → KeepsRepositories (OfDb IsValid) (server env)
repositories-keep_IsValid env = record {
  create_account = λ a hash.
      create_account-keeps IsValid env.driver a hash
        (λ now. create_account-IsValid now a.id a.name _);
  get_account = get_account-keeps IsValid env.driver;
  balance = balance-keeps IsValid env.driver;
  get_credential = get_credential-keeps IsValid env.driver;
  list_accounts = list_accounts-keeps IsValid env.driver;
  list_transactions = list_transactions-keeps IsValid env.driver;
  record_transaction = λ t. record { at = record_transaction-IsValid (to_error env.driver) t };
  append_audit = λ e.
      append_audit-keeps IsValid env.driver (to_error env.driver) e (λ now.
        append_audit_entry-IsValid now e.ref e.account_id e.kind e.points e.outcome e.reason);
  list_audit = list_audit-keeps IsValid env.driver (to_error env.driver);
  ping = ping-keeps IsValid env.driver;
}

-- Any requests, whatever driver calls fail, keep a valid database valid.
pub serve_all-IsValid :
    (env : Environment) (requests : List (Request × Context)) (w : World)
    → IsValid w.db
    → IsValid (serve_all env requests w).db
unfolding serve_all
serve_all-IsValid env [] w h = h
serve_all-IsValid env ((req, ctx) ∷ rest) w h =
    serve_all-IsValid env rest _
      ((serve-keeps (OfDb IsValid) (server env) (repositories-keep_IsValid env) req ctx).at w h)

pub migrated-IsValid : (now : Stamp) → IsValid (migrated now)
migrated-IsValid now = record {
  legal = tt;
  known_roles = (refl, (refl, tt));
  distinct_refs = tt;
  falling_ids = tt;
  known_outcomes = tt;
  falling_audit = tt;
  solvent = λ id. omega arith;
}

-- From the migrated database, whatever the requests, the failing driver calls and the accounts: no
-- account ever has spent and redeemed more points than it has earned.
pub never_overdrawn :
    (env : Environment) (requests : List (Request × Context)) (now : Stamp) (faults : List Bool)
    (id : String)
    → let w : World =
        serve_all env requests (record { db = migrated now; now = now; faults = faults }) in
      deducted id w.db.transactions ≤ earned id w.db.transactions
never_overdrawn env requests now faults id =
    (serve_all-IsValid env requests _ (migrated-IsValid now)).solvent id
