-- ===== src/System/Contract.antt =====
-- The service over the store keeps to the contract that api/openapi.yaml generates.
use gowallet.Prelude.{◌≡◌}
use gowallet.Store.Invariant.{IsValid}
use gowallet.Store.Session.{World}
use gowallet.Store.Raises
use gowallet.Store.Ledger.Raises as LedgerRaises
use gowallet.Store.Listing.Roles.{list_accounts-Only}
use gowallet.Store.Registration.Stored.{create_account-Leaves}
use gowallet.Store.Accounts.{to_error}
use gowallet.Store.Words.{list_transactions-Gives, list_audit-Gives, record_transaction-Gives}
use gowallet.Http.Server.{Context}
use gowallet.Http.Router.{Operation, operation, Request, serve}
use gowallet.Http.Contract.Rules.{Fits}
use gowallet.Http.Contract.Declared.{Declared}
use gowallet.Http.Contract.Handlers.{ContractRepositories}
use gowallet.Http.Contract.Routes.{IsRouted, operation-Answers}
use gowallet.System.{Environment, server}

repositories-ContractRepositories :
    (env : Environment) → ContractRepositories (λ w. IsValid w.db) (server env)
repositories-ContractRepositories env = record {
  create_account = Raises.create_account-Raises env.driver;
  stored = create_account-Leaves env.driver;
  get_account = Raises.get_account-Raises env.driver;
  balance = Raises.balance-Raises env.driver;
  list_transactions = Raises.list_transactions-Raises env.driver;
  listed_kinds = list_transactions-Gives env.driver;
  kept_kind = record_transaction-Gives (to_error env.driver);
  listed_outcomes = list_audit-Gives (to_error env.driver);
  list_accounts = list_accounts-Only env.driver;
  record_transaction = LedgerRaises.record_transaction-Raises env.driver;
  list_audit = Raises.list_audit-Raises env.driver;
}

-- Whatever driver calls fail, a request to an operation of the contract over a valid database is
-- answered with the status, the headers and the body of one of the response objects that are generated
-- for that operation, or with status 500. Every field of an enumerated type has a value of that type
-- (roles of listed accounts, kinds of listed lines, of redemptions and of created transactions,
-- outcomes of audit entries, token types, the two words on health), but for the kind of a transaction
-- that POST /transactions repeats with 200, which is one of earn, spend and redeem. The body on health
-- is the generated one as a JSON object, whose fields stand in another order. `GET /healthz` has to
-- come on a public path, and neither it nor `GET /accounts` to be refused by the validator.
pub serve-Fits :
    (env : Environment) (req : Request) (ctx : Context) (op : Operation) (w : World)
    → IsValid w.db
    → IsRouted op req
    → req.target ≡ operation op
    → Fits (Declared op) (serve (server env) req ctx w).0
serve-Fits env req ctx op w valid routed matched =
    (operation-Answers (λ w. IsValid w.db) (server env) (repositories-ContractRepositories env) req
        ctx op routed matched).at
      w valid
