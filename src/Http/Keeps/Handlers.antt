-- ===== src/Http/Keeps/Handlers.antt =====
-- Every handler keeps what the repository calls keep.
use gowallet.Prelude.{String, Option, none, some}
use gowallet.Wallet.Keeps.{
  record_earn-keeps, record_spend-keeps, record_redeem-keeps, create_account-keeps, login-keeps,
  if-keeps_call,
}
use gowallet.Http.Server
use gowallet.Http.Server.{Server, Context}
use gowallet.Http.Accounts
use gowallet.Http.Accounts.{NewAccount}
use gowallet.Http.Transactions
use gowallet.Http.Transactions.{NewTransaction, NewRedemption}
use gowallet.Http.Login
use gowallet.Http.Login.{LoginRequest}
use gowallet.Http.Audit as AuditHandler
use gowallet.Http.Keeps.Rules.{KeepsWeb, KeepsRepositories, web_rules}

module _ {S : Type 0} (P : S → Type 0) (srv : Server S) (keeps : KeepsRepositories P srv)
    (ctx : Context) where
  pub get_balance-keeps : (id : String) → KeepsWeb P (Accounts.get_balance srv ctx id)
  unfolding Accounts.get_balance
  get_balance-keeps id = search (web_rules, keeps.balance)

  pub get_account-keeps : (id : String) → KeepsWeb P (Accounts.get_account srv ctx id)
  unfolding Accounts.get_account
  get_account-keeps id = search (web_rules, keeps.get_account)

  pub list_accounts-keeps : KeepsWeb P (Accounts.list_accounts srv ctx)
  unfolding Accounts.list_accounts
  list_accounts-keeps = search (web_rules, keeps.list_accounts)

  pub list_transactions-keeps : (id : String) → KeepsWeb P (Accounts.list_transactions srv ctx id)
  unfolding Accounts.list_transactions
  list_transactions-keeps id = search (web_rules, keeps.list_transactions)

  pub create_account-KeepsWeb :
      (body : Option NewAccount) → KeepsWeb P (Accounts.create_account srv ctx body)
  unfolding Accounts.create_account
  create_account-KeepsWeb none = search web_rules
  create_account-KeepsWeb (some body) =
      search
        (
          web_rules,
          create_account-keeps P srv.bcrypt srv.accounts,
          keeps.create_account,
          keeps.get_account,
        )
        depth 9

  pub create_transaction-keeps :
      (body : Option NewTransaction) → KeepsWeb P (Transactions.create_transaction srv ctx body)
  unfolding Transactions.create_transaction
  create_transaction-keeps none = search web_rules
  create_transaction-keeps (some body) =
      search
        (
          web_rules,
          if-keeps_call,
          record_earn-keeps P srv.txns keeps.record_transaction,
          record_spend-keeps P srv.txns keeps.record_transaction,
        )
        depth 9

  pub redeem_points-keeps :
      (id : String) (body : Option NewRedemption)
      → KeepsWeb P (Transactions.redeem_points srv ctx id body)
  unfolding Transactions.redeem_points
  redeem_points-keeps id none = search web_rules
  redeem_points-keeps id (some body) =
      search (web_rules, record_redeem-keeps P srv.txns keeps.record_transaction)

  pub login-KeepsWeb : (body : Option LoginRequest) → KeepsWeb P (Login.login srv ctx body)
  unfolding Login.login
  login-KeepsWeb none = search web_rules
  login-KeepsWeb (some body) =
      search (web_rules, login-keeps P srv.bcrypt srv.accounts, keeps.get_credential)

  pub list_audit-keeps : (id : Option String) → KeepsWeb P (AuditHandler.list_audit srv ctx id)
  unfolding AuditHandler.list_audit
  list_audit-keeps id = search (web_rules, keeps.list_audit)

  pub get_health-keeps : KeepsWeb P (Server.get_health srv)
  unfolding Server.get_health
  get_health-keeps = record { at = λ s h. keeps.ping.at s h }
