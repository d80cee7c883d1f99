-- ===== src/Http/Contract/Handlers.antt =====
-- Every handler answers with a response that the contract declares for its operation.
use gowallet.Prelude.{String, ◌≡◌, refl, Option, List, [], ◌∷◌, true}
use gowallet.Wallet.{
  Account, AccountSummary, Role, role_text, member, admin, Transaction, not_found, account_exists,
  insufficient_balance,
}
use gowallet.Wallet.Raises.{Only, Raises, Leaves}
use gowallet.Http.Response.{Web}
use gowallet.Http.Router.{Operation}
use gowallet.Http.Server.{Server, Context}
use gowallet.Http.Accounts
use gowallet.Http.Contract.Rules.{
  Fits, Answers, service_call-Answers, authorize_target-Answers, require_admin-Answers,
}
use gowallet.Http.Contract.Declared.{Declared, valid_summaries}
use gowallet.Store.Queries.{kind_allowed, outcome_allowed}
use gowallet.Store.Words.{HasAllowedKind, HasAllowedOutcome, KeepsKind}
use gowallet.Wallet.{
  Kind, kind_text, earn, spend, redeem, other, AuditEntry, AuditOutcome, accepted, rejected,
  duplicate, unknown,
}
use gowallet.Wallet.Raises.{Gives}
use gowallet.Prelude.{All, arith}
use gowallet.Http.Contract.Rules.{service_giving-Answers}
use gowallet.Http.Contract.Declared.{valid_lines, valid_entries, outcome_text}
use gowallet.Http.Accounts.{entries_of, or_empty}
use gowallet.Http.Contract.Enums.{
  ledger_entry_kind_valid, audit_entry_outcome_valid, account_summary_role_valid,
}
use gowallet.Http.Contract.Accounts.{
  list_accounts_200, list_accounts_403, get_account_200, get_account_403, get_account_404,
  get_balance_200, get_balance_403, get_balance_404,
}
use gowallet.Http.Contract.Ledger.{
  list_transactions_200, list_transactions_403, list_transactions_404,
}
use gowallet.Http.Audit as AuditHandler
use gowallet.Http.Contract.Service.{list_audit_200, list_audit_403}

known_role : (r : Role) → account_summary_role_valid (role_text r) ≡ true
known_role member = refl
known_role admin = refl

known_roles : (out : List AccountSummary) → valid_summaries out ≡ true
known_roles [] = refl
known_roles (a ∷ rest) = rw (known_role a.role, known_roles rest) refl

pub known_kind : (k : Kind) → kind_allowed k ≡ true → ledger_entry_kind_valid (kind_text k) ≡ true
known_kind earn h = refl
known_kind spend h = refl
known_kind redeem h = refl
known_kind (other s) h = ground arith

known_lines :
    (txns : List Transaction) → All HasAllowedKind txns → valid_lines (entries_of txns) ≡ true
known_lines [] h = refl
known_lines (t ∷ rest) h = rw (known_kind t.kind h.0, known_lines rest h.1) refl

known_outcome :
    (o : AuditOutcome)
    → outcome_allowed o ≡ true
    → audit_entry_outcome_valid (outcome_text o) ≡ true
known_outcome accepted h = refl
known_outcome rejected h = refl
known_outcome duplicate h = refl
known_outcome (unknown s) h = ground arith

known_outcomes : (out : List AuditEntry) → All HasAllowedOutcome out → valid_entries out ≡ true
known_outcomes [] h = refl
known_outcomes (e ∷ rest) h = rw (known_outcome e.outcome h.0, known_outcomes rest h.1) refl

-- Which domain errors the calls of the repositories give, and that an account that was stored is read
-- back, in a state with `P`.
pub record ContractRepositories {S : Type 0} (P : S → Type 0) (srv : Server S) : Type 0 where
  pub create_account :
      (a : Account) (hash : String)
      → Raises (account_exists ∷ []) (srv.accounts.create_account a hash)
  pub stored :
      (a : Account) (hash : String) (s : S)
      → Leaves
          (λ s'. Only [] (srv.accounts.get_account a.id s').0)
          (srv.accounts.create_account a hash s)
  pub get_account : (id : String) → Raises (not_found ∷ []) (srv.accounts.get_account id)
  pub balance : (id : String) → Raises (not_found ∷ []) (srv.accounts.balance id)
  pub list_transactions :
      (id : String) → Raises (not_found ∷ []) (srv.accounts.list_transactions id)
  pub listed_kinds :
      (id : String) (s : S)
      → P s
      → Gives (All HasAllowedKind) (srv.accounts.list_transactions id s).0
  pub kept_kind :
      (t : Transaction) (s : S) → P s → Gives (KeepsKind t.kind) (srv.txns.record_transaction t s).0
  pub listed_outcomes :
      (id : String) (s : S) → P s → Gives (All HasAllowedOutcome) (srv.audit.list_audit id s).0
  pub list_accounts : (s : S) → P s → Only [] (srv.accounts.list_accounts s).0
  pub record_transaction :
      (t : Transaction)
      → Raises (not_found ∷ insufficient_balance ∷ []) (srv.txns.record_transaction t)
  pub list_audit : (id : String) → Raises [] (srv.audit.list_audit id)

module _ {S : Type 0} (P : S → Type 0) (srv : Server S) (repositories : ContractRepositories P srv)
    (ctx : Context) where
  abbrev pub AnswersOperation : Operation → Web S → Type 0
  AnswersOperation op f = Answers P (Fits (Declared op)) f

  pub get_account-Answers :
      (id : String) → AnswersOperation (Operation.get_account id) (Accounts.get_account srv ctx id)
  unfolding Accounts.get_account
  get_account-Answers id =
      authorize_target-Answers (Declared (Operation.get_account id)) ctx.request_id ctx.identity id
        _ (λ b. (get_account_403 b, refl, refl))
        (λ id.
          service_call-Answers _ ctx.request_id (not_found ∷ []) _ _
            (λ s _. (repositories.get_account id).at s) ((λ b. (get_account_404 b, refl, refl)), tt)
            (λ acct. (get_account_200 acct, refl, refl)))

  pub get_balance-Answers :
      (id : String) → AnswersOperation (Operation.get_balance id) (Accounts.get_balance srv ctx id)
  unfolding Accounts.get_balance
  get_balance-Answers id =
      authorize_target-Answers (Declared (Operation.get_balance id)) ctx.request_id ctx.identity id
        _ (λ b. (get_balance_403 b, refl, refl))
        (λ id.
          service_call-Answers _ ctx.request_id (not_found ∷ []) _ _
            (λ s _. (repositories.balance id).at s) ((λ b. (get_balance_404 b, refl, refl)), tt)
            (λ amount. (get_balance_200 (id, amount), refl, refl)))

  pub list_accounts-Answers :
      AnswersOperation Operation.list_accounts (Accounts.list_accounts srv ctx)
  unfolding Accounts.list_accounts
  list_accounts-Answers =
      require_admin-Answers (Declared Operation.list_accounts) ctx.request_id ctx.identity _
        (λ b. (list_accounts_403 b, refl, refl))
        (λ _.
          service_call-Answers _ ctx.request_id [] _ _ repositories.list_accounts tt
            (λ out. (list_accounts_200 out, refl, known_roles out)))

  pub list_transactions-Answers :
      (id : String)
      → AnswersOperation (Operation.list_transactions id) (Accounts.list_transactions srv ctx id)
  unfolding Accounts.list_transactions
  list_transactions-Answers id =
      authorize_target-Answers (Declared (Operation.list_transactions id)) ctx.request_id
        ctx.identity id _ (λ b. (list_transactions_403 b, refl, refl))
        (λ id.
          service_giving-Answers _ ctx.request_id (All HasAllowedKind) (not_found ∷ []) _ _
            (λ s _. (repositories.list_transactions id).at s) (repositories.listed_kinds id)
            ((λ b. (list_transactions_404 b, refl, refl)), tt)
            (λ txns kinds. (list_transactions_200 _, refl, known_lines txns kinds)))

  pub list_audit-Answers :
      (id : Option String)
      → AnswersOperation (Operation.list_audit id) (AuditHandler.list_audit srv ctx id)
  unfolding AuditHandler.list_audit
  list_audit-Answers id =
      require_admin-Answers (Declared (Operation.list_audit id)) ctx.request_id ctx.identity _
        (λ b. (list_audit_403 b, refl, refl))
        (λ _.
          service_giving-Answers _ ctx.request_id (All HasAllowedOutcome) [] _ _
            (λ s _. (repositories.list_audit (or_empty id)).at s)
            (repositories.listed_outcomes (or_empty id)) tt
            (λ out words. (list_audit_200 out, refl, known_outcomes out words)))
