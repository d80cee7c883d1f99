-- ===== src/Http/Accounts.antt =====
-- The account handlers of internal/httpapi/accounts.go. A body that is no JSON is none.
use Prim.Native.String.{◌++◌}
use gowallet.Prelude.{String, Option, none, some, List, [], ◌∷◌, ◌||◌, ◌==◌, if◌then◌else◌}
use gowallet.Wallet.{zero_time, Transaction, kind_text}
use gowallet.Wallet.Service
use gowallet.Http.Response.{
  LedgerEntry, account, balance, account_list, transaction_list, Web, reply, run, on_result,
  write_json, add_header,
}
use gowallet.Http.Errors.{write_error, write_domain_error}
use gowallet.Http.Identity.{authorize_target, require_admin}
use gowallet.Http.Server.{Server, Context}

-- `gen.NewAccount`; the secret is a pointer in Go.
pub record NewAccount : Type 0 where
  pub account_id : String
  pub name : String
  pub secret : Option String

abbrev pub or_empty : Option String → String
or_empty none = ""
or_empty (some s) = s

-- A ledger line on the wire.
abbrev pub entry_of : Transaction → LedgerEntry
entry_of t = record {
  ref = t.ref;
  kind = kind_text t.kind;
  points = t.points;
  occurred_at = t.occurred_at;
}

abbrev pub entries_of : List Transaction → List LedgerEntry
entries_of [] = []
entries_of (t ∷ ts) = entry_of t ∷ entries_of ts

module _ {S : Type 0} (srv : Server S) (ctx : Context) where
  -- `CreateAccount`, with the account read back for the response.
  unfoldable pub read_back : String → Web S
  unfolding write_domain_error
  read_back account_id =
      run (Service.get_account srv.accounts account_id)
        (λ acct.
          reply (add_header "Location" ("/accounts/" ++ acct.id) (write_json 201 (account acct))))
        (λ e. reply (write_domain_error ctx.request_id e))

  unfoldable pub create : NewAccount → Web S
  unfolding read_back write_error Service.create_account
  create body =
      if body.account_id == "" || body.name == ""
      then reply (write_error ctx.request_id 400 "invalid_input" "account_id and name are required")
      else run
          (Service.create_account srv.bcrypt srv.accounts ctx.salt
            (record { id = body.account_id; name = body.name; created_at = zero_time })
            (or_empty body.secret))
          (λ _. read_back body.account_id) (λ e. reply (write_domain_error ctx.request_id e))

  unfoldable pub create_account : Option NewAccount → Web S
  unfolding create
  create_account none = reply (write_error ctx.request_id 400 "invalid_input" "malformed JSON body")
  create_account (some body) = create body

  -- `GetAccount`
  unfoldable pub get_account : String → Web S
  unfolding authorize_target write_domain_error
  get_account account_id =
      on_result (authorize_target ctx.identity account_id)
        (λ id.
          run (Service.get_account srv.accounts id) (λ acct. reply (write_json 200 (account acct)))
            (λ e. reply (write_domain_error ctx.request_id e)))
        (λ e. reply (write_domain_error ctx.request_id e))

  -- `GetBalance`
  unfoldable pub get_balance : String → Web S
  unfolding authorize_target write_domain_error
  get_balance account_id =
      on_result (authorize_target ctx.identity account_id)
        (λ id.
          run (Service.balance srv.accounts id)
            (λ amount. reply (write_json 200 (balance id amount)))
            (λ e. reply (write_domain_error ctx.request_id e)))
        (λ e. reply (write_domain_error ctx.request_id e))

  -- `ListAccounts`
  unfoldable pub list_accounts : Web S
  unfolding require_admin write_domain_error
  list_accounts =
      on_result (require_admin ctx.identity)
        (λ _.
          run (Service.list_accounts srv.accounts)
            (λ out. reply (write_json 200 (account_list out)))
            (λ e. reply (write_domain_error ctx.request_id e)))
        (λ e. reply (write_domain_error ctx.request_id e))

  -- `ListTransactions`
  unfoldable pub list_transactions : String → Web S
  unfolding authorize_target write_domain_error
  list_transactions account_id =
      on_result (authorize_target ctx.identity account_id)
        (λ id.
          run (Service.list_transactions srv.accounts id)
            (λ txns. reply (write_json 200 (transaction_list (entries_of txns))))
            (λ e. reply (write_domain_error ctx.request_id e)))
        (λ e. reply (write_domain_error ctx.request_id e))
