-- ===== src/Http/Contract/Accounts.antt =====
-- The response objects of the operations on accounts.
use gowallet.Prelude.{String, List, Option, none, some}
use gowallet.Prelude.Int.{ℤ}
use gowallet.Wallet.{Account, AccountSummary}
use gowallet.Http.Response.{Response, write_json, add_header, account, balance, account_list}
use gowallet.Http.Contract.Bodies.{ErrorBody, error_body}

-- `ListAccountsResponseObject`
pub data ListAccountsResponseObject : Type 0 where
  list_accounts_200 : List AccountSummary → ListAccountsResponseObject
  list_accounts_401 list_accounts_403 : ErrorBody → ListAccountsResponseObject

-- `VisitListAccountsResponse`
abbrev pub visit_list_accounts : ListAccountsResponseObject → Response
visit_list_accounts (list_accounts_200 body) = write_json 200 (account_list body)
visit_list_accounts (list_accounts_401 e) = write_json 401 (error_body e)
visit_list_accounts (list_accounts_403 e) = write_json 403 (error_body e)

-- `CreateAccountResponseObject`
pub data CreateAccountResponseObject : Type 0 where
  create_account_201 : Account → Option String → CreateAccountResponseObject
  create_account_400 create_account_401 create_account_409 : ErrorBody → CreateAccountResponseObject

-- `VisitCreateAccountResponse`
abbrev pub visit_create_account : CreateAccountResponseObject → Response
visit_create_account (create_account_201 body none) = write_json 201 (account body)
visit_create_account (create_account_201 body (some location)) =
    add_header "Location" location (write_json 201 (account body))
visit_create_account (create_account_400 e) = write_json 400 (error_body e)
visit_create_account (create_account_401 e) = write_json 401 (error_body e)
visit_create_account (create_account_409 e) = write_json 409 (error_body e)

-- `GetAccountResponseObject`
pub data GetAccountResponseObject : Type 0 where
  get_account_200 : Account → GetAccountResponseObject
  get_account_400 get_account_401 get_account_403 get_account_404 :
      ErrorBody → GetAccountResponseObject

-- `VisitGetAccountResponse`
abbrev pub visit_get_account : GetAccountResponseObject → Response
visit_get_account (get_account_200 body) = write_json 200 (account body)
visit_get_account (get_account_400 e) = write_json 400 (error_body e)
visit_get_account (get_account_401 e) = write_json 401 (error_body e)
visit_get_account (get_account_403 e) = write_json 403 (error_body e)
visit_get_account (get_account_404 e) = write_json 404 (error_body e)

-- `GetBalanceResponseObject`
pub data GetBalanceResponseObject : Type 0 where
  get_balance_200 : String × ℤ → GetBalanceResponseObject
  get_balance_400 get_balance_401 get_balance_403 get_balance_404 :
      ErrorBody → GetBalanceResponseObject

-- `VisitGetBalanceResponse`
abbrev pub visit_get_balance : GetBalanceResponseObject → Response
visit_get_balance (get_balance_200 (id, amount)) = write_json 200 (balance id amount)
visit_get_balance (get_balance_400 e) = write_json 400 (error_body e)
visit_get_balance (get_balance_401 e) = write_json 401 (error_body e)
visit_get_balance (get_balance_403 e) = write_json 403 (error_body e)
visit_get_balance (get_balance_404 e) = write_json 404 (error_body e)
