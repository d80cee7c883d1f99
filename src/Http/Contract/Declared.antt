-- ===== src/Http/Contract/Declared.antt =====
-- What the contract declares of an operation's responses.
use Prim.Native.String.{◌++◌}
use gowallet.Prelude.{String, List, [], ◌∷◌, true, ◌&&◌, Bool}
use gowallet.Http.Response.{LedgerEntry, Body, Response, health, raw}
use gowallet.Http.Router.{Operation}
use gowallet.Wallet.{
  AuditOutcome, AuditEntry, accepted, rejected, duplicate, unknown, AccountSummary, role_text,
}
use gowallet.Http.Contract.Enums.{
  account_summary_role_valid, ledger_entry_kind_valid, transaction_kind_valid,
  audit_entry_outcome_valid, redemption_kind_valid, token_type_valid, health_db_valid,
  health_status_valid,
}
use gowallet.Http.Contract.Rules.{Declares, no_enums}
use gowallet.Http.Contract.Accounts.{
  ListAccountsResponseObject, list_accounts_200, visit_list_accounts, visit_create_account,
  visit_get_account, visit_get_balance,
}
use gowallet.Http.Contract.Ledger.{
  ListTransactionsResponseObject, list_transactions_200, CreateTransactionResponseObject,
  create_transaction_200, create_transaction_201, RedeemPointsResponseObject, redeem_points_200,
  redeem_points_201, visit_redeem_points, visit_list_transactions, visit_create_transaction,
}
use gowallet.Http.Contract.Service.{
  ListAuditResponseObject, list_audit_200, LoginResponseObject, login_200, GetHealthResponseObject,
  get_health_200, get_health_503, visit_list_audit, visit_ingest_batch, visit_get_health,
  visit_login,
}

-- A health body as the JSON object that is written by hand, whose fields stand in another order than
-- the encoder's.
abbrev health_json : Body → Body
health_json (health status db) = raw ("{\"status\":\"" ++ status ++ "\",\"db\":\"" ++ db ++ "\"}")
health_json body = body

abbrev written_health : GetHealthResponseObject → Response
written_health o = record (visit_get_health o) { body = health_json (visit_get_health o).body }

abbrev valid_health : GetHealthResponseObject → Bool
valid_health (get_health_200 h) = health_status_valid h.status && health_db_valid h.db
valid_health (get_health_503 h) = health_status_valid h.status && health_db_valid h.db

abbrev pub valid_summaries : List AccountSummary → Bool
valid_summaries [] = true
valid_summaries (a ∷ rest) = account_summary_role_valid (role_text a.role) && valid_summaries rest

abbrev pub valid_list_accounts : ListAccountsResponseObject → Bool
valid_list_accounts (list_accounts_200 out) = valid_summaries out
valid_list_accounts _ = true

abbrev pub valid_lines : List LedgerEntry → Bool
valid_lines [] = true
valid_lines (line ∷ rest) = ledger_entry_kind_valid line.kind && valid_lines rest

abbrev pub valid_list_transactions : ListTransactionsResponseObject → Bool
valid_list_transactions (list_transactions_200 out) = valid_lines out
valid_list_transactions _ = true

-- A new transaction has a kind of `TransactionKind`. One that is repeated has a kind of the ledger,
-- which may be redeem, though the generated type of the body has no such kind.
abbrev pub valid_create_transaction : CreateTransactionResponseObject → Bool
valid_create_transaction (create_transaction_201 t) = transaction_kind_valid t.entry.kind
valid_create_transaction (create_transaction_200 t) = ledger_entry_kind_valid t.entry.kind
valid_create_transaction _ = true

-- The text of an outcome, which is a string in Go.
abbrev pub outcome_text : AuditOutcome → String
outcome_text accepted = "accepted"
outcome_text rejected = "rejected"
outcome_text duplicate = "duplicate"
outcome_text (unknown s) = s

abbrev pub valid_entries : List AuditEntry → Bool
valid_entries [] = true
valid_entries (e ∷ rest) = audit_entry_outcome_valid (outcome_text e.outcome) && valid_entries rest

abbrev pub valid_list_audit : ListAuditResponseObject → Bool
valid_list_audit (list_audit_200 out) = valid_entries out
valid_list_audit _ = true

abbrev pub valid_redeem_points : RedeemPointsResponseObject → Bool
valid_redeem_points (redeem_points_200 r) = redemption_kind_valid r.entry.kind
valid_redeem_points (redeem_points_201 r) = redemption_kind_valid r.entry.kind
valid_redeem_points _ = true

abbrev pub valid_login : LoginResponseObject → Bool
valid_login (login_200 t) = token_type_valid t.token_type
valid_login _ = true

-- The response is that of one of the operation's response objects, with known words in its fields.
abbrev pub Declared : Operation → Response → Type 0
Declared Operation.list_accounts r = Declares visit_list_accounts valid_list_accounts r
Declared (Operation.create_account body) r = Declares visit_create_account no_enums r
Declared (Operation.get_account id) r = Declares visit_get_account no_enums r
Declared (Operation.get_balance id) r = Declares visit_get_balance no_enums r
Declared (Operation.redeem_points id body) r = Declares visit_redeem_points valid_redeem_points r
Declared (Operation.list_transactions id) r =
    Declares visit_list_transactions valid_list_transactions r
Declared (Operation.list_audit id) r = Declares visit_list_audit valid_list_audit r
Declared (Operation.ingest_batch file) r = Declares visit_ingest_batch no_enums r
Declared Operation.get_health r = Declares written_health valid_health r
Declared (Operation.login body) r = Declares visit_login valid_login r
Declared (Operation.create_transaction body) r =
    Declares visit_create_transaction valid_create_transaction r
