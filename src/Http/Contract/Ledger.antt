-- ===== src/Http/Contract/Ledger.antt =====
-- The response objects of the operations on the ledger.
use gowallet.Prelude.{List}
use gowallet.Http.Response.{
  Response, LedgerEntry, write_json, transaction_list, transaction, redemption,
}
use gowallet.Http.Contract.Bodies.{ErrorBody, error_body, TransactionBody, RedemptionBody}

-- `RedeemPointsResponseObject`
pub data RedeemPointsResponseObject : Type 0 where
  redeem_points_200 : RedemptionBody → RedeemPointsResponseObject
  redeem_points_201 : RedemptionBody → RedeemPointsResponseObject
  redeem_points_400 redeem_points_401 redeem_points_403 redeem_points_404 redeem_points_409 :
      ErrorBody → RedeemPointsResponseObject

-- `VisitRedeemPointsResponse`
abbrev pub visit_redeem_points : RedeemPointsResponseObject → Response
visit_redeem_points (redeem_points_200 r) =
    write_json 200 (redemption r.account_id r.entry r.reward)
visit_redeem_points (redeem_points_201 r) =
    write_json 201 (redemption r.account_id r.entry r.reward)
visit_redeem_points (redeem_points_400 e) = write_json 400 (error_body e)
visit_redeem_points (redeem_points_401 e) = write_json 401 (error_body e)
visit_redeem_points (redeem_points_403 e) = write_json 403 (error_body e)
visit_redeem_points (redeem_points_404 e) = write_json 404 (error_body e)
visit_redeem_points (redeem_points_409 e) = write_json 409 (error_body e)

-- `ListTransactionsResponseObject`
pub data ListTransactionsResponseObject : Type 0 where
  list_transactions_200 : List LedgerEntry → ListTransactionsResponseObject
  list_transactions_400 list_transactions_401 list_transactions_403 list_transactions_404 :
      ErrorBody → ListTransactionsResponseObject

-- `VisitListTransactionsResponse`
abbrev pub visit_list_transactions : ListTransactionsResponseObject → Response
visit_list_transactions (list_transactions_200 body) = write_json 200 (transaction_list body)
visit_list_transactions (list_transactions_400 e) = write_json 400 (error_body e)
visit_list_transactions (list_transactions_401 e) = write_json 401 (error_body e)
visit_list_transactions (list_transactions_403 e) = write_json 403 (error_body e)
visit_list_transactions (list_transactions_404 e) = write_json 404 (error_body e)

-- `CreateTransactionResponseObject`
pub data CreateTransactionResponseObject : Type 0 where
  create_transaction_200 : TransactionBody → CreateTransactionResponseObject
  create_transaction_201 : TransactionBody → CreateTransactionResponseObject
  create_transaction_400 create_transaction_401 create_transaction_403 create_transaction_404
        create_transaction_409 :
      ErrorBody → CreateTransactionResponseObject

-- `VisitCreateTransactionResponse`
abbrev pub visit_create_transaction : CreateTransactionResponseObject → Response
visit_create_transaction (create_transaction_200 t) =
    write_json 200 (transaction t.account_id t.entry)
visit_create_transaction (create_transaction_201 t) =
    write_json 201 (transaction t.account_id t.entry)
visit_create_transaction (create_transaction_400 e) = write_json 400 (error_body e)
visit_create_transaction (create_transaction_401 e) = write_json 401 (error_body e)
visit_create_transaction (create_transaction_403 e) = write_json 403 (error_body e)
visit_create_transaction (create_transaction_404 e) = write_json 404 (error_body e)
visit_create_transaction (create_transaction_409 e) = write_json 409 (error_body e)
