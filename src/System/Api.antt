-- ===== src/System/Api.antt =====
-- What `CreateTransaction` and `RedeemPoints` of internal/httpapi promise: the answers of api/openapi.yaml
-- over the abstract book of Store/Book, with no store behind them.
pub mod Answers
pub mod Refinement
pub mod Runs
use gowallet.Prelude.{
  ℕ, String, Option, none, some, Bool, true, false, not, ◌||◌, ◌&&◌, Result, ok, err, ◌==◌,
  if◌then◌else◌,
}
use gowallet.Prelude.Int.{ℤ, pos, ltb_ℤ, leb_ℤ}
use gowallet.Wallet.{
  Kind, earn, spend, redeem, Transaction, Identity, is_zero, Sentinel, not_found, account_exists,
  invalid_input, duplicate_ref, insufficient_balance, invalid_credentials, forbidden,
}
use gowallet.Wallet.Auth.{is_admin}
use gowallet.Store.Book.{Book, submit}
use gowallet.Http.Response.{Response, transaction, redemption, write_json}
use gowallet.Http.Errors.{write_error}
use gowallet.Http.Accounts.{entry_of}
use gowallet.Http.Transactions.{NewTransaction, NewRedemption}

-- Admins may act on every account, and members on their own.
abbrev pub may_act : Option Identity → String → Bool
may_act none target = false
may_act (some id) target = is_admin id.role || id.account_id == target

abbrev pub refusal : Sentinel → ℕ × String × String
refusal not_found = (404, "account_not_found", "account_id does not exist")
refusal insufficient_balance =
    (409, "insufficient_balance", "transaction would drive balance below zero")
refusal forbidden = (403, "forbidden", "you may not access this account")
refusal account_exists = (409, "account_exists", "account_id already exists")
refusal invalid_input = (400, "invalid_input", "request body is invalid")
refusal duplicate_ref = (500, "internal_error", "an unexpected error occurred")
refusal invalid_credentials = (500, "internal_error", "an unexpected error occurred")

abbrev pub refuse : String → Sentinel → Response
refuse request_id s =
    let (status, code, message) = refusal s in write_error request_id status code message

abbrev pub posted : NewTransaction → Kind → Transaction
posted body kind = record {
  ref = body.ref;
  account_id = body.account_id;
  kind = kind;
  points = body.points;
  reward = "";
  occurred_at = body.occurred_at;
}

abbrev pub redeemed_by : String → NewRedemption → Transaction
redeemed_by account_id body = record {
  ref = body.ref;
  account_id = account_id;
  kind = redeem;
  points = body.points;
  reward = body.reward;
  occurred_at = body.occurred_at;
}

-- 201 for a new transaction, and 200 for one that was there.
abbrev pub answer : String → Result Sentinel (Transaction × Bool) → Response
answer request_id (ok (t, true)) = write_json 201 (transaction t.account_id (entry_of t))
answer request_id (ok (t, false)) = write_json 200 (transaction t.account_id (entry_of t))
answer request_id (err s) = refuse request_id s

abbrev pub answer_redemption : String → Result Sentinel (Transaction × Bool) → Response
answer_redemption request_id (ok (t, true)) =
    write_json 201 (redemption t.account_id (record (entry_of t) { kind = "redeem" }) t.reward)
answer_redemption request_id (ok (t, false)) =
    write_json 200 (redemption t.account_id (record (entry_of t) { kind = "redeem" }) t.reward)
answer_redemption request_id (err s) = refuse request_id s

-- An answered submission.
abbrev pub answered_by :
    (Result Sentinel (Transaction × Bool) → Response)
    → Result Sentinel (Transaction × Bool) × Book
    → Response × Book
answered_by f (r, b) = (f r, b)

-- POST /transactions
abbrev pub post_transaction : String → Option Identity → NewTransaction → Book → Response × Book
post_transaction request_id identity body b =
    if body.ref == ""
      || body.account_id == ""
      || ltb_ℤ body.points (pos 1)
      || is_zero body.occurred_at
    then (
      write_error request_id 400 "invalid_input"
          "ref, account_id, points (>=1) and occurred_at are required",
      b,
    )
    else if not (body.kind == "earn") && not (body.kind == "spend")
    then (write_error request_id 400 "invalid_kind" "kind must be 'earn' or 'spend'", b)
    else if not (may_act identity body.account_id)
    then (refuse request_id forbidden, b)
    else answered_by (answer request_id)
        (submit (posted body (if body.kind == "earn" then earn else spend)) b)

-- POST /accounts/{account_id}/redeem
abbrev pub post_redemption :
    String → Option Identity → String → NewRedemption → Book → Response × Book
post_redemption request_id identity account_id body b =
    if not (may_act identity account_id)
    then (refuse request_id forbidden, b)
    else if (body.ref == "" || account_id == "" || leb_ℤ body.points (pos 0)) || body.reward == ""
    then (refuse request_id invalid_input, b)
    else answered_by (answer_redemption request_id) (submit (redeemed_by account_id body) b)
