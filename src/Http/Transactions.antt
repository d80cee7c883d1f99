-- ===== src/Http/Transactions.antt =====
-- `CreateTransaction` of internal/httpapi/accounts.go and `RedeemPoints` of redeem.go.
use gowallet.Prelude.{
  ℕ, String, Option, none, some, Bool, true, false, ◌||◌, ◌&&◌, not, ◌==◌, if◌then◌else◌,
}
use gowallet.Prelude.Int.{ℤ, pos, ltb_ℤ}
use gowallet.Wallet.{Time, is_zero, Transaction, Error, is, not_found, other, Call}
use gowallet.Wallet.Service.{record_earn, record_spend, record_redeem}
use gowallet.Http.Response.{
  Response, transaction, redemption, Web, reply, run, on_result, write_json,
}
use gowallet.Http.Errors.{write_error, write_domain_error}
use gowallet.Http.Identity.{authorize_target}
use gowallet.Http.Server.{Server, Context}
use gowallet.Http.Accounts.{entry_of}

-- `gen.NewTransaction`
pub record NewTransaction : Type 0 where
  pub ref : String
  pub account_id : String
  pub kind : String
  pub points : ℤ
  pub occurred_at : Time

-- `gen.NewRedemption`
pub record NewRedemption : Type 0 where
  pub ref : String
  pub points : ℤ
  pub reward : String
  pub occurred_at : Time

abbrev pub status_of : Bool → ℕ
status_of true = 201
status_of false = 200

abbrev pub is_incomplete_body : NewTransaction → Bool
is_incomplete_body body =
    body.ref == "" || body.account_id == "" || ltb_ℤ body.points (pos 1) || is_zero body.occurred_at

-- The transaction that the handler hands on, its kind not stamped yet.
abbrev pub unstamped : NewTransaction → String → Transaction
unstamped body id = record {
  ref = body.ref;
  account_id = id;
  kind = other "";
  points = body.points;
  reward = "";
  occurred_at = body.occurred_at;
}

abbrev pub to_redeem : NewRedemption → String → Transaction
to_redeem body id = record {
  ref = body.ref;
  account_id = id;
  kind = other "";
  points = body.points;
  reward = body.reward;
  occurred_at = body.occurred_at;
}

-- How both handlers answer an error of the service.
unfoldable pub record_failed : String → Error → Response
unfolding write_error write_domain_error
record_failed request_id e =
    if is e not_found
    then write_error request_id 404 "account_not_found" "account_id does not exist"
    else write_domain_error request_id e

module _ {S : Type 0} (srv : Server S) (ctx : Context) where
  -- The switch on the body's kind.
  unfoldable pub by_kind : String → Transaction → Call S (Transaction × Bool)
  unfolding record_earn record_spend
  by_kind kind t = if kind == "earn" then record_earn srv.txns t else record_spend srv.txns t

  unfoldable pub recorded : Transaction × Bool → Web S
  recorded (stored, created) =
      reply (write_json (status_of created) (transaction stored.account_id (entry_of stored)))

  unfoldable pub accept : NewTransaction → Web S
  unfolding by_kind recorded authorize_target record_failed
  accept body =
      if is_incomplete_body body
      then reply (
          write_error ctx.request_id 400 "invalid_input"
            "ref, account_id, points (>=1) and occurred_at are required")
      else if not (body.kind == "earn") && not (body.kind == "spend")
      then reply (write_error ctx.request_id 400 "invalid_kind" "kind must be 'earn' or 'spend'")
      else on_result (authorize_target ctx.identity body.account_id)
          (λ id.
            run (by_kind body.kind (unstamped body id)) recorded
              (λ e. reply (record_failed ctx.request_id e)))
          (λ e. reply (write_domain_error ctx.request_id e))

  -- `CreateTransaction`
  unfoldable pub create_transaction : Option NewTransaction → Web S
  unfolding accept
  create_transaction none =
      reply (write_error ctx.request_id 400 "invalid_input" "malformed JSON body")
  create_transaction (some body) = accept body

  unfoldable pub redeemed : Transaction × Bool → Web S
  redeemed (stored, created) = reply (
      write_json (status_of created)
        (redemption stored.account_id (record (entry_of stored) { kind = "redeem" }) stored.reward))

  -- `RedeemPoints`
  unfoldable pub redeem_points : String → Option NewRedemption → Web S
  unfolding redeemed record_redeem authorize_target record_failed
  redeem_points account_id none =
      reply (write_error ctx.request_id 400 "invalid_input" "malformed JSON body")
  redeem_points account_id (some body) =
      on_result (authorize_target ctx.identity account_id)
        (λ id.
          run (record_redeem srv.txns (to_redeem body id)) redeemed
            (λ e. reply (record_failed ctx.request_id e)))
        (λ e. reply (write_domain_error ctx.request_id e))
