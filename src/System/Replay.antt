-- ===== src/System/Replay.antt =====
-- What RedeemPoints answers for a ref that is already stored.
use gowallet.Prelude.{◌≡◌, refl, String, some, true, false, ok, arith, ◌==◌}
use gowallet.Prelude.Int.{pos, ◌≤ℤ◌}
use gowallet.Wallet.{Transaction, redeem}
use gowallet.Wallet.Service.{is_incomplete, record_redeem}
use gowallet.Store.Db.{Db, Stamp, TransactionRow}
use gowallet.Store.Queries.{transaction_row}
use gowallet.Store.Accounts.{to_error}
use gowallet.Store.Ledger.{stored_of, string_of}
use gowallet.Store.Ledger.Calm.{calm, is_known, record_replay}
use gowallet.Http.Response.{write_json, redemption, run, on_result, reply}
use gowallet.Http.Identity.{authorize_target}
use gowallet.Http.Server.{Context}
use gowallet.Http.Accounts.{entry_of}
use gowallet.Http.Transactions.{NewRedemption, redeem_points, to_redeem}
use gowallet.System.{Environment, server}

positive_of_complete : (t : Transaction) → is_incomplete t ≡ false → pos 1 ≤ℤ t.points
positive_of_complete t h = ground arith

-- With no failing driver call, a complete redeem by a caller who may act on the known account, under a
-- ref that is stored already, changes nothing and is answered 200 with the stored row's own account,
-- points, reward and time and with the kind redeem, whoever stored the row and whatever its kind is.
pub redeem_points-replay :
    (env : Environment) (ctx : Context) (account_id : String) (body : NewRedemption)
    (row : TransactionRow) (db : Db) (now : Stamp)
    → authorize_target ctx.identity account_id ≡ ok account_id
    → is_known account_id db ≡ true
    → is_incomplete (to_redeem body account_id) ≡ false
    → (body.reward == "") ≡ false
    → transaction_row body.ref db.transactions ≡ some row
    → redeem_points (server env) ctx account_id (some body) (calm db now) ≡ (
      write_json 200 (
          redemption row.account_id
            (record (entry_of (stored_of row)) { kind = "redeem" })
            (string_of row.reward)),
      calm db now,
    )
unfolding redeem_points record_redeem run on_result reply stored_of
redeem_points-replay env ctx account_id body row db now allowed known complete reward found =
    let t : Transaction = record (to_redeem body account_id) { kind = redeem } in
    rw
      (
        allowed,
        complete,
        reward,
        record_replay (to_error env.driver) t db now known refl
            (positive_of_complete (to_redeem body account_id) complete) row found,
      )
      refl
