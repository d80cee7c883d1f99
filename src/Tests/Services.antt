-- ===== src/Tests/Services.antt =====
-- The theorems on accounts, the audit log, the services and replays at concrete inputs.
use gowallet.Prelude.{◌≡◌, refl, String, some, false, ok, arith, ◌==◌, ◌≢◌, eq_iff}
use gowallet.Prelude.Int.{pos}
use gowallet.Wallet.{Account, AuditEntry, accepted, zero_time, member, earn, spend, redeem, admin}
use gowallet.Wallet.Auth.{authorize}
use gowallet.Wallet.Login.{LoggedIn, login-uniform}
use gowallet.Wallet.Service
use gowallet.Wallet.Service.{record_earn, record_spend, record_redeem}
use gowallet.Wallet.Audit.{record_attempt}
use gowallet.Store.Queries.{transaction_row, new_account, add_account}
use gowallet.Store.Accounts.{create_account}
use gowallet.Store.Ledger.{stored_of, null_string}
use gowallet.Store.Ledger.Calm.{calm}
use gowallet.Store.Registration.{Registers, create_account_outcome, registered_logs_in}
use gowallet.Store.Recording.{Appended, Stamped, record_attempt-Appended, services_stamp_kind}
use gowallet.Store.Repositories
use gowallet.System.{server}
use gowallet.System.Replay.{redeem_points-replay}
use gowallet.Http.Identity.{authorize_target}
use gowallet.Http.Server.{Context}
use gowallet.Http.Response.{write_json, redemption}
use gowallet.Http.Accounts.{entry_of}
use gowallet.Http.Transactions.{NewRedemption, redeem_points}
use gowallet.Tests.Outside.{test_driver, test_bcrypt, test_secret, test_hash}
use gowallet.Tests.Data.{
  env, at_june, context, start, start_world, june, a_clash, earn_row, earned_db,
}

abbrev ann : Account
ann = record { id = "ann"; name = "Ann"; created_at = zero_time }

create_account_outcome_example :
    Registers test_driver ann test_hash start june false
      (create_account test_driver ann test_hash (calm start june))
create_account_outcome_example = create_account_outcome test_driver ann test_hash start june

different : (s t : String) → (s == t) ≡ false → s ≢ t
different s t h e = ground (arith, eq_iff s t)

registered_logs_in_example :
    (Service.create_account test_bcrypt
        (Repositories.accounts test_driver)
        "salt"
        ann
        test_secret
        (calm start june)
      ≡ (
        ok tt,
        calm (add_account (new_account june "ann" "Ann" (null_string test_hash)) start) june,
      ))
    × (Service.login test_bcrypt
          (Repositories.accounts test_driver)
          "ann"
          test_secret
          (calm (add_account (new_account june "ann" "Ann" (null_string test_hash)) start) june)
        ≡ (
          ok (record { account_id = "ann"; role = member }),
          calm (add_account (new_account june "ann" "Ann" (null_string test_hash)) start) june,
        ))
registered_logs_in_example =
    registered_logs_in test_driver test_bcrypt ann "salt" test_secret test_hash start june june
      (different "ann" "" refl) (different "Ann" "" refl) (different test_secret "" refl) refl refl

abbrev an_attempt : AuditEntry
an_attempt = record {
  id = 0;
  ref = "e-1";
  account_id = "member-123";
  kind = "earn";
  points = pos 100;
  outcome = accepted;
  reason = "ok";
  created_at = zero_time;
}

record_attempt-Appended_example :
    Appended an_attempt start_world
      (record_attempt (Repositories.audit test_driver) an_attempt start_world)
record_attempt-Appended_example = record_attempt-Appended test_driver an_attempt start_world

services_stamp_kind_example :
    Stamped earn a_clash start_world
      (record_earn (Repositories.transactions test_driver) a_clash start_world)
    × Stamped spend a_clash start_world
        (record_spend (Repositories.transactions test_driver) a_clash start_world)
    × Stamped redeem a_clash start_world
        (record_redeem (Repositories.transactions test_driver) a_clash start_world)
services_stamp_kind_example = services_stamp_kind test_driver a_clash start_world

abbrev bob : String
bob = "bob"

abbrev admin_text : String
admin_text = "admin"

login-uniform_example :
    LoggedIn test_bcrypt
      (Repositories.accounts test_driver)
      "member-123"
      "wrong"
      start_world
      (Service.login test_bcrypt
        (Repositories.accounts test_driver)
        "member-123"
        "wrong"
        start_world).0
login-uniform_example =
    login-uniform test_bcrypt (Repositories.accounts test_driver) "member-123" "wrong" start_world

abbrev a_clashing_redeem : NewRedemption
a_clashing_redeem = record { ref = "e-1"; points = pos 5; reward = "mug"; occurred_at = at_june }

abbrev admin_context : Context
admin_context = context (some (record { account_id = "admin-001"; role = admin }))

redeem_points-replay_example :
    redeem_points
      (server env)
      admin_context
      "admin-001"
      (some a_clashing_redeem)
      (calm earned_db june)
    ≡ (
      write_json 200
          (redemption "member-123" (record (entry_of (stored_of earn_row)) { kind = "redeem" }) ""),
      calm earned_db june,
    )
unfolding transaction_row authorize_target authorize
redeem_points-replay_example =
    redeem_points-replay env admin_context "admin-001" a_clashing_redeem earn_row earned_db june
      refl refl refl refl refl
