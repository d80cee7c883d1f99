-- ===== src/System/Liveness.antt =====
-- When no driver call fails, no handler reports trouble of the server.
pub mod Writes
pub mod Answered
use gowallet.Prelude.{
  ◌+◌, ◌<◌, String, ◌≡◌, refl, inl, inr, Option, none, some, Bool, true, false, Result, ok, err,
  ◌==◌, Bool-cases,
}
use gowallet.Wallet.{Identity, Role, admin, member, Error}
use gowallet.Wallet.Auth.{authorize, is_admin}
use gowallet.Store.Db.{Db, Stamp}
use gowallet.Store.Invariant.{IsValid}
use gowallet.Store.Ledger.Calm.{calm}
use gowallet.Store.Sure.{
  IsFoundOrNot, IsOk, IsSmall, get_account-IsFoundOrNot, balance-IsFoundOrNot,
  list_transactions-IsFoundOrNot, list_accounts-IsOk, list_audit-IsOk,
}
use gowallet.Http.Errors.Known.{IsAnswer, IsKnown, FailsKnown, on_result-IsAnswer, run-IsAnswer}
use gowallet.Http.Identity.{authorize_target, admin_only, require_admin}
use gowallet.Http.Response.{Web, reply}
use gowallet.Http.Server.{Context}
use gowallet.Http.Accounts
use gowallet.Http.Audit as AuditHandler
use gowallet.System.{Environment, server}

pub IsFoundOrNot-FailsKnown : {A : Type 0} (r : Result Error A) → IsFoundOrNot r → FailsKnown r
IsFoundOrNot-FailsKnown (ok a) h = tt
IsFoundOrNot-FailsKnown (err e) h = rw h refl

IsOk-FailsKnown : {A : Type 0} (r : Result Error A) → IsOk r → FailsKnown r
IsOk-FailsKnown (ok a) h = tt
IsOk-FailsKnown (err e) h = elim h [ ]

authorize_target-FailsKnown :
    (identity : Option Identity) (target : String) → FailsKnown (authorize_target identity target)
unfolding authorize_target authorize
authorize_target-FailsKnown none target = refl
authorize_target-FailsKnown (some id) target = elim (Bool-cases (is_admin id.role)) [
  | inl admits ↦ rw admits tt
  | inr plain ↦ elim (Bool-cases (id.account_id == target)) [
    | inl same ↦ rw (plain, same) tt
    | inr other ↦ rw (plain, other) refl
  ]
]

admin_only-FailsKnown : (r : Role) → FailsKnown (admin_only r)
unfolding admin_only
admin_only-FailsKnown admin = tt
admin_only-FailsKnown member = refl

pub require_admin-FailsKnown : (identity : Option Identity) → FailsKnown (require_admin identity)
unfolding require_admin
require_admin-FailsKnown none = refl
require_admin-FailsKnown (some id) = admin_only-FailsKnown id.role

module _ (env : Environment) (ctx : Context) (db : Db) (now : Stamp) (valid : IsValid db) where
  pub get_account-IsAnswer :
      (id : String) → IsAnswer (Accounts.get_account (server env) ctx id (calm db now)).0
  unfolding Accounts.get_account reply
  get_account-IsAnswer id =
      on_result-IsAnswer ctx.request_id _ _ _ (authorize_target-FailsKnown ctx.identity id)
        (λ target _.
          run-IsAnswer ctx.request_id _ _ _
            (IsFoundOrNot-FailsKnown _ (get_account-IsFoundOrNot env.driver db now target))
            (λ acct _. refl))

  pub list_transactions-IsAnswer :
      (id : String) → IsAnswer (Accounts.list_transactions (server env) ctx id (calm db now)).0
  unfolding Accounts.list_transactions reply
  list_transactions-IsAnswer id =
      on_result-IsAnswer ctx.request_id _ _ _ (authorize_target-FailsKnown ctx.identity id)
        (λ target _.
          run-IsAnswer ctx.request_id _ _ _
            (IsFoundOrNot-FailsKnown _
              (list_transactions-IsFoundOrNot env.driver db now valid target))
            (λ txns _. refl))

  pub list_audit-IsAnswer :
      (id : Option String) → IsAnswer (AuditHandler.list_audit (server env) ctx id (calm db now)).0
  unfolding AuditHandler.list_audit reply
  list_audit-IsAnswer id =
      on_result-IsAnswer ctx.request_id _ _ _ (require_admin-FailsKnown ctx.identity) (λ _ _.
        run-IsAnswer ctx.request_id _ _ _
          (IsOk-FailsKnown _ (list_audit-IsOk env.driver db now valid _)) (λ out _. refl))

  module _ (small : IsSmall db) where
    pub get_balance-IsAnswer :
        (id : String) → IsAnswer (Accounts.get_balance (server env) ctx id (calm db now)).0
    unfolding Accounts.get_balance reply
    get_balance-IsAnswer id =
        on_result-IsAnswer ctx.request_id _ _ _ (authorize_target-FailsKnown ctx.identity id)
          (λ target _.
            run-IsAnswer ctx.request_id _ _ _
              (IsFoundOrNot-FailsKnown _
                (balance-IsFoundOrNot env.driver db now valid small target))
              (λ amount _. refl))

    pub list_accounts-IsAnswer : IsAnswer (Accounts.list_accounts (server env) ctx (calm db now)).0
    unfolding Accounts.list_accounts reply
    list_accounts-IsAnswer =
        on_result-IsAnswer ctx.request_id _ _ _ (require_admin-FailsKnown ctx.identity) (λ _ _.
          run-IsAnswer ctx.request_id _ _ _
            (IsOk-FailsKnown _ (list_accounts-IsOk env.driver db now valid small)) (λ out _. refl))
