-- ===== src/System/Api/Refinement.antt =====
-- The two writing handlers over the store, against the API over the book.
use gowallet.Prelude.{
  ◌+◌, ◌<◌, String, ◌≡◌, refl, inl, inr, some, Bool, true, false, ◌||◌, ok, arith, ◌==◌, Bool-cases,
}
use gowallet.Prelude.Int.{pos, pos_part, leb_ℤ, ◌≤ℤ◌, int64_limit}
use gowallet.Wallet.{Kind, earn, spend, Transaction}
use gowallet.Wallet.Service.{record_earn, record_spend, record_redeem}
use gowallet.Store.Db.{Db, Stamp}
use gowallet.Store.Queries.{kind_allowed}
use gowallet.Store.Session.{World}
use gowallet.Store.Accounts.{to_error}
use gowallet.Store.Ledger.{record_transaction}
use gowallet.Store.Ledger.Calm.{calm}
use gowallet.Store.Totals.{earned}
use gowallet.Store.Invariant.{IsValid}
use gowallet.Store.Book.{book_of, submit}
use gowallet.Store.Book.Refinement.{record_transaction-Refines}
use gowallet.Http.Response.{run, on_result, reply}
use gowallet.Http.Errors.{write_domain_error}
use gowallet.Http.Server.{Context}
use gowallet.Http.Transactions.{
  NewTransaction, NewRedemption, is_incomplete_body, create_transaction, redeem_points,
  record_failed, recorded, redeemed,
}
use gowallet.System.{Environment, server}
use gowallet.System.Api.{
  may_act, posted, redeemed_by, answer, answer_redemption, post_transaction, post_redemption,
  answered_by,
}
use gowallet.System.Api.Answers.{Answered, Served, on_result-Served, authorize_target-may_act}

complete_post :
    (body : NewTransaction)
    → is_incomplete_body body ≡ false
    → (body.ref == "" || body.account_id == "" || leb_ℤ body.points (pos 0) ≡ false)
      × (pos 1 ≤ℤ body.points)
complete_post body h = ground arith

module _ (env : Environment) (ctx : Context) where
  recorded-answer :
      (x : Transaction × Bool) (w : World)
      → recorded (server env) ctx x w ≡ (answer ctx.request_id (ok x), w)
  unfolding recorded reply
  recorded-answer (t, true) w = refl
  recorded-answer (t, false) w = refl

  redeemed-answer_redemption :
      (x : Transaction × Bool) (w : World)
      → redeemed (server env) ctx x w ≡ (answer_redemption ctx.request_id (ok x), w)
  unfolding redeemed reply
  redeemed-answer_redemption (t, true) w = refl
  redeemed-answer_redemption (t, false) w = refl

complete_redeem :
    (body : NewRedemption) (account_id : String)
    → (body.ref == "" || account_id == "" || leb_ℤ body.points (pos 0)) || body.reward == "" ≡ false
    → (body.ref == "" || account_id == "" || leb_ℤ body.points (pos 0) ≡ false)
      × ((body.reward == "") ≡ false)
      × (pos 1 ≤ℤ body.points)
complete_redeem body account_id h = ground arith

module _ (env : Environment) (ctx : Context) (db : Db) (now : Stamp) (valid : IsValid db)
    (P : Db → Type 0) (same : P db) where
  posted-Served :
      (kind : Kind) (body : NewTransaction)
      → kind_allowed kind ≡ true
      → pos 1 ≤ℤ body.points
      → earned body.account_id db.transactions + pos_part body.points < int64_limit
      → P (record_transaction (to_error env.driver) (posted body kind) (calm db now)).1.db
      → let (r, w) = record_transaction (to_error env.driver) (posted body kind) (calm db now) in
        Served P
          (on_result r (recorded (server env) ctx) (λ e. reply (record_failed ctx.request_id e)) w)
          (answered_by (answer ctx.request_id) (submit (posted body kind) (book_of db)))
  posted-Served kind body allowed positive small after =
      on_result-Served P ctx.request_id (recorded (server env) ctx) (answer ctx.request_id)
        (recorded-answer env ctx) (λ s. refl) _ _ _ _
        (record_transaction-Refines (to_error env.driver) (posted body kind) db now valid allowed
          positive small)
        after

  pub create_transaction-Served :
      (body : NewTransaction)
      → earned body.account_id db.transactions + pos_part body.points < int64_limit
      → ((kind : Kind)
          → P (record_transaction (to_error env.driver) (posted body kind) (calm db now)).1.db)
      → Served P
          (create_transaction (server env) ctx (some body) (calm db now))
          (post_transaction ctx.request_id ctx.identity body (book_of db))
  unfolding create_transaction run on_result reply write_domain_error record_earn record_spend
  create_transaction-Served body small after = elim (Bool-cases (is_incomplete_body body)) [
    | inl incomplete ↦ rw incomplete (refl, refl, same)
    | inr complete ↦
        let (full, positive) = complete_post body complete in
        let access = authorize_target-may_act ctx.identity body.account_id in
        elim (Bool-cases (body.kind == "earn")) [
          | inl earns ↦ elim (Bool-cases (may_act ctx.identity body.account_id)) [
            | inr stranger ↦ rw (complete, earns, access, stranger) (refl, refl, same)
            | inl allowed ↦
                rw (complete, earns, access, allowed, full)
                  (posted-Served earn body refl positive small (after earn))
          ]
          | inr no_earn ↦ elim (Bool-cases (body.kind == "spend")) [
            | inr no_spend ↦ rw (complete, no_earn, no_spend) (refl, refl, same)
            | inl spends ↦ elim (Bool-cases (may_act ctx.identity body.account_id)) [
              | inr stranger ↦ rw (complete, no_earn, spends, access, stranger) (refl, refl, same)
              | inl allowed ↦
                  rw (complete, no_earn, spends, access, allowed, full)
                    (posted-Served spend body refl positive small (after spend))
            ]
          ]
        ]
  ]

  pub redeem_points-Served :
      (account_id : String) (body : NewRedemption)
      → earned account_id db.transactions + pos_part body.points < int64_limit
      → P
          (record_transaction
            (to_error env.driver)
            (redeemed_by account_id body)
            (calm db now)).1.db
      → Served P
          (redeem_points (server env) ctx account_id (some body) (calm db now))
          (post_redemption ctx.request_id ctx.identity account_id body (book_of db))
  unfolding redeem_points run on_result reply write_domain_error record_redeem
  redeem_points-Served account_id body small after =
      let access = authorize_target-may_act ctx.identity account_id in
      elim (Bool-cases (may_act ctx.identity account_id)) [
        | inr stranger ↦ rw (access, stranger) (refl, refl, same)
        | inl allowed ↦
            elim (Bool-cases (
              (body.ref == "" || account_id == "" || leb_ℤ body.points (pos 0))
              || body.reward == "")) [
                | inl incomplete ↦ rw (access, allowed, incomplete) (refl, refl, same)
                | inr complete ↦
                    let (full, reward, positive) = complete_redeem body account_id complete in
                    rw (access, allowed, complete)
                      (on_result-Served P ctx.request_id (redeemed (server env) ctx)
                        (answer_redemption ctx.request_id) (redeemed-answer_redemption env ctx)
                        (λ s. refl) _ _ _ _
                        (record_transaction-Refines (to_error env.driver)
                          (redeemed_by account_id body) db now valid refl positive small)
                        after)
              ]
      ]

module _ (env : Environment) (ctx : Context) (db : Db) (now : Stamp) (valid : IsValid db) where
  -- With no failing driver call, on a valid database, and for any decoded body that does not take what
  -- its account has earned to 2^63: POST /transactions answers as the API does on the book that the
  -- database holds, on each of its branches (400, 403, 404, 409, 200 and 201), and leaves the database
  -- with the book that the API leaves.
  pub create_transaction-Answered :
      (body : NewTransaction)
      → earned body.account_id db.transactions + pos_part body.points < int64_limit
      → Answered
          (create_transaction (server env) ctx (some body) (calm db now))
          (post_transaction ctx.request_id ctx.identity body (book_of db))
  create_transaction-Answered body small =
      let (response, book, _) =
        create_transaction-Served env ctx db now valid (λ _. Unit) tt body small (λ _. tt) in
      (response, book)

  -- With no failing driver call, on a valid database, and for any decoded body that does not take what
  -- the account has earned to 2^63: POST /accounts/{account_id}/redeem answers as the API does on the
  -- book that the database holds, on each of its branches (403, 400, 404, 409, 200 and 201), and leaves
  -- the database with the book that the API leaves.
  pub redeem_points-Answered :
      (account_id : String) (body : NewRedemption)
      → earned account_id db.transactions + pos_part body.points < int64_limit
      → Answered
          (redeem_points (server env) ctx account_id (some body) (calm db now))
          (post_redemption ctx.request_id ctx.identity account_id body (book_of db))
  redeem_points-Answered account_id body small =
      let (response, book, _) =
        redeem_points-Served env ctx db now valid (λ _. Unit) tt account_id body small tt in
      (response, book)
