-- ===== src/System/Liveness/Answered.antt =====
-- When no driver call fails, `NewRouter` of internal/httpapi answers every request.
use gowallet.Prelude.{
  ◌+◌, ◌<◌, String, ◌≡◌, refl, ap, sym, ◌∙◌, Option, none, some, Bool, true, false, not, Result, ok,
  err, ◌==◌, ◌||◌, ◌&&◌, Bool-cases, inl, inr, if◌then◌else◌, ltb, eqb,
}
use gowallet.Prelude.Int.{pos, pos_part, leb_ℤ, ltb_ℤ, int64_limit}
use gowallet.Wallet.{Transaction, Identity, Sentinel, is_zero, earn, spend}
use gowallet.Store.Db.{Db, Stamp}
use gowallet.Store.Invariant.{IsValid}
use gowallet.Store.Totals.{earned}
use gowallet.Store.Book.{Book, submit, submit_found, book_of}
use gowallet.Store.Ledger.{is_deduction}
use gowallet.Store.Ledger.Calm.{calm}
use gowallet.Store.Sure.{IsSmall}
use gowallet.Http.Errors.{write_error, not_found_handler, method_not_allowed_handler}
use gowallet.Http.Infra.{serve_spec, serve_swagger}
use gowallet.Http.Contract.Routes.{middlewares-Answers}
use mathlib.Core.Path.{subst}
use gowallet.Http.Errors.Known.{IsAnswer}
use gowallet.Http.Response.{Response, reply}
use gowallet.Http.Server.{Context}
use gowallet.Http.Transactions
use gowallet.Http.Transactions.{NewTransaction, NewRedemption}
use gowallet.Http.Router
use gowallet.Http.Router.{
  Operation, Target, Request, operation, bad_parameter, spec_file, swagger, no_route, other_method,
  dispatch, serve,
}
use gowallet.System.{Environment, server}
use gowallet.System.Api.{
  may_act, answer, answer_redemption, post_transaction, post_redemption, posted, redeemed_by,
}
use gowallet.System.Api.Refinement.{create_transaction-Answered, redeem_points-Answered}
use gowallet.System.Liveness.{
  get_account-IsAnswer, list_transactions-IsAnswer, list_audit-IsAnswer, get_balance-IsAnswer,
  list_accounts-IsAnswer,
}
use gowallet.System.Liveness.Writes.{
  LibrariesWork, create_account-IsAnswer, login-IsAnswer, ingest_batch-IsAnswer,
  get_health-IsAnswer,
}

-- A submission is refused for an unknown account or too low a balance only.
submit_answered :
    (f : Result Sentinel (Transaction × Bool) → Response)
    → ((x : Transaction × Bool) → IsAnswer (f (ok x)))
    → IsAnswer (f (err Sentinel.not_found))
    → IsAnswer (f (err Sentinel.insufficient_balance))
    → (t : Transaction) (b : Book) → IsAnswer (f (submit t b).0)
unfolding submit
submit_answered f accepted unknown short t b = elim (Bool-cases (b.known t.account_id)) [
  | inr missing ↦ rw missing unknown
  | inl known ↦ rw known (by_ref (b.stored t.ref))
]
  where
    by_ref : (found : Option Transaction) → IsAnswer (f (submit_found t b found).0)
    by_ref (some first) = accepted (first, false)
    by_ref none =
        elim (Bool-cases
          (is_deduction t.kind && ltb (b.balance t.account_id) (pos_part t.points))) [
            | inl too_low ↦ rw too_low short
            | inr enough ↦ rw enough (accepted _)
          ]

answer-IsAnswer :
    (request_id : String) (x : Transaction × Bool) → IsAnswer (answer request_id (ok x))
answer-IsAnswer request_id (t, true) = refl
answer-IsAnswer request_id (t, false) = refl

answer_redemption-IsAnswer :
    (request_id : String) (x : Transaction × Bool) → IsAnswer (answer_redemption request_id (ok x))
answer_redemption-IsAnswer request_id (t, true) = refl
answer_redemption-IsAnswer request_id (t, false) = refl

if-IsAnswer :
    (b : Bool) (x y : Response × Book)
    → IsAnswer x.0
    → IsAnswer y.0
    → IsAnswer (if b then x else y).0
if-IsAnswer true x y hx hy = hx
if-IsAnswer false x y hx hy = hy

post_transaction-IsAnswer :
    (request_id : String) (identity : Option Identity) (body : NewTransaction) (b : Book)
    → IsAnswer (post_transaction request_id identity body b).0
unfolding write_error
post_transaction-IsAnswer request_id identity body b =
    if-IsAnswer
      (body.ref == ""
        || body.account_id == ""
        || ltb_ℤ body.points (pos 1)
        || is_zero body.occurred_at)
      _ _ refl
      (if-IsAnswer (not (body.kind == "earn") && not (body.kind == "spend")) _ _ refl (
        if-IsAnswer (not (may_act identity body.account_id)) _ _ refl (
          submit_answered (answer request_id) (answer-IsAnswer request_id) refl refl
            (posted body (if body.kind == "earn" then earn else spend)) b)))

post_redemption-IsAnswer :
    (request_id : String) (identity : Option Identity) (id : String) (body : NewRedemption)
    (b : Book)
    → IsAnswer (post_redemption request_id identity id body b).0
unfolding write_error
post_redemption-IsAnswer request_id identity id body b =
    if-IsAnswer (not (may_act identity id)) _ _ refl (
      if-IsAnswer ((body.ref == "" || id == "" || leb_ℤ body.points (pos 0)) || body.reward == "") _
        _ refl
        (submit_answered (answer_redemption request_id) (answer_redemption-IsAnswer request_id) refl
          refl (redeemed_by id body) b))

-- No total that the operation adds up reaches 2^63.
abbrev pub StaysSmall : Operation → Db → Type 0
StaysSmall Operation.list_accounts db = IsSmall db
StaysSmall (Operation.get_balance id) db = IsSmall db
StaysSmall (Operation.create_transaction (some body)) db =
    earned body.account_id db.transactions + pos_part body.points < int64_limit
StaysSmall (Operation.redeem_points id (some body)) db =
    earned id db.transactions + pos_part body.points < int64_limit
StaysSmall _ db = Unit

-- The same for what the router matched.
abbrev pub StaysSmallAt : Target → Db → Type 0
StaysSmallAt (operation op) db = StaysSmall op db
StaysSmallAt _ db = Unit

module _ (env : Environment) (works : LibrariesWork env) (db : Db) (now : Stamp)
    (valid : IsValid db) where
  create_transaction-IsAnswer :
      (ctx : Context) (body : Option NewTransaction)
      → StaysSmall (Operation.create_transaction body) db
      → IsAnswer (Transactions.create_transaction (server env) ctx body (calm db now)).0
  unfolding Transactions.create_transaction reply write_error
  create_transaction-IsAnswer ctx none small = refl
  create_transaction-IsAnswer ctx (some body) small =
      ap (λ r. eqb r.status 500) (create_transaction-Answered env ctx db now valid body small).0
      ∙ post_transaction-IsAnswer ctx.request_id ctx.identity body (book_of db)

  redeem_points-IsAnswer :
      (ctx : Context) (id : String) (body : Option NewRedemption)
      → StaysSmall (Operation.redeem_points id body) db
      → IsAnswer (Transactions.redeem_points (server env) ctx id body (calm db now)).0
  unfolding Transactions.redeem_points reply write_error
  redeem_points-IsAnswer ctx id none small = refl
  redeem_points-IsAnswer ctx id (some body) small =
      ap (λ r. eqb r.status 500) (redeem_points-Answered env ctx db now valid id body small).0
      ∙ post_redemption-IsAnswer ctx.request_id ctx.identity id body (book_of db)

  dispatch-IsAnswer :
      (op : Operation) (ctx : Context)
      → StaysSmall op db
      → IsAnswer (dispatch (server env) op ctx (calm db now)).0
  unfolding dispatch
  dispatch-IsAnswer Operation.list_accounts ctx small =
      list_accounts-IsAnswer env ctx db now valid small
  dispatch-IsAnswer (Operation.create_account body) ctx small =
      create_account-IsAnswer env works ctx db now body
  dispatch-IsAnswer (Operation.get_account id) ctx small =
      get_account-IsAnswer env ctx db now valid id
  dispatch-IsAnswer (Operation.get_balance id) ctx small =
      get_balance-IsAnswer env ctx db now valid small id
  dispatch-IsAnswer (Operation.redeem_points id body) ctx small =
      redeem_points-IsAnswer ctx id body small
  dispatch-IsAnswer (Operation.list_transactions id) ctx small =
      list_transactions-IsAnswer env ctx db now valid id
  dispatch-IsAnswer (Operation.list_audit id) ctx small =
      list_audit-IsAnswer env ctx db now valid id
  dispatch-IsAnswer (Operation.ingest_batch file) ctx small =
      ingest_batch-IsAnswer env works ctx db now file _
  dispatch-IsAnswer Operation.get_health ctx small = get_health-IsAnswer env _
  dispatch-IsAnswer (Operation.login body) ctx small = login-IsAnswer env works ctx db now body _
  dispatch-IsAnswer (Operation.create_transaction body) ctx small =
      create_transaction-IsAnswer ctx body small

  target-IsAnswer :
      (req : Request) (ctx : Context) (target : Target)
      → StaysSmallAt target db
      → IsAnswer (Router.answer (server env) req ctx target (calm db now)).0
  unfolding Router.answer reply write_error serve_spec serve_swagger not_found_handler
      method_not_allowed_handler
  target-IsAnswer req ctx (operation op) small =
      (middlewares-Answers (λ w. w ≡ calm db now) IsAnswer (server env) req
          (dispatch (server env) op) (inr (λ b. refl), inr (λ b. refl))
          (λ ctx. record {
            at = λ w same.
                subst (λ w. IsAnswer (dispatch (server env) op ctx w).0) (sym same)
                  (dispatch-IsAnswer op ctx small);
          })
          (record ctx { identity = none })).at
        (calm db now) refl
  target-IsAnswer req ctx bad_parameter small = refl
  target-IsAnswer req ctx spec_file small = refl
  target-IsAnswer req ctx swagger small = refl
  target-IsAnswer req ctx no_route small = refl
  target-IsAnswer req ctx (other_method allow) small = refl

  -- Every request is answered, whatever it asks and whoever asks it: on a valid database and with no
  -- failing driver call, where bcrypt hashes what is not too long, tokens can be signed, and no total
  -- that the operation adds up reaches 2^63, the status of the response is not 500.
  pub serve-IsAnswer :
      (req : Request) (ctx : Context)
      → StaysSmallAt req.target db
      → IsAnswer (serve (server env) req ctx (calm db now)).0
  unfolding serve
  serve-IsAnswer req ctx small = target-IsAnswer req ctx req.target small
