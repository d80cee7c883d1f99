-- ===== src/System/Api/Runs.antt =====
-- Sequences of writing requests, by any callers and at any times, against the API over the book.
use gowallet.Prelude.{ℕ, ◌+◌, ◌≤◌, ◌<◌, String, ◌≡◌, refl, some, List, [], ◌∷◌, arith}
use mathlib.Core.Path.{ap₂}
use gowallet.Prelude.Int.{pos_part, int64_limit}
use gowallet.Wallet.{Transaction}
use gowallet.Store.Db.{Db, Stamp}
use gowallet.Store.Session.{World}
use gowallet.Store.Accounts.{to_error}
use gowallet.Store.Ledger.{record_transaction}
use gowallet.Store.Ledger.Outcome.{record_transaction-Recorded}
use gowallet.Store.Ledger.Calm.{calm}
use gowallet.Store.Totals.{earned}
use gowallet.Store.Invariant.{IsValid, record_transaction-IsValid}
use gowallet.Store.Book.{Book, book_of}
use gowallet.Store.Book.Runs.{Recorded-earned}
use gowallet.Http.Response.{Response}
use gowallet.Http.Server.{Context}
use gowallet.Http.Transactions.{NewTransaction, NewRedemption, create_transaction, redeem_points}
use gowallet.System.{Environment, server}
use gowallet.System.Api.{post_transaction, post_redemption, posted, redeemed_by}
use gowallet.System.Api.Answers.{Served}
use gowallet.System.Api.Refinement.{create_transaction-Served, redeem_points-Served}

-- A decoded request of one of the two endpoints.
pub data WriteRequest : Type 0 where
  posting : NewTransaction → WriteRequest
  redeeming : String → NewRedemption → WriteRequest

abbrev pub points_of : WriteRequest → ℕ
points_of (posting body) = pos_part body.points
points_of (redeeming account_id body) = pos_part body.points

-- The handler of a request, on a database with no failing driver call.
unfoldable pub handle : Environment → Context → Stamp → WriteRequest → Db → Response × World
handle env ctx now (posting body) db = create_transaction (server env) ctx (some body) (calm db now)
handle env ctx now (redeeming account_id body) db =
    redeem_points (server env) ctx account_id (some body) (calm db now)

unfoldable pub promised : Context → WriteRequest → Book → Response × Book
promised ctx (posting body) b = post_transaction ctx.request_id ctx.identity body b
promised ctx (redeeming account_id body) b =
    post_redemption ctx.request_id ctx.identity account_id body b

-- Requests one after the other, each with its context and its time.
unfoldable pub handle_all :
    Environment → List (Context × Stamp × WriteRequest) → Db → List Response × Db
handle_all env [] db = ([], db)
handle_all env ((ctx, now, req) ∷ rest) db =
    let (r, w) = handle env ctx now req db in
    let (rs, db') = handle_all env rest w.db in (r ∷ rs, db')

unfoldable pub promised_all : List (Context × Stamp × WriteRequest) → Book → List Response × Book
promised_all [] b = ([], b)
promised_all ((ctx, now, req) ∷ rest) b =
    let (r, b1) = promised ctx req b in let (rs, b2) = promised_all rest b1 in (r ∷ rs, b2)

-- All the points that are asked for.
abbrev pub asked_points : List (Context × Stamp × WriteRequest) → ℕ
asked_points [] = 0
asked_points ((ctx, now, req) ∷ rest) = points_of req + asked_points rest

-- A valid database in which each account has earned at most `points` more than in `before`.
record Follows (before : Db) (points : ℕ) (db : Db) : Type 0 where
  valid : IsValid db
  bounded : (id : String) → earned id db.transactions ≤ earned id before.transactions + points

module _ (env : Environment) (db : Db) (valid : IsValid db) where
  same-Follows : (points : ℕ) → Follows db points db
  same-Follows points = record { valid = valid; bounded = λ id. omega arith }

  recorded-Follows :
      (t : Transaction) (now : Stamp)
      → Follows db
          (pos_part t.points)
          (record_transaction (to_error env.driver) t (calm db now)).1.db
  recorded-Follows t now = record {
    valid = record_transaction-IsValid (to_error env.driver) t (calm db now) valid;
    bounded = λ id.
        Recorded-earned t (calm db now) _ _ id
          (record_transaction-Recorded (to_error env.driver) t (calm db now));
  }

  handle-Served :
      (ctx : Context) (now : Stamp) (req : WriteRequest)
      → ((id : String) → earned id db.transactions + points_of req < int64_limit)
      → Served
          (Follows db (points_of req))
          (handle env ctx now req db)
          (promised ctx req (book_of db))
  unfolding handle promised
  handle-Served ctx now (posting body) small =
      create_transaction-Served env ctx db now valid (Follows db (pos_part body.points))
        (same-Follows (pos_part body.points)) body (small body.account_id)
        (λ kind. recorded-Follows (posted body kind) now)
  handle-Served ctx now (redeeming account_id body) small =
      redeem_points-Served env ctx db now valid (Follows db (pos_part body.points))
        (same-Follows (pos_part body.points)) account_id body (small account_id)
        (recorded-Follows (redeemed_by account_id body) now)

-- With no failing driver call, on a valid database, and for any sequence of decoded POST /transactions
-- and POST /accounts/{account_id}/redeem requests, of any callers and at any times, that do not take
-- what any account has earned to 2^63: the service answers each request as the API answers it on the
-- book, and in the end the database holds the book that the API leaves.
pub handle_all-Answered :
    (env : Environment) (requests : List (Context × Stamp × WriteRequest)) (db : Db)
    → IsValid db
    → ((id : String) → earned id db.transactions + asked_points requests < int64_limit)
    → ((handle_all env requests db).0 ≡ (promised_all requests (book_of db)).0)
      × (book_of (handle_all env requests db).1 ≡ (promised_all requests (book_of db)).1)
unfolding handle_all promised_all
handle_all-Answered env [] db valid small = (refl, refl)
handle_all-Answered env ((ctx, now, req) ∷ rest) db valid small =
    let (r, w) = handle env ctx now req db in
    let (response, book, after) =
      handle-Served env db valid ctx now req (λ id. omega (arith, small id)) in
    let (responses, last) =
      handle_all-Answered env rest w.db after.valid
        (λ id. omega (arith, small id, after.bounded id)) in
    rw (← book) (ap₂ ◌∷◌ response responses, last)
