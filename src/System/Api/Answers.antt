-- ===== src/System/Api/Answers.antt =====
-- How the handlers' answers are those of the API, part by part.
use gowallet.Prelude.{
  String, ◌≡◌, refl, Option, none, some, Bool, Result, ok, err, arith, if◌then◌else◌,
}
use gowallet.Wallet.{
  Transaction, Identity, Sentinel, Error, sentinel, not_found, account_exists, invalid_input,
  duplicate_ref, insufficient_balance, invalid_credentials, forbidden,
}
use gowallet.Wallet.Auth.{authorize}
use gowallet.Store.Db.{Db}
use gowallet.Store.Session.{World}
use gowallet.Http.Response.{Response, Web, reply, on_result}
use gowallet.Http.Errors.{write_domain_error}
use gowallet.Http.Identity.{authorize_target}
use gowallet.Http.Transactions.{record_failed}
use gowallet.Store.Book.{Book, book_of}
use gowallet.Store.Book.Refinement.{Refines}
use gowallet.System.Api.{may_act, refuse, answered_by}

pub authorize_target-may_act :
    (identity : Option Identity) (target : String)
    → authorize_target identity target
      ≡ (if may_act identity target then ok target else err (sentinel forbidden))
unfolding authorize_target authorize
authorize_target-may_act none target = refl
authorize_target-may_act (some id) target = ground arith

record_failed-refuse :
    (request_id : String) (s : Sentinel)
    → record_failed request_id (sentinel s) ≡ refuse request_id s
unfolding record_failed write_domain_error
record_failed-refuse request_id not_found = refl
record_failed-refuse request_id account_exists = refl
record_failed-refuse request_id invalid_input = refl
record_failed-refuse request_id duplicate_ref = refl
record_failed-refuse request_id insufficient_balance = refl
record_failed-refuse request_id invalid_credentials = refl
record_failed-refuse request_id forbidden = refl

-- The response is the API's, and the database holds the book that the API leaves.
abbrev pub Answered : Response × World → Response × Book → Type 0
Answered (r, w) (r', b) = (r ≡ r') × (book_of w.db ≡ b)

-- And the database has the property `P`.
abbrev pub Served : (Db → Type 0) → Response × World → Response × Book → Type 0
Served P (r, w) (r', b) = (r ≡ r') × (book_of w.db ≡ b) × P w.db

-- A recording that refines the book is answered as the API answers.
pub on_result-Served :
    (P : Db → Type 0) (request_id : String) (f : Transaction × Bool → Web World)
    (ans : Result Sentinel (Transaction × Bool) → Response)
    → ((x : Transaction × Bool) (w : World) → f x w ≡ (ans (ok x), w))
    → ((s : Sentinel) → ans (err s) ≡ refuse request_id s)
    → (r : Result Error (Transaction × Bool)) (w : World)
      (r' : Result Sentinel (Transaction × Bool)) (b : Book)
    → Refines (r, w) (r', b)
    → P w.db
    → Served P (on_result r f (λ e. reply (record_failed request_id e)) w) (answered_by ans (r', b))
unfolding on_result reply
on_result-Served P request_id f ans value refused r w (ok x) b (same, book) h =
    rw (same, value x w) (refl, book, h)
on_result-Served P request_id f ans value refused r w (err s) b (same, book) h =
    rw (same, refused s) (record_failed-refuse request_id s, book, h)
