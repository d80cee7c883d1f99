-- ===== src/Tests/Api.antt =====
-- The two writing endpoints against the API at concrete inputs.
use gowallet.Prelude.{
  String, ◌+◌, ◌<◌, ◌≡◌, none, some, List, [], ◌∷◌, arith, inl, inr, Bool-cases, ◌==◌,
}
use gowallet.Prelude.Int.{pos, int64_limit}
use gowallet.Store.Db.{Stamp}
use gowallet.Store.Totals.{earned}
use gowallet.Http.Server.{Context}
use gowallet.System.Api.Runs.{
  WriteRequest, posting, redeeming, asked_points, handle_all, promised_all, handle_all-Answered,
}
use gowallet.Store.Book.{book_of}
use gowallet.Http.Transactions.{NewTransaction, NewRedemption}
use gowallet.Tests.Data.{env, june, at_june, earned_db, earned_db-IsValid, member_identity, context}

abbrev a_body : NewTransaction
a_body = record {
  ref = "s-1";
  account_id = "member-123";
  kind = "spend";
  points = pos 30;
  occurred_at = at_june;
}

abbrev a_redemption : NewRedemption
a_redemption = record { ref = "r-1"; points = pos 300; reward = "mug"; occurred_at = at_june }

-- A spend, a redemption of more than is left, and the spend again.
abbrev requests : List (Context × Stamp × WriteRequest)
requests =
    (context (some member_identity), june, posting a_body)
    ∷ (context (some member_identity), june + 60, redeeming "member-123" a_redemption)
    ∷ (context none, june + 90, posting a_body)
    ∷ (context (some member_identity), june + 120, posting a_body)
    ∷ []

requests_small :
    (id : String) → earned id earned_db.transactions + asked_points requests < int64_limit
requests_small id = elim (Bool-cases ("member-123" == id)) [
  | inl mine ↦ rw mine (omega arith)
  | inr other_account ↦ rw other_account (omega arith)
]

handle_all-Answered_example :
    ((handle_all env requests earned_db).0 ≡ (promised_all requests (book_of earned_db)).0)
    × (book_of (handle_all env requests earned_db).1
        ≡ (promised_all requests (book_of earned_db)).1)
handle_all-Answered_example =
    handle_all-Answered env requests earned_db earned_db-IsValid requests_small
