-- ===== src/System/Reupload.antt =====
-- A file that is uploaded to internal/httpapi/batch.go a second time, as a client does that got no
-- answer to the first.
pub mod Settled
pub mod Attempts
use gowallet.Prelude.{
  ℕ, suc, ◌+◌, ◌≤◌, String, Option, none, some, ◌≡◌, refl, ap, sym, ◌∙◌, inl, inr, List, [], ◌∷◌,
  Bool, true, false, not, ◌&&◌, Result, ok, err, arith, length, if◌then◌else◌, Bool-cases,
  Option-cases, ◌==◌,
}
use mathlib.Core.Path.{subst}
use gowallet.Prelude.Int.{pos, ◌≤ℤ◌}
use gowallet.Wallet.{
  Kind, earn, spend, redeem, other, Transaction, AuditEntry, valid, Error, is, not_found,
  insufficient_balance,
}
use gowallet.Wallet.Service.{is_incomplete, record_earn, record_spend}
use gowallet.Store.Db.{Db, Stamp, TransactionRow}
use gowallet.Store.Queries.{transaction_row, kind_allowed}
use gowallet.Store.Session.{World}
use gowallet.Store.Accounts.{to_error}
use gowallet.Store.Ledger.{record_transaction, stored_of}
use gowallet.Store.Ledger.Calm.{calm, is_known, record_replay, record_unknown}
use gowallet.Store.Ledger.Outcome.{Recorded, record_transaction-Recorded, row_of}
use gowallet.Store.Ledger.Replay.{row_after}
use gowallet.Store.Ledger.Faultless.{IsCalm, record_transaction-IsCalm}
use gowallet.Http.Response.{BatchSummary}
use gowallet.Http.Batch.{
  Line, fields, broken, tally, count_row, no_rows_yet, by_kind, classify_outcome, finish_row,
  Bucket, rejected_bucket, process_parsed, process_row, process_line, process_lines, parse_row,
  attempt_entry, unparsed_entry, broken_entry, record_audit,
}
use gowallet.Http.Batch.Counts.{process_lines-IsBalanced}
use gowallet.Store.Repositories
use gowallet.System.{Environment, server}
use gowallet.System.Ingest.{classify_outcome-valid}
use gowallet.System.Ingest.Rows.{record_audit_calm}
use gowallet.System.Reupload.Settled.{
  Settles, Grows, replays, replays_parts, is_settled, done_by, settled_at, settled_lines, kept_rows,
  classified_rows, tally_duplicates, settled_at-le, settled_lines-le,
}
use gowallet.System.Reupload.Attempts.{Attempt, by_kind-Attempt, by_kind-replay}

-- What one round of the loop does.
record Round (line : Line) (sum : BatchSummary) (w : World) (sum' : BatchSummary) (w' : World)
    : Type 0 where
  quiet : IsCalm w'
  grows : Grows w.db w'.db
  settles : kept_rows sum' ≤ settled_at w'.db line + kept_rows sum
  repeats : settled_at w.db line + sum.duplicates ≤ sum'.duplicates

done_by-settled_at :
    (rec : List String) (t : Transaction) (r : Result Error (Transaction × Bool)) (w' : World)
    → parse_row rec ≡ ok t
    → Settles t (r, w')
    → done_by r ≤ settled_at w'.db (fields rec)
unfolding Settles
done_by-settled_at rec t (err e) w' parses h = omega arith
done_by-settled_at rec t (ok stored) w' parses h = rw (parses, h) (omega arith)

module _ (env : Environment) where
  -- A rejected line that is not settled.
  rejects :
      (line : Line) (e : AuditEntry) (sum : BatchSummary) (w : World)
      → IsCalm w
      → valid e.outcome ≡ true
      → is_settled w.db line ≡ false
      → Round line sum w (tally rejected_bucket (count_row sum)) (record_audit (server env) e w)
  unfolding Grows
  rejects line e sum w quiet known unsettled = rw (record_audit_calm env e w quiet known) (record {
    quiet = quiet;
    grows = λ u h. h;
    settles = omega arith;
    repeats = rw unsettled (omega arith);
  })

  repeated :
      (rec : List String) (t : Transaction) (sum : BatchSummary) (w w' : World)
      (r : Result Error (Transaction × Bool))
      → parse_row rec ≡ ok t
      → by_kind (server env) t.kind t w ≡ (r, w')
      → IsCalm w
      → settled_at w.db (fields rec) + sum.duplicates
        ≤ (tally (classify_outcome r).2 (count_row sum)).duplicates
  unfolding classify_outcome
  repeated rec t sum w w' r parses same quiet = elim (Bool-cases (replays t w.db)) [
    | inr new ↦ rw (parses, new) (omega (arith, tally_duplicates (classify_outcome r).2 sum))
    | inl settled ↦
        let (complete, known, found) = replays_parts t w.db settled in
        elim (Option-cases (transaction_row t.ref w.db.transactions)) [
          | inl missing ↦ cc (found, missing)
          | inr (row, first) ↦
              let replayed : r ≡ ok (stored_of row, false) =
                ap (λ x. x.0)
                  (sym same ∙ by_kind-replay env t.kind t w row quiet complete known first) in
              rw (parses, settled, replayed) (omega arith)
        ]
  ]

  finishes :
      (rec : List String) (t : Transaction) (sum : BatchSummary) (w w' : World)
      (r : Result Error (Transaction × Bool))
      → parse_row rec ≡ ok t
      → by_kind (server env) t.kind t w ≡ (r, w')
      → IsCalm w
      → Attempt env t w r w'
      → Round
          (fields rec)
          sum
          w
          (finish_row (server env) t (classify_outcome r) (count_row sum, w')).0
          (finish_row (server env) t (classify_outcome r) (count_row sum, w')).1
  unfolding finish_row Grows Settles
  finishes rec t sum w w' r parses same quiet a =
      rw
        (record_audit_calm env (attempt_entry t (classify_outcome r).0 (classify_outcome r).1) w'
          a.quiet (classify_outcome-valid r))
        (record {
          quiet = a.quiet;
          grows = a.grows;
          settles =
              omega (arith, classified_rows r sum, done_by-settled_at rec t r w' parses a.settles);
          repeats = repeated rec t sum w w' r parses same quiet;
        })

  parsed-Round :
      (rec : List String) (row : Result String Transaction)
      → parse_row rec ≡ row
      → (sum : BatchSummary) (w : World) → IsCalm w
      → Round
          (fields rec)
          sum
          w
          (process_parsed (server env) row rec (count_row sum, w)).0
          (process_parsed (server env) row rec (count_row sum, w)).1
  unfolding process_parsed
  parsed-Round rec (err reason) parses sum w quiet =
      rejects (fields rec) (unparsed_entry rec reason) sum w quiet refl (rw parses refl)
  parsed-Round rec (ok t) parses sum w quiet =
      finishes rec t sum w _ _ parses refl quiet (by_kind-Attempt env t.kind t w quiet)

  process_line-Round :
      (line : Line) (sum : BatchSummary) (w : World)
      → IsCalm w
      → Round line sum w
          (process_line (server env) line (sum, w)).0
          (process_line (server env) line (sum, w)).1
  unfolding process_line process_row
  process_line-Round broken sum w quiet = rejects broken broken_entry sum w quiet refl refl
  process_line-Round (fields rec) sum w quiet = parsed-Round rec (parse_row rec) refl sum w quiet

  -- The rounds of a whole file.
  record Rounds (lines : List Line) (sum : BatchSummary) (w : World) (sum' : BatchSummary)
      (w' : World) : Type 0 where
    quiet : IsCalm w'
    grows : Grows w.db w'.db
    settles : kept_rows sum' ≤ settled_lines w'.db lines + kept_rows sum
    repeats : settled_lines w.db lines + sum.duplicates ≤ sum'.duplicates

  process_lines-Rounds :
      (lines : List Line) (sum : BatchSummary) (w : World)
      → IsCalm w
      → Rounds lines sum w
          (process_lines (server env) lines (sum, w)).0
          (process_lines (server env) lines (sum, w)).1
  unfolding process_lines Grows
  process_lines-Rounds [] sum w quiet = record {
    quiet = quiet;
    grows = λ t h. h;
    settles = omega arith;
    repeats = omega arith;
  }
  process_lines-Rounds (line ∷ lines) sum w quiet =
      let (sum1, w1) = process_line (server env) line (sum, w) in
      let (sum2, w2) = process_lines (server env) lines (sum1, w1) in
      let a = process_line-Round line sum w quiet in
      let b = process_lines-Rounds lines sum1 w1 a.quiet in
      record {
        quiet = b.quiet;
        grows = λ t h. b.grows t (a.grows t h);
        settles = omega (arith, a.settles, b.settles, settled_at-le w1.db w2.db line b.grows);
        repeats = omega (arith, a.repeats, b.repeats, settled_lines-le w.db w1.db lines a.grows);
      }

-- With no failing driver call: when a file is uploaded a second time, straight after the first, every
-- row that was not rejected the first time is counted as a duplicate, and at most as many rows are
-- accepted as were rejected the first time. So a file without rejected rows consists of
-- duplicates the second time.
pub process_lines_again :
    (env : Environment) (lines : List Line) (db : Db) (now later : Stamp)
    → let (first, w) = process_lines (server env) lines (no_rows_yet, calm db now) in
      let second : BatchSummary =
        (process_lines (server env) lines (no_rows_yet, calm w.db later)).0 in
      (first.accepted + first.duplicates ≤ second.duplicates) × (second.accepted ≤ first.rejected)
process_lines_again env lines db now later =
    let (first, w) = process_lines (server env) lines (no_rows_yet, calm db now) in
    let a = process_lines-Rounds env lines no_rows_yet (calm db now) refl in
    let b = process_lines-Rounds env lines no_rows_yet (calm w.db later) refl in
    omega (
      arith,
      a.settles,
      b.repeats,
      process_lines-IsBalanced (server env) lines (calm db now),
      process_lines-IsBalanced (server env) lines (calm w.db later),
    )
