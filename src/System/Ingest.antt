-- ===== src/System/Ingest.antt =====
-- The batch of internal/httpapi/batch.go over the store: what an upload leaves in the tables.
pub mod Rows
use gowallet.Prelude.{
  ℕ, ◌+◌, String, ◌≡◌, refl, ap, ◌∙◌, inl, inr, List, [], ◌∷◌, Bool, true, false, Result, ok, err,
  arith, length, if◌then◌else◌, Bool-cases,
}
use gowallet.Wallet.{
  Kind, earn, spend, redeem, other, Transaction, AuditEntry, AuditOutcome, accepted, rejected,
  duplicate, valid, Error, external, is, not_found, insufficient_balance,
}
use gowallet.Wallet.Service.{record_spend}
use gowallet.Store.Audit.{append_audit}
use gowallet.Wallet.Audit.{record_attempt}
use gowallet.Store.Db.{Db, Stamp, AuditRow}
use gowallet.Store.Queries.{add_audit_row, new_audit_row}
use gowallet.Store.Session.{World}
use gowallet.Store.Accounts.{to_error}
use gowallet.Store.Ledger.Calm.{calm}
use gowallet.Store.Ledger.Faultless.{IsCalm, record_transaction-IsCalm, append_audit_calm}
use gowallet.Store.Recording.{Stamped, services_stamp_kind}
use gowallet.Wallet.Keeps.{record_earn-keeps, record_spend-keeps}
use gowallet.Http.Response.{BatchSummary}
use gowallet.Http.Batch.{
  Line, fields, broken, Bucket, accepted_bucket, rejected_bucket, duplicate_bucket, tally,
  count_row, no_rows_yet, record_audit, by_kind, classify_outcome, finish_row, process_parsed,
  process_row, process_line, process_lines, parse_row, unparsed_entry, attempt_entry, broken_entry,
}
use gowallet.Store.Repositories
use gowallet.System.{Environment, server}
use gowallet.System.Ingest.Rows.{created, Recording, record_audit_calm, by_kind-Recording}

-- The outcome that a bucket's rows are logged with.
abbrev pub is_outcome : Bucket → AuditOutcome → Bool
is_outcome accepted_bucket accepted = true
is_outcome rejected_bucket rejected = true
is_outcome duplicate_bucket duplicate = true
is_outcome _ _ = false

abbrev pub logged : Bucket → List AuditRow → ℕ
logged bucket [] = 0
logged bucket (row ∷ rows) = (if is_outcome bucket row.outcome then 1 else 0) + logged bucket rows

abbrev pub bucket_count : Bucket → BatchSummary → ℕ
bucket_count accepted_bucket sum = sum.accepted
bucket_count rejected_bucket sum = sum.rejected
bucket_count duplicate_bucket sum = sum.duplicates

-- The summary is what the tables have gained since `before`: each bucket as many audit rows with its
-- outcome, and as many transactions as rows were accepted.
pub record Matches (before : Db) (sum : BatchSummary) (w : World) : Type 0 where
  pub quiet : IsCalm w
  pub transactions : length w.db.transactions ≡ sum.accepted + length before.transactions
  pub audit :
      (bucket : Bucket)
      → logged bucket w.db.audit_log ≡ bucket_count bucket sum + logged bucket before.audit_log

abbrev outcome_of : Bucket → AuditOutcome
outcome_of accepted_bucket = accepted
outcome_of rejected_bucket = rejected
outcome_of duplicate_bucket = duplicate

abbrev stored_by : Bucket → ℕ
stored_by accepted_bucket = 1
stored_by _ = 0

-- A result is classified with the outcome of its bucket, and is accepted when it reports a creation.
IsClassified : Result Error (Transaction × Bool) → AuditOutcome × String × Bucket → Type 0
IsClassified r (outcome, reason, bucket) =
    (outcome ≡ outcome_of bucket) × (created r ≡ stored_by bucket)

classify_outcome-IsClassified :
    (r : Result Error (Transaction × Bool)) → IsClassified r (classify_outcome r)
unfolding classify_outcome IsClassified
classify_outcome-IsClassified (ok (stored, true)) = (refl, refl)
classify_outcome-IsClassified (ok (stored, false)) = (refl, refl)
classify_outcome-IsClassified (err e) = elim (Bool-cases (is e not_found)) [
  | inl missing ↦ rw missing (refl, refl)
  | inr found ↦ elim (Bool-cases (is e insufficient_balance)) [
    | inl short ↦ rw (found, short) (refl, refl)
    | inr enough ↦ rw (found, enough) (refl, refl)
  ]
]

valid-outcome_of : (b : Bucket) → valid (outcome_of b) ≡ true
valid-outcome_of b = ground arith

IsClassified-valid :
    (r : Result Error (Transaction × Bool)) (c : AuditOutcome × String × Bucket)
    → IsClassified r c
    → valid c.0 ≡ true
unfolding IsClassified
IsClassified-valid r (outcome, reason, bucket) (same, counted) = rw same (valid-outcome_of bucket)

-- The outcome that a result is logged with is one of the three.
pub classify_outcome-valid :
    (r : Result Error (Transaction × Bool)) → valid (classify_outcome r).0 ≡ true
classify_outcome-valid r = IsClassified-valid r _ (classify_outcome-IsClassified r)

logged-tally :
    (b bucket : Bucket) (sum : BatchSummary) (rows : List AuditRow) (n : ℕ)
    → logged bucket rows ≡ bucket_count bucket sum + n
    → (if is_outcome bucket (outcome_of b) then 1 else 0) + logged bucket rows
      ≡ bucket_count bucket (tally b (count_row sum)) + n
logged-tally b bucket sum rows n h = ground arith

stored-tally :
    (b : Bucket) (sum : BatchSummary)
    → (tally b (count_row sum)).accepted ≡ stored_by b + sum.accepted
stored-tally b sum = ground arith

module _ (env : Environment) (before : Db) where
  -- One more row of a batch, recorded or not, and logged with the outcome of its bucket.
  log_row :
      (b : Bucket) (e : AuditEntry) (sum : BatchSummary) (w w' : World)
      (r : Result Error (Transaction × Bool))
      → e.outcome ≡ outcome_of b
      → created r ≡ stored_by b
      → Recording w r w'
      → Matches before sum w
      → Matches before (tally b (count_row sum)) (record_audit (server env) e w')
  log_row b e sum w w' r outcome counted done h =
      let known : valid e.outcome ≡ true = rw outcome (valid-outcome_of b) in
      rw (record_audit_calm env e w' done.quiet known) (record {
        quiet = done.quiet;
        transactions =
            omega (arith, done.transactions, counted, h.transactions, stored-tally b sum);
        audit = λ bucket.
            rw (outcome, done.audit) (logged-tally b bucket sum w.db.audit_log _ (h.audit bucket));
      })

  -- A row that is not recorded.
  unrecorded : (w : World) (e : Error) → IsCalm w → Recording w (err e) w
  unrecorded w e quiet = record { quiet = quiet; audit = refl; transactions = omega arith }

  finish_row-Matches :
      (t : Transaction) (sum : BatchSummary) (w w' : World) (r : Result Error (Transaction × Bool))
      (c : AuditOutcome × String × Bucket)
      → IsClassified r c
      → Recording w r w'
      → Matches before sum w
      → Matches before
          (finish_row (server env) t c (count_row sum, w')).0
          (finish_row (server env) t c (count_row sum, w')).1
  unfolding finish_row IsClassified
  finish_row-Matches t sum w w' r (outcome, reason, bucket) (same, counted) done h =
      log_row bucket (attempt_entry t outcome reason) sum w w' r same counted done h

  process_parsed-Matches :
      (parsed : Result String Transaction) (rec : List String) (sum : BatchSummary) (w : World)
      → Matches before sum w
      → Matches before
          (process_parsed (server env) parsed rec (count_row sum, w)).0
          (process_parsed (server env) parsed rec (count_row sum, w)).1
  unfolding process_parsed
  process_parsed-Matches (err reason) rec sum w h =
      log_row rejected_bucket (unparsed_entry rec reason) sum w w (err (external "")) refl refl
        (unrecorded w _ h.quiet) h
  process_parsed-Matches (ok t) rec sum w h =
      finish_row-Matches t sum w _ _ _ (classify_outcome-IsClassified _)
        (by_kind-Recording env t.kind t w h.quiet) h

  process_line-Matches :
      (line : Line) (sum : BatchSummary) (w : World)
      → Matches before sum w
      → Matches before
          (process_line (server env) line (sum, w)).0
          (process_line (server env) line (sum, w)).1
  unfolding process_line process_row
  process_line-Matches broken sum w h =
      log_row rejected_bucket broken_entry sum w w (err (external "")) refl refl
        (unrecorded w _ h.quiet) h
  process_line-Matches (fields rec) sum w h = process_parsed-Matches (parse_row rec) rec sum w h

  process_lines-Matches_from :
      (lines : List Line) (sum : BatchSummary) (w : World)
      → Matches before sum w
      → Matches before
          (process_lines (server env) lines (sum, w)).0
          (process_lines (server env) lines (sum, w)).1
  unfolding process_lines
  process_lines-Matches_from [] sum w h = h
  process_lines-Matches_from (line ∷ lines) sum w h =
      let (sum', w') = process_line (server env) line (sum, w) in
      process_lines-Matches_from lines sum' w' (process_line-Matches line sum w h)

-- With no failing driver call, the summary of a batch is what it has left in the tables: as many new
-- transactions as accepted rows, and as many new audit rows of each outcome as rows in its bucket. So
-- every line of the upload leaves one audit row.
pub process_lines-Matches :
    (env : Environment) (lines : List Line) (db : Db) (now : Stamp)
    → Matches db
        (process_lines (server env) lines (no_rows_yet, calm db now)).0
        (process_lines (server env) lines (no_rows_yet, calm db now)).1
process_lines-Matches env lines db now =
    process_lines-Matches_from env db lines no_rows_yet (calm db now)
      (record { quiet = refl; transactions = omega arith; audit = λ bucket. ground arith })
