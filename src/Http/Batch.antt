-- ===== src/Http/Batch.antt =====
-- internal/httpapi/batch.go: CSV ingestion. encoding/csv is outside: an upload is the sequence of
-- results that `reader.Read()` gives before io.EOF.
pub mod Counts
use gowallet.Prelude.{
  ◌+◌, String, Option, none, some, List, [], ◌∷◌, Bool, true, false, ◌&&◌, Result, ok, err, ◌==◌,
  if◌then◌else◌,
}
use gowallet.Prelude.Int.{ℤ, pos, ltb_ℤ}
use gowallet.Wallet.{
  Time, Kind, earn, spend, kind_text, Transaction, AuditOutcome, accepted, rejected, duplicate,
  AuditEntry, zero_time, Error, is, not_found, insufficient_balance, Call,
}
use gowallet.Wallet.Service.{record_earn, record_spend}
use gowallet.Wallet.Audit.{record_attempt}
use gowallet.Http.Response.{BatchSummary, summary, Web, Response, reply, on_result, write_json}
use gowallet.Http.Errors.{write_error, write_domain_error}
use gowallet.Http.Identity.{require_admin}
use gowallet.Http.Server.{Server, Context}
use gowallet.Http.Text.{trim_space, parse_int}
use gowallet.Http.Time.{parse_time}

-- One result of `reader.Read()`: a record's fields, or a *csv.ParseError.
pub data Line : Type 0 where
  fields : List String → Line
  broken : Line

abbrev pub expected_header : List String
expected_header = "ref" ∷ "account_id" ∷ "kind" ∷ "points" ∷ "occurred_at" ∷ []

-- `sameHeader`
unfoldable pub same_header : List String → List String → Bool
unfolding trim_space
same_header [] [] = true
same_header (g ∷ got) (w ∷ want) = (trim_space g == w) && same_header got want
same_header _ _ = false

pub data Bucket : Type 0 where
  accepted_bucket rejected_bucket duplicate_bucket : Bucket

-- `classifyOutcome`
unfoldable pub classify_outcome :
    {A : Type 0} → Result Error (A × Bool) → AuditOutcome × String × Bucket
classify_outcome (ok (_, true)) = (accepted, "ok", accepted_bucket)
classify_outcome (ok (_, false)) = (duplicate, "duplicate ref", duplicate_bucket)
classify_outcome (err e) =
    if is e not_found
    then (rejected, "account not found", rejected_bucket)
    else if is e insufficient_balance
    then (rejected, "insufficient balance", rejected_bucket)
    else (rejected, "rejected", rejected_bucket)

unfoldable pub parse_kind : String → Option Kind
parse_kind s = if s == "earn" then some earn else if s == "spend" then some spend else none

-- The check `points < 1`.
unfoldable pub at_least_one : Option ℤ → Option ℤ
at_least_one none = none
at_least_one (some points) = if ltb_ℤ points (pos 1) then none else some points

unfoldable pub parsed :
    String → String → Option Kind → Option ℤ → Option Time → Result String Transaction
parsed ref account_id none points at = err "invalid kind"
parsed ref account_id (some kind) none at = err "invalid points"
parsed ref account_id (some kind) (some points) none = err "invalid occurred_at"
parsed ref account_id (some kind) (some points) (some at) = ok (record {
  ref = ref;
  account_id = account_id;
  kind = kind;
  points = points;
  reward = "";
  occurred_at = at;
})

-- `parseRow`, with the reason of a rejection.
unfoldable pub parse_row : List String → Result String Transaction
unfolding parse_kind at_least_one parsed trim_space parse_int parse_time
parse_row (ref ∷ account_id ∷ kind ∷ points ∷ occurred_at ∷ []) =
    parsed ref account_id (parse_kind kind) (at_least_one (parse_int (trim_space points)))
      (parse_time (trim_space occurred_at))
parse_row _ = err "malformed row"

-- `refOf`, `acctOf` and `kindOf`
abbrev pub ref_of : List String → String
ref_of [] = ""
ref_of (ref ∷ _) = ref

abbrev pub acct_of : List String → String
acct_of (_ ∷ acct ∷ _) = acct
acct_of _ = ""

abbrev pub kind_of : List String → String
kind_of (_ ∷ _ ∷ kind ∷ _) = kind
kind_of _ = ""

-- The entry for a record that could not be parsed, for a parsed one, and for a broken line. The
-- store assigns id and created_at.
abbrev pub unparsed_entry : List String → String → AuditEntry
unparsed_entry rec reason = record {
  id = 0;
  ref = ref_of rec;
  account_id = acct_of rec;
  kind = kind_of rec;
  points = pos 0;
  outcome = rejected;
  reason = reason;
  created_at = zero_time;
}

abbrev pub attempt_entry : Transaction → AuditOutcome → String → AuditEntry
attempt_entry t outcome reason = record {
  id = 0;
  ref = t.ref;
  account_id = t.account_id;
  kind = kind_text t.kind;
  points = t.points;
  outcome = outcome;
  reason = reason;
  created_at = zero_time;
}

abbrev pub broken_entry : AuditEntry
broken_entry = unparsed_entry [] "malformed row"

abbrev pub no_rows_yet : BatchSummary
no_rows_yet = record { processed = 0; accepted = 0; rejected = 0; duplicates = 0 }

-- `sum.Processed++`, and the tally of a bucket.
abbrev pub count_row : BatchSummary → BatchSummary
count_row sum = record sum { processed = sum.processed + 1 }

abbrev pub tally : Bucket → BatchSummary → BatchSummary
tally accepted_bucket sum = record sum { accepted = sum.accepted + 1 }
tally rejected_bucket sum = record sum { rejected = sum.rejected + 1 }
tally duplicate_bucket sum = record sum { duplicates = sum.duplicates + 1 }

module _ {S : Type 0} (srv : Server S) where
  -- `recordAudit`, which ignores the result.
  unfoldable pub record_audit : AuditEntry → S → S
  unfolding record_attempt
  record_audit e s = (record_attempt srv.audit e s).1

  -- The switch on the parsed kind, which is earn or spend.
  unfoldable pub by_kind : Kind → Transaction → Call S (Transaction × Bool)
  unfolding record_earn record_spend
  by_kind earn t = record_earn srv.txns t
  by_kind _ t = record_spend srv.txns t

  unfoldable pub finish_row :
      Transaction → AuditOutcome × String × Bucket → BatchSummary × S → BatchSummary × S
  unfolding record_audit
  finish_row t (outcome, reason, bucket) (sum, s) =
      (tally bucket sum, record_audit (attempt_entry t outcome reason) s)

  unfoldable pub process_parsed :
      Result String Transaction → List String → BatchSummary × S → BatchSummary × S
  unfolding finish_row by_kind record_audit classify_outcome
  process_parsed (err reason) rec (sum, s) =
      (tally rejected_bucket sum, record_audit (unparsed_entry rec reason) s)
  process_parsed (ok t) rec (sum, s) =
      let (r, s') = by_kind t.kind t s in finish_row t (classify_outcome r) (sum, s')

  -- `processRow`
  unfoldable pub process_row : List String → BatchSummary × S → BatchSummary × S
  unfolding process_parsed parse_row
  process_row rec = process_parsed (parse_row rec) rec

  -- One round of the loop in `IngestBatch`.
  unfoldable pub process_line : Line → BatchSummary × S → BatchSummary × S
  unfolding process_row record_audit
  process_line broken (sum, s) =
      (tally rejected_bucket (count_row sum), record_audit broken_entry s)
  process_line (fields rec) (sum, s) = process_row rec (count_row sum, s)

  unfoldable pub process_lines : List Line → BatchSummary × S → BatchSummary × S
  unfolding process_line
  process_lines [] acc = acc
  process_lines (line ∷ lines) acc = process_lines lines (process_line line acc)

  module _ (ctx : Context) where
    unfoldable pub bad_header : Response
    unfolding write_error
    bad_header =
        write_error ctx.request_id 400 "invalid_input"
          "unreadable or unrecognised CSV header — expected ref,account_id,kind,points,occurred_at"

    unfoldable pub summarise : BatchSummary × S → Response × S
    summarise (sum, s) = (write_json 200 (summary sum), s)

    -- What is done with the file part; its first line has to be the header.
    unfoldable pub ingest_file : List Line → Web S
    unfolding bad_header summarise same_header process_lines
    ingest_file (fields header ∷ lines) s =
        if same_header header expected_header
        then summarise (process_lines lines (no_rows_yet, s))
        else (bad_header, s)
    ingest_file _ s = (bad_header, s)

    -- `IngestBatch`; none is a request with no file part.
    unfoldable pub ingest_batch : Option (List Line) → Web S
    unfolding ingest_file require_admin write_domain_error
    ingest_batch file =
        on_result (require_admin ctx.identity)
          (λ _. elim file [
            | none ↦
                reply
                  (write_error ctx.request_id 400 "invalid_input" "missing multipart 'file' part")
            | some lines ↦ ingest_file lines
          ])
          (λ e. reply (write_domain_error ctx.request_id e))
