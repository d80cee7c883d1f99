-- ===== src/Http/Keeps/Ingest.antt =====
-- CSV ingestion keeps what the repository calls keep, row by row.
use gowallet.Prelude.{
  String, Option, none, some, List, [], ◌∷◌, Result, ok, err, Bool-cases, inl, inr,
}
use gowallet.Wallet.{Transaction, Kind, earn, AuditEntry}
use gowallet.Wallet.Keeps.{KeepsCall, record_earn-keeps, record_spend-keeps, record_attempt-keeps}
use gowallet.Http.Server.{Server, Context}
use gowallet.Http.Batch.{
  Line, fields, broken, by_kind, record_audit, finish_row, process_parsed, process_line,
  process_lines, ingest_file, ingest_batch, parse_row, same_header, expected_header, unparsed_entry,
  broken_entry,
}
use gowallet.Http.Response.{BatchSummary}
use gowallet.Http.Keeps.Rules.{KeepsWeb, KeepsRepositories, web_rules}

module _ {S : Type 0} (P : S → Type 0) (srv : Server S) (keeps : KeepsRepositories P srv) where
  record_audit-keeps : (e : AuditEntry) (s : S) → P s → P (record_audit srv e s)
  unfolding record_audit
  record_audit-keeps e s h = (record_attempt-keeps P srv.audit e (keeps.append_audit e)).at s h

  by_kind-keeps : (k : Kind) (t : Transaction) → KeepsCall P (by_kind srv k t)
  unfolding by_kind
  by_kind-keeps earn t = record_earn-keeps P srv.txns keeps.record_transaction t
  by_kind-keeps _ t = record_spend-keeps P srv.txns keeps.record_transaction t

  process_parsed-keeps :
      (r : Result String Transaction) (rec : List String) (sum : BatchSummary) (s : S)
      → P s
      → P (process_parsed srv r rec (sum, s)).1
  unfolding process_parsed finish_row
  process_parsed-keeps (err reason) rec sum s h = record_audit-keeps (unparsed_entry rec reason) s h
  process_parsed-keeps (ok t) rec sum s h =
      let (r, s') = by_kind srv t.kind t s in
      record_audit-keeps _ s' ((by_kind-keeps t.kind t).at s h)

  process_line-keeps :
      (line : Line) (sum : BatchSummary) (s : S) → P s → P (process_line srv line (sum, s)).1
  unfolding process_line
  process_line-keeps broken sum s h = record_audit-keeps broken_entry s h
  process_line-keeps (fields rec) sum s h = process_parsed-keeps (parse_row rec) rec _ s h

  process_lines-keeps :
      (lines : List Line) (sum : BatchSummary) (s : S)
      → P s
      → P (process_lines srv lines (sum, s)).1
  unfolding process_lines
  process_lines-keeps [] sum s h = h
  process_lines-keeps (line ∷ lines) sum s h =
      let (sum', s') = process_line srv line (sum, s) in
      process_lines-keeps lines sum' s' (process_line-keeps line sum s h)

  ingest_file-keeps : (ctx : Context) (lines : List Line) → KeepsWeb P (ingest_file srv ctx lines)
  unfolding ingest_file
  ingest_file-keeps ctx [] = record { at = λ s h. h }
  ingest_file-keeps ctx (broken ∷ lines) = record { at = λ s h. h }
  ingest_file-keeps ctx (fields header ∷ lines) = record {
    at = λ s h. elim (Bool-cases (same_header header expected_header)) [
      | inl same ↦ rw same (process_lines-keeps lines _ s h)
      | inr other_header ↦ rw other_header h
    ];
  }

  -- The body of `ingest_batch` after its access check.
  pub ingest_batch-keeps :
      (ctx : Context) (file : Option (List Line)) → KeepsWeb P (ingest_batch srv ctx file)
  unfolding ingest_batch
  ingest_batch-keeps ctx none = search web_rules
  ingest_batch-keeps ctx (some lines) = search (web_rules, ingest_file-keeps)
