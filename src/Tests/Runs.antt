-- ===== src/Tests/Runs.antt =====
-- Runs of several calls and submissions at concrete inputs.
use gowallet.Prelude.{
  true, ◌+◌, ◌≤◌, ◌≡◌, refl, List, [], ◌∷◌, arith, Bool-cases, inl, inr, ◌==◌, map, map_err, ◌<◌,
  String,
}
use gowallet.Prelude.Int.{int64_limit}
use gowallet.Wallet.{Transaction, sentinel}
use gowallet.Store.Db.{Stamp}
use gowallet.Store.Session.{World}
use gowallet.Store.Accounts.{to_error}
use gowallet.Store.Ledger.{record_transaction}
use gowallet.Store.Ledger.Calm.{calm}
use gowallet.Store.Totals.{earned, deducted, earned_by, deducted_by}
use gowallet.Store.Book.{book_of}
use gowallet.Store.Book.Runs.{record_all, submit_all, submitted, record_all-refines}
use gowallet.Store.Schedule.{Event, answered, quiet, Run, done, step, recording, waiting}
use gowallet.Store.Schedule.Once.{creations, is_stored, created_once}
use gowallet.Store.Schedule.Sums.{acknowledged, acknowledged_counted}
use gowallet.System.Ingest.{Matches, process_lines-Matches}
use gowallet.System.Invariant.{migrated-IsValid}
use gowallet.System.Reupload.{process_lines_again}
use gowallet.Store.Invariant.{IsValid}
use gowallet.Store.Schedule.Validity.{Run-IsValid}
use gowallet.Http.Response.{BatchSummary}
use gowallet.Http.Batch.{Line, fields, broken, process_lines, no_rows_yet}
use gowallet.Tests.Outside.{test_driver}
use gowallet.Tests.Data.{
  env, srv, start_world, june, an_earn, a_spend, a_clash, earned_db, earned_db-IsValid,
}

-- An earn is recorded, then a submission with the same ref while the driver fails, and then again.
abbrev w1 : World
w1 = (record_transaction (to_error test_driver) an_earn start_world).1

abbrev w2 : World
w2 = record w1 { now = june + 60; faults = true ∷ [] }

abbrev w3 : World
w3 = (record_transaction (to_error test_driver) a_clash w2).1

abbrev w4 : World
w4 = (record_transaction (to_error test_driver) a_clash w3).1

abbrev events : List Event
events =
    answered an_earn (record_transaction (to_error test_driver) an_earn start_world).0
    ∷ quiet
    ∷ answered a_clash (record_transaction (to_error test_driver) a_clash w2).0
    ∷ answered a_clash (record_transaction (to_error test_driver) a_clash w3).0
    ∷ []

abbrev a_run : Run test_driver start_world events w4
a_run = step (recording start_world an_earn) (
    step (waiting w1 (june + 60) (true ∷ []))
      (step (recording w2 a_clash) (step (recording w3 a_clash) (done w4))))

created_once_example :
    creations "e-1" events + is_stored "e-1" start_world.db ≡ is_stored "e-1" w4.db
created_once_example = created_once test_driver "e-1" a_run

acknowledged_counted_example :
    (earned "member-123" w4.db.transactions
      ≡ earned "member-123" start_world.db.transactions
        + acknowledged earned_by "member-123" events)
    × (deducted "member-123" w4.db.transactions
        ≡ deducted "member-123" start_world.db.transactions
          + acknowledged deducted_by "member-123" events)
acknowledged_counted_example = acknowledged_counted test_driver "member-123" a_run

abbrev a_file : List Line
a_file = broken ∷ fields ("e-1" ∷ "member-123" ∷ "earn" ∷ "25" ∷ "2024-06-01T10:00:00Z" ∷ []) ∷ []

process_lines-Matches_example :
    Matches earned_db
      (process_lines srv a_file (no_rows_yet, calm earned_db june)).0
      (process_lines srv a_file (no_rows_yet, calm earned_db june)).1
process_lines-Matches_example = process_lines-Matches env a_file earned_db june

abbrev submissions : List (Stamp × Transaction)
submissions = (june, a_spend) ∷ (june, a_clash) ∷ (june, a_spend) ∷ []

submissions_small :
    (id : String) → earned id earned_db.transactions + submitted submissions < int64_limit
submissions_small id = elim (Bool-cases ("member-123" == id)) [
  | inl mine ↦ rw mine (omega arith)
  | inr other_account ↦ rw other_account (omega arith)
]

record_all-refines_example :
    ((record_all (to_error test_driver) submissions earned_db).0
      ≡ map (map_err sentinel) (submit_all submissions (book_of earned_db)).0)
    × (book_of (record_all (to_error test_driver) submissions earned_db).1
        ≡ (submit_all submissions (book_of earned_db)).1)
record_all-refines_example =
    record_all-refines (to_error test_driver) submissions earned_db earned_db-IsValid
      ((refl, omega arith), ((refl, omega arith), ((refl, omega arith), tt))) submissions_small

Run-IsValid_example : IsValid w4.db
Run-IsValid_example = Run-IsValid test_driver a_run (migrated-IsValid june)

process_lines_again_example :
    let (first, w) = process_lines srv a_file (no_rows_yet, calm earned_db june) in
    let second : BatchSummary = (process_lines srv a_file (no_rows_yet, calm w.db (june + 60))).0 in
    (first.accepted + first.duplicates ≤ second.duplicates) × (second.accepted ≤ first.rejected)
process_lines_again_example = process_lines_again env a_file earned_db june (june + 60)
