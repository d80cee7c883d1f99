-- ===== src/Tests/Storage.antt =====
-- The theorems on the ledger and the listings at concrete inputs.
use gowallet.Prelude.{
  List, ◌≡◌, refl, some, none, [], ◌∷◌, true, false, ok, err, arith, ◌+◌, if◌then◌else◌, leb,
}
use gowallet.Prelude.Int.{◌+ℤ◌, neg_ℤ, pos}
use gowallet.Wallet.{
  Transaction, AuditEntry, accepted, rejected, sentinel, insufficient_balance, wrap, external,
}
use gowallet.Store.Db.{Db, TransactionRow, AuditRow}
use gowallet.Store.Invariant.{IsValid}
use gowallet.Store.Listing.Audit as AuditListing
use gowallet.Store.Audit.{list_audit}
use gowallet.Store.Listing.Audit.{list_audit-newest_first}
use gowallet.Store.Queries.{
  balance_for_account, account_exists, insert_transaction, get_transaction_by_ref, sum_points,
  transaction_row, add_row, integer_overflow,
}
use gowallet.Store.Session.{World, read, write}
use gowallet.Store.Accounts.{to_error, balance, list_transactions, list_accounts}
use gowallet.Store.Ledger.{record_transaction, stored_of}
use gowallet.Store.Ledger.Outcome.{Recorded, row_of, record_transaction-Recorded}
use gowallet.Store.Ledger.Calm.{calm, is_known}
use gowallet.Store.Ledger.Exact.{record_deduction_exact}
use gowallet.Store.Schedule.{done, step, recording, waiting}
use gowallet.Store.Schedule.First.{first_writer_wins}
use gowallet.Store.Totals.{earned, deducted}
use gowallet.Store.Balance.{balance-exact, earn-overflow}
use gowallet.Store.Listing.{Listed, IsListing, list_accounts-Listed, list_transactions-newest_first}
use gowallet.Tests.Outside.{test_driver}
use gowallet.Tests.Data.{
  start, start_world, june, an_earn, a_spend, a_clash, earn_row, earned_db, earned_db-IsValid,
}

-- A spend whose second driver call, the account's look-up, goes through, and whose insertion fails.
abbrev faulty_world : World
faulty_world = record { db = earned_db; now = june; faults = false ∷ false ∷ true ∷ [] }

record_transaction-Recorded_example :
    Recorded a_spend faulty_world (record_transaction (to_error test_driver) a_spend faulty_world)
record_transaction-Recorded_example =
    record_transaction-Recorded (to_error test_driver) a_spend faulty_world

record_deduction_exact_example :
    record_transaction (to_error test_driver) a_spend (calm earned_db june) ≡ (
      if leb
        (deducted "member-123" earned_db.transactions + 30)
        (earned "member-123" earned_db.transactions)
      then (
        ok (stored_of (row_of a_spend june earned_db), true),
        calm (add_row (row_of a_spend june earned_db) earned_db) june,
      )
      else (err (sentinel insufficient_balance), calm earned_db june))
unfolding transaction_row
record_deduction_exact_example =
    record_deduction_exact (to_error test_driver) a_spend earned_db june earned_db-IsValid refl refl
      (omega arith) (omega arith) refl (omega arith)

balance-exact_example :
    balance test_driver "member-123" (calm earned_db june) ≡ (ok (pos 100), calm earned_db june)
balance-exact_example =
    balance-exact test_driver "member-123" earned_db june earned_db-IsValid refl (omega arith)

earn_created :
    record_transaction (to_error test_driver) an_earn start_world
    ≡ (ok (stored_of earn_row, true), calm earned_db june)
unfolding record_transaction read write account_exists insert_transaction get_transaction_by_ref
earn_created = refl

-- The demo member spends, and time passes.
abbrev spent_world : World
spent_world = (record_transaction (to_error test_driver) a_spend (calm earned_db june)).1

abbrev later_world : World
later_world = record spent_world { now = june + 60; faults = true ∷ [] }

clash_known : is_known a_clash.account_id later_world.db ≡ true
unfolding record_transaction read write account_exists insert_transaction get_transaction_by_ref
    balance_for_account sum_points ◌+ℤ◌ neg_ℤ
clash_known = refl

first_writer_wins_example :
    record_transaction (to_error test_driver) a_clash (calm later_world.db (june + 90))
    ≡ (ok (stored_of earn_row, false), calm later_world.db (june + 90))
first_writer_wins_example =
    first_writer_wins test_driver an_earn a_clash (stored_of earn_row) start_world
      (calm earned_db june) later_world (june + 90) earn_created
      (step (recording (calm earned_db june) a_spend)
        (step (waiting spent_world (june + 60) (true ∷ [])) (done later_world)))
      refl clash_known refl (omega arith)

-- A balance that one more point takes to 2^63.
abbrev full_row : TransactionRow
full_row = record earn_row { ref = "e-0"; points = pos 9_223_372_036_854_775_807 }

abbrev full_db : Db
full_db = record start { transactions = full_row ∷ []; transaction_seq = 1 }

full_sum : sum_points "member-123" (full_row ∷ []) ≡ some (pos 9_223_372_036_854_775_807)
unfolding sum_points ◌+ℤ◌
full_sum = refl

full_fresh : transaction_row "e-1" (full_row ∷ []) ≡ none
unfolding transaction_row
full_fresh = refl

earn-overflow_example :
    (record_transaction (to_error test_driver) an_earn (calm full_db june) ≡ (
      ok (stored_of (row_of an_earn june full_db), true),
      calm (add_row (row_of an_earn june full_db) full_db) june,
    ))
    × (balance test_driver "member-123" (calm (add_row (row_of an_earn june full_db) full_db) june)
        ≡ (
          err (wrap "balance" (external (test_driver.text integer_overflow))),
          calm (add_row (row_of an_earn june full_db) full_db) june,
        ))
earn-overflow_example =
    earn-overflow test_driver an_earn full_db june 9_223_372_036_854_775_807 100 refl refl refl
      (omega arith) full_fresh full_sum (omega arith)

list_transactions-newest_first_example :
    (out : List Transaction) × (list_transactions test_driver "member-123" (calm earned_db june)
      ≡ (ok out, calm earned_db june))
    × IsListing "member-123" (earn_row ∷ []) out
list_transactions-newest_first_example =
    list_transactions-newest_first test_driver "member-123" earned_db june earned_db-IsValid refl

list_accounts-Listed_example :
    Listed test_driver (calm earned_db june) (list_accounts test_driver (calm earned_db june))
list_accounts-Listed_example = list_accounts-Listed test_driver (calm earned_db june)

-- An attempt of an unknown account, and one of the demo member.
abbrev stranger_row : AuditRow
stranger_row = record {
  id = 1;
  ref = "e-0";
  account_id = "nobody";
  kind = "earn";
  points = pos 5;
  outcome = rejected;
  reason = "account not found";
  created_at = june;
}

abbrev member_row : AuditRow
member_row = record stranger_row {
  id = 2;
  account_id = "member-123";
  outcome = accepted;
  reason = "ok";
}

abbrev audited_db : Db
audited_db = record earned_db { audit_log = member_row ∷ stranger_row ∷ []; audit_seq = 2 }

audited_db-IsValid : IsValid audited_db
audited_db-IsValid = record {
  legal = earned_db-IsValid.legal;
  known_roles = earned_db-IsValid.known_roles;
  distinct_refs = earned_db-IsValid.distinct_refs;
  falling_ids = earned_db-IsValid.falling_ids;
  known_outcomes = (refl, (refl, tt));
  falling_audit = (omega arith, (omega arith, tt));
  solvent = earned_db-IsValid.solvent;
}

list_audit-newest_first_example :
    (out : List AuditEntry) × (list_audit (to_error test_driver) "nobody" (calm audited_db june)
      ≡ (ok out, calm audited_db june))
    × AuditListing.IsListing (stranger_row ∷ []) out
list_audit-newest_first_example =
    list_audit-newest_first (to_error test_driver) "nobody" audited_db june audited_db-IsValid
