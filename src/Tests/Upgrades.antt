-- ===== src/Tests/Upgrades.antt =====
-- A migration runner, and the upgrade of a concrete older database.
use gowallet.Prelude.{
  if◌then◌else◌, true, ◌+◌, ◌≡◌, refl, Option, none, some, List, [], ◌∷◌, Result, ok, err, arith,
  inl, inr, Bool-cases, ◌==◌,
}
use gowallet.Prelude.Int.{pos}
use gowallet.Wallet.{earn, spend}
use gowallet.Store.Db.{Db, Stamp, migrated}
use gowallet.Store.Queries.{SqlError, transaction_row}
use gowallet.Store.Accounts.{to_error}
use gowallet.Store.Invariant.{IsValid, IsSolvent}
use gowallet.Store.Migrations.{
  FirstAccount, FirstTransaction, AuditedTables, CredentialTables, Disk, blank, initial, s1, s4, s6,
  s8, s1_up, s4_up, s6_up, s8_up, pending, Goose, migrate,
}
use gowallet.Store.Migrations.Upgrade.{
  Upgraded, as_latest, has_demo_id, migrate_upgrades, migrate_fresh,
}
use gowallet.Tests.Outside.{test_driver}
use gowallet.Tests.Serving.{session}
use gowallet.Tests.Data.{env, june}
use gowallet.System.Startup.{run, panicked, IsSafe, run-IsSafe}
use gowallet.Http.Validator.{OpenApi, new_validator}

abbrev applied :
    {A : Type 0} → Disk → Result SqlError A → (A → Option SqlError × Disk) → Option SqlError × Disk
applied d (err e) next = (some e, d)
applied d (ok a) next = next a

abbrev from_s6 : CredentialTables → Option SqlError × Disk
from_s6 t = applied (s6 t) (s8_up t) (λ db. (none, s8 db))

abbrev from_s4 : Stamp → AuditedTables → Option SqlError × Disk
from_s4 now t = applied (s4 t) (s6_up now t) from_s6

abbrev up_from : Stamp → Disk → Option SqlError × Disk
up_from now blank = from_s4 now (s4_up s1_up)
up_from now initial = from_s4 now (s4_up s1_up)
up_from now (s1 t) = from_s4 now (s4_up t)
up_from now (s4 t) = from_s4 now t
up_from now (s6 t) = from_s6 t
up_from now (s8 db) = (none, s8 db)

up_from-done : (now : Stamp) (d : Disk) → pending now d ≡ none → up_from now d ≡ (none, d)
unfolding pending
up_from-done now blank h = ground arith
up_from-done now initial h = ground arith
up_from-done now (s1 t) h = ground arith
up_from-done now (s4 t) h = ground arith
up_from-done now (s6 t) h = ground arith
up_from-done now (s8 db) h = refl

up_from-next :
    (now : Stamp) (d d' : Disk) → pending now d ≡ some (ok d') → up_from now d ≡ up_from now d'
unfolding pending
up_from-next now blank d' h = ground arith
up_from-next now initial d' h = ground arith
up_from-next now (s1 t) d' h = ground arith
up_from-next now (s4 t) d' h = ground arith
up_from-next now (s6 t) d' h = ground arith
up_from-next now (s8 db) d' h = ground arith

up_from-fails :
    (now : Stamp) (d : Disk) (e : SqlError)
    → pending now d ≡ some (err e)
    → up_from now d ≡ (some e, d)
unfolding pending
up_from-fails now blank e h = ground arith
up_from-fails now initial e h = ground arith
up_from-fails now (s1 t) e h = ground arith
up_from-fails now (s4 t) e h = ground arith
up_from-fails now (s6 t) e h = ground arith
up_from-fails now (s8 db) e h = ground arith

abbrev test_goose : (now : Stamp) → Goose now
test_goose now = record {
  up = up_from now;
  up-done = up_from-done now;
  up-next = up_from-next now;
  up-fails = up_from-fails now;
}

abbrev first_account : FirstAccount
first_account = record { account_id = "alice"; name = "Alice"; created_at = june }

abbrev first_rows : List FirstTransaction
first_rows =
    record {
      id = 4;
      ref = "s-1";
      account_id = "alice";
      kind = spend;
      points = pos 30;
      occurred_at = june;
      created_at = june;
    }
    ∷ record {
      id = 1;
      ref = "e-1";
      account_id = "alice";
      kind = earn;
      points = pos 100;
      occurred_at = june;
      created_at = june;
    }
    ∷ []

abbrev older : AuditedTables
older = record {
  ledger = record { accounts = first_account ∷ []; transactions = first_rows; transaction_seq = 6 };
  audit_log = [];
  audit_seq = 0;
}

older-IsSolvent : IsSolvent (as_latest older).transactions
older-IsSolvent id = elim (Bool-cases ("alice" == id)) [
  | inl mine ↦ rw mine (omega arith)
  | inr other_account ↦ rw other_account (omega arith)
]

older-IsValid : IsValid (as_latest older)
unfolding transaction_row
older-IsValid = record {
  legal = (
    record { allowed = refl; positive = omega arith; known = refl },
    (record { allowed = refl; positive = omega arith; known = refl }, tt),
  );
  known_roles = (refl, tt);
  distinct_refs = (refl, (refl, tt));
  falling_ids = (omega arith, (omega arith, tt));
  known_outcomes = tt;
  falling_audit = tt;
  solvent = older-IsSolvent;
}

migrate_upgrades_example :
    Upgraded
      (to_error test_driver)
      june
      older
      (has_demo_id older)
      (migrate (to_error test_driver) (test_goose june) (s4 older))
migrate_upgrades_example =
    migrate_upgrades (to_error test_driver) june (test_goose june) older older-IsValid

migrate_fresh_example :
    (migrate (to_error test_driver) (test_goose june) blank ≡ (ok tt, s8 (migrated june)))
    × ((db : Db) → migrate (to_error test_driver) (test_goose (june + 60)) (s8 db) ≡ (ok tt, s8 db))
migrate_fresh_example =
    migrate_fresh (to_error test_driver) june (june + 60) (test_goose june) (test_goose (june + 60))

-- A contract loads and is valid if it is this line.
abbrev one_contract : OpenApi
one_contract = record {
  load = λ yaml. ok yaml;
  validate =
      λ doc. if doc == "openapi: 3.0.3" then none else some "value of openapi must be a version";
}

run-IsSafe_example :
    IsSafe one_contract session
      (june + 60)
      (true ∷ [])
      "alice"
      (ok env.spec_yaml)
      (run one_contract test_driver (test_goose june) (s4 older) (ok env.spec_yaml) env)
run-IsSafe_example =
    run-IsSafe one_contract test_driver june (june + 60) (test_goose june) (s4 older)
      (ok env.spec_yaml) env session (true ∷ []) "alice" older-IsValid

-- A contract that is not valid stops the program with a panic.
broken_contract_panics :
    (run one_contract test_driver (test_goose june) (s8 (migrated june)) (ok "openapi: 2") env).0
    ≡ err (panicked "httpapi: load spec for validation: value of openapi must be a version")
unfolding run migrate new_validator
broken_contract_panics = refl
