-- ===== src/System/Startup.antt =====
-- `run` of cmd/gowallet/main.go up to ListenAndServe: open the file, migrate it, read the contract,
-- and serve.
use gowallet.Prelude.{
  true, false, inl, inr, ◌⊎◌, ◌==◌, if◌then◌else◌, Bool-cases, String, Bool, ◌≡◌, refl, ◌≤◌, Option,
  none, some, List, Result, ok, err,
}
use gowallet.Wallet.{Error}
use Prim.Native.String.{◌++◌}
use gowallet.Http.Validator
use gowallet.Http.Validator.{OpenApi, new_validator, new_validator_cases, IsBroken}
use gowallet.Store.Invariant.{IsValid}
use gowallet.Store.Db.{Stamp, Db}
use gowallet.Store.Queries.{SqlError}
use gowallet.Store.Session.{World}
use gowallet.Store.Accounts.{to_error}
use gowallet.Store.Totals.{earned, deducted}
use gowallet.Store.Driver.{Driver}
use gowallet.Store.Migrations.{Disk, blank, initial, s1, s4, s6, s8, Goose, migrate, migrate_result}
use gowallet.Store.Migrations.Ready.{IsSound, Reached, up-Reached}
use gowallet.Store.Migrations.Upgrade.{has_demo_id}
use gowallet.Http.Server.{Context}
use gowallet.Http.Router.{Request}
use gowallet.System.{Environment, serve_all}
use gowallet.System.Invariant.{serve_all-IsValid}

-- Why the program does not serve: `run` returns an error, or `NewRouter` panics.
pub data Stop : Type 0 where
  returned : Error → Stop
  panicked : String → Stop

abbrev pub after_router : Environment → Result String (Unit {0}) → Result Stop Environment
after_router env (ok _) = ok env
after_router env (err text) = err (panicked ("httpapi: load spec for validation: " ++ text))

module _ (openapi : OpenApi) where
  -- After `Migrate`: the contract is read, and the router is built from it, with a validator unless
  -- the contract is empty.
  abbrev pub after_migrate :
      Result Error (Unit {0}) × Disk
      → Result Error String
      → Environment
      → Result Stop Environment × Disk
  after_migrate (err e, disk) spec deps = (err (returned e), disk)
  after_migrate (ok _, disk) (err e) deps = (err (returned e), disk)
  after_migrate (ok _, disk) (ok yaml) deps = (
    if yaml == ""
        then ok (record deps { spec_yaml = yaml })
        else after_router (record deps { spec_yaml = yaml }) (new_validator openapi yaml),
    disk,
  )

  -- `run`, given the opened file, what reading the contract gives, and the rest of `Deps`.
  unfoldable pub run :
      {now : Stamp}
      → Driver
      → Goose now
      → Disk
      → Result Error String
      → Environment
      → Result Stop Environment × Disk
  unfolding migrate
  run driver goose disk spec deps = after_migrate (migrate (to_error driver) goose disk) spec deps

-- The contract is read and not empty, but kin-openapi cannot load it or finds fault with it, which is
-- what the panic says.
abbrev pub IsBrokenContract : OpenApi → Result Error String → String → Type 0
IsBrokenContract openapi spec panic =
    (yaml : String) × (text : String) × (spec ≡ ok yaml)
    × ((yaml == "") ≡ false)
    × IsBroken openapi yaml text
    × (panic ≡ "httpapi: load spec for validation: " ++ text)

-- The contract of a started program is the one that was read, and it is empty or sound.
abbrev pub IsServed : OpenApi → Result Error String → Environment → Type 0
IsServed openapi spec env =
    (spec ≡ ok env.spec_yaml)
    × (((env.spec_yaml == "") ≡ true) ⊎ Validator.IsSound openapi env.spec_yaml)

module _ (openapi : OpenApi) (requests : List (Request × Context)) (now : Stamp)
    (faults : List Bool) (id : String) where
  -- Why the program does not start, and what the requests to a started one leave of an account.
  abbrev pub IsSafe : Result Error String → Result Stop Environment × Disk → Type 0
  IsSafe spec (err (returned e), s8 db) = spec ≡ err e
  IsSafe spec (err (panicked text), s8 db) = IsBrokenContract openapi spec text
  IsSafe spec (err (returned e), s4 t) = has_demo_id t ≡ true
  IsSafe spec (ok env, s8 db) =
      let w : World = serve_all env requests (record { db = db; now = now; faults = faults }) in
      IsServed openapi spec env × (deducted id w.db.transactions ≤ earned id w.db.transactions)
  IsSafe spec _ = ⊥

  routed-IsSafe :
      (db : Db) (yaml : String) (deps : Environment)
      → IsValid db
      → IsSafe (ok yaml) (after_migrate openapi (ok tt, s8 db) (ok yaml) deps)
  routed-IsSafe db yaml deps h = elim (Bool-cases (yaml == "")) [
    | inl empty ↦ rw empty (
      (refl, inl empty),
      (serve_all-IsValid (record deps { spec_yaml = yaml }) requests _ h).solvent id,
    )
    | inr filled ↦ elim (new_validator_cases openapi yaml) [
      | inl (valid, sound) ↦
          rw (filled, valid)
            (
              (refl, inr sound),
              (serve_all-IsValid (record deps { spec_yaml = yaml }) requests _ h).solvent id,
            )
      | inr (text, broken, why) ↦ rw (filled, broken) (yaml, text, refl, filled, why, refl)
    ]
  ]

  started-IsSafe :
      (driver : Driver) (out : Option SqlError) (disk : Disk) (spec : Result Error String)
      (deps : Environment)
      → Reached (out, disk)
      → IsSafe spec (after_migrate openapi (migrate_result (to_error driver) out, disk) spec deps)
  started-IsSafe driver (some e) (s4 t) spec deps h = h.1
  started-IsSafe driver none (s8 db) (err e) deps h = refl
  started-IsSafe driver none (s8 db) (ok yaml) deps h = routed-IsSafe db yaml deps h
  started-IsSafe driver none blank spec deps h = elim h [ ]
  started-IsSafe driver none initial spec deps h = elim h [ ]
  started-IsSafe driver none (s1 t) spec deps h = elim h [ ]
  started-IsSafe driver none (s4 t) spec deps h = elim h [ ]
  started-IsSafe driver none (s6 t) spec deps h = elim h [ ]
  started-IsSafe driver (some e) blank spec deps h = elim h [ ]
  started-IsSafe driver (some e) initial spec deps h = elim h [ ]
  started-IsSafe driver (some e) (s1 t) spec deps h = elim h [ ]
  started-IsSafe driver (some e) (s6 t) spec deps h = elim h [ ]
  started-IsSafe driver (some e) (s8 db) spec deps h = elim h [ ]

-- Whatever version a valid database file has, a new file included, and while no driver call fails in
-- the migration: the program starts with the file at the last schema, unless an account of a file that
-- stays at S4 has the id of a demo account, the contract cannot be read, or a contract that is not
-- empty does not load or is not valid. A started program serves the contract that was read. After any
-- sequence of requests to it, whatever driver calls fail in them, no account has spent and redeemed
-- more points than it has earned.
pub run-IsSafe :
    (openapi : OpenApi) (driver : Driver) (start now : Stamp) (goose : Goose start) (disk : Disk)
    (spec : Result Error String) (deps : Environment) (requests : List (Request × Context))
    (faults : List Bool) (id : String)
    → IsSound disk
    → IsSafe openapi requests now faults id spec (run openapi driver goose disk spec deps)
unfolding run migrate
run-IsSafe openapi driver start now goose disk spec deps requests faults id sound =
    started-IsSafe openapi requests now faults id driver (goose.up disk).0 (goose.up disk).1 spec
      deps (up-Reached start goose disk sound)
