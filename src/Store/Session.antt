-- ===== src/Store/Session.antt =====
-- How internal/sqlitestore talks to its one connection: calls that may fail at any time, and
-- `BeginTx` … `Commit` with the deferred `Rollback`.
pub mod Steps
use gowallet.Prelude.{
  String, List, [], ◌∷◌, Bool, true, false, Result, ok, err, Action, fail, continue, handle,
}
use gowallet.Wallet.{Error, wrap}
use gowallet.Store.Db.{Db, Stamp}
use gowallet.Store.Queries.{SqlError, failed, io, Read, Write}

-- The database, the time of its clock, and what befalls the coming driver calls: `true` is a call
-- that fails before it has done anything. After the list every call goes through.
pub record World : Type 0 where
  pub db : Db
  pub now : Stamp
  pub faults : List Bool

-- One call of the driver.
abbrev pub outcome_of : List Bool → World → Result SqlError (Unit {0}) × World
outcome_of [] w = (ok tt, w)
outcome_of (false ∷ later) w = (ok tt, record w { faults = later })
outcome_of (true ∷ later) w = (err (failed io), record w { faults = later })

unfoldable pub driver_call : Action World SqlError (Unit {0})
driver_call w = outcome_of w.faults w

abbrev pub with_db : {A : Type 0} → World → Result SqlError (A × Db) → Result SqlError A × World
with_db w (ok (a, db)) = (ok a, record w { db = db })
with_db w (err e) = (err e, w)

-- A statement that only reads.
unfoldable pub read : {A : Type 0} → Read A → Action World SqlError A
unfolding driver_call
read q = handle driver_call (λ _ w. (q w.db, w)) fail

-- A statement that may write. Outside a transaction it commits by itself.
unfoldable pub write : {A : Type 0} → Write A → Action World SqlError A
unfolding driver_call
write q = handle driver_call (λ _ w. with_db w (q w.db)) fail

-- `if err != nil { return …, fmt.Errorf("context: %w", err) }`
unfoldable pub wrapping :
    {A : Type 0} → (SqlError → Error) → String → Action World SqlError A → Action World Error A
wrapping to_error context m = handle m (λ a w. (ok a, w)) (λ e. fail (wrap context (to_error e)))

-- What `Commit` and the deferred `Rollback` leave: the writes of the body last only when it was
-- committed. `before` is the database at `BeginTx`.
abbrev pub settle : {A : Type 0} → Db → Result Error A × World → Result Error A × World
settle before (ok a, w) = (ok a, w)
settle before (err e, w) = (err e, record w { db = before })

-- `BeginTx`, a body that ends with `Commit`, and the deferred `Rollback`. The store has one
-- connection (`SetMaxOpenConns(1)`), so nothing else runs in between.
unfoldable pub in_tx :
    {A : Type 0} → (SqlError → Error) → Action World Error A → Action World Error A
unfolding wrapping driver_call
in_tx to_error body w =
    let (begun, w') = wrapping to_error "begin tx" driver_call w in
    settle w.db (continue (λ _. body) fail begun w')
