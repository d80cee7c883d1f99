-- ===== src/Store/Session/Steps.antt =====
-- One rule for each kind of call: what has to be shown of the rest of the code for a property of the
-- whole to hold, whatever calls of the driver fail.
use gowallet.Prelude.{
  String, ◌≡◌, refl, ◌⊎◌, inl, inr, List, [], ◌∷◌, Bool, true, false, Result, ok, err, Result-cases,
  ◌>>=◌,
}
use gowallet.Wallet.{Error, Call}
use gowallet.Store.Queries.{SqlError, Read, Write}
use gowallet.Store.Session.{World, outcome_of, driver_call, read, write, wrapping}

-- A world in which some calls more have been made, and nothing else has changed.
pub record SameData (w w' : World) : Type 0 where
  pub db : w'.db ≡ w.db
  pub now : w'.now ≡ w.now

abbrev Called : World → Result SqlError (Unit {0}) × World → Type 0
Called w r =
    ((w' : World) × (r ≡ (ok tt, w')) × SameData w w')
    ⊎ ((e : SqlError) × (w' : World) × (r ≡ (err e, w')) × SameData w w')

outcome_of_cases : (faults : List Bool) (w : World) → Called w (outcome_of faults w)
outcome_of_cases [] w = inl (w, refl, record { db = refl; now = refl })
outcome_of_cases (false ∷ later) w =
    inl (record w { faults = later }, refl, record { db = refl; now = refl })
outcome_of_cases (true ∷ later) w =
    inr (_, record w { faults = later }, refl, record { db = refl; now = refl })

pub driver_call_cases : (w : World) → Called w (driver_call w)
unfolding driver_call
driver_call_cases w = outcome_of_cases w.faults w

module _ {A B : Type 0} (to_error : SqlError → Error) (context : String) (f : A → Call World B)
    (Q : Result Error B × World → Type 0) where
  -- A call that only reads leaves the database alone, and goes on with what the query finds.
  pub read_then :
      (q : Read A) (w : World)
      → ((e : Error) (w' : World) → w'.db ≡ w.db → Q (err e, w'))
      → ((a : A) (w' : World) → q w.db ≡ ok a → SameData w w' → Q (f a w'))
      → Q ((wrapping to_error context (read q) >>= f) w)
  unfolding wrapping read
  read_then q w on_error on_value = elim (driver_call_cases w) [
    | inr (e, w', called, same) ↦ rw called (on_error _ w' same.db)
    | inl (w', called, same) ↦ elim (Result-cases (q w'.db)) [
      | inl (a, found) ↦ rw (called, found) (on_value a w' (rw (← same.db) found) same)
      | inr (e, none_found) ↦ rw (called, none_found) (on_error _ w' same.db)
    ]
  ]

  -- A statement that writes leaves the database as the statement says, or alone when it fails.
  pub write_then :
      (q : Write A) (w : World)
      → ((e : Error) (w' : World) → w'.db ≡ w.db → Q (err e, w'))
      → ((a : A) (w' : World) → q w.db ≡ ok (a, w'.db) → w'.now ≡ w.now → Q (f a w'))
      → Q ((wrapping to_error context (write q) >>= f) w)
  unfolding wrapping write
  write_then q w on_error on_value = elim (driver_call_cases w) [
    | inr (e, w', called, same) ↦ rw called (on_error _ w' same.db)
    | inl (w', called, same) ↦ elim (Result-cases (q w'.db)) [
      | inl ((a, db), done) ↦
          rw (called, done) (on_value a (record w' { db = db }) (rw (← same.db) done) same.now)
      | inr (e, refused) ↦ rw (called, refused) (on_error _ w' same.db)
    ]
  ]

module _ {B : Type 0} (to_error : SqlError → Error) (context : String) (f : Unit {0} → Call World B)
    (Q : Result Error B × World → Type 0) where
  -- A call of the driver that only may fail.
  pub call_then :
      (w : World)
      → ((e : Error) (w' : World) → w'.db ≡ w.db → Q (err e, w'))
      → ((w' : World) → SameData w w' → Q (f tt w'))
      → Q ((wrapping to_error context driver_call >>= f) w)
  unfolding wrapping
  call_then w on_error on_value = elim (driver_call_cases w) [
    | inr (e, w', called, same) ↦ rw called (on_error _ w' same.db)
    | inl (w', called, same) ↦ rw called (on_value w' same)
  ]
