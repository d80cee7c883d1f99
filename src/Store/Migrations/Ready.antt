-- ===== src/Store/Migrations/Ready.antt =====
-- What the runner makes of a valid database file of any version.
use gowallet.Prelude.{◌≡◌, refl, ◌∙◌, inl, inr, Option, none, some, true, map, Bool-cases}
use gowallet.Store.Db.{Stamp}
use gowallet.Store.Queries.{SqlError}
use gowallet.Store.Invariant.{IsValid}
use gowallet.Store.Migrations.{
  AuditedTables, Disk, blank, initial, s1, s4, s6, s8, s1_up, s4_up, with_reward, rebuilt, pending,
  Goose,
}
use gowallet.Store.Migrations.Upgrade.{
  as_latest, has_demo_id, with_demo, with_demo-IsValid, up-blank, up-free, up-taken, empty-IsValid,
}
use gowallet.Store.Migrations.Copy.{as_rebuilt, rebuilt-IsValid, s8_up-rebuilt}

-- The tables of a file are valid, with the columns that later versions add at their defaults.
abbrev pub IsSound : Disk → Type 0
IsSound blank = Unit
IsSound initial = Unit
IsSound (s1 t) = IsValid (as_latest (s4_up t))
IsSound (s4 t) = IsValid (as_latest t)
IsSound (s6 t) = IsValid (as_rebuilt t)
IsSound (s8 db) = IsValid db

-- The runner ends at the last version, or with an error at S4 if an account has a demo id; the tables
-- stay valid.
abbrev pub Reached : Option SqlError × Disk → Type 0
Reached (none, s8 db) = IsValid db
Reached (none, _) = ⊥
Reached (some _, s4 t) = IsValid (as_latest t) × (has_demo_id t ≡ true)
Reached (some _, _) = ⊥

module _ (now : Stamp) (goose : Goose now) where
  s4-Reached : (t : AuditedTables) → IsValid (as_latest t) → Reached (goose.up (s4 t))
  s4-Reached t valid = elim (Bool-cases (has_demo_id t)) [
    | inl taken ↦ rw (up-taken now t goose taken) (valid, taken)
    | inr free ↦
        rw (up-free now t goose free valid)
          (rebuilt-IsValid (with_demo now t) (with_demo-IsValid now t valid))
  ]

  -- While no driver call fails, and whatever version a valid file has: the runner reaches the last
  -- version, or stops at S4 with an error since an account has a demo id, and the tables stay valid.
  pub up-Reached : (d : Disk) → IsSound d → Reached (goose.up d)
  unfolding pending
  up-Reached blank sound = rw (up-blank now goose) (s4-Reached (s4_up s1_up) empty-IsValid)
  up-Reached initial sound =
      rw (goose.up-next initial (s1 s1_up) refl ∙ goose.up-next (s1 s1_up) (s4 (s4_up s1_up)) refl)
        (s4-Reached (s4_up s1_up) empty-IsValid)
  up-Reached (s1 t) sound =
      rw (goose.up-next (s1 t) (s4 (s4_up t)) refl) (s4-Reached (s4_up t) sound)
  up-Reached (s4 t) sound = s4-Reached t sound
  up-Reached (s6 t) sound =
      rw
        (goose.up-next (s6 t) (s8 (rebuilt t (map with_reward t.audited.ledger.transactions)))
            (rw (s8_up-rebuilt t sound) refl)
          ∙ goose.up-done (s8 (rebuilt t (map with_reward t.audited.ledger.transactions))) refl)
        (rebuilt-IsValid t sound)
  up-Reached (s8 db) sound = rw (goose.up-done (s8 db) refl) sound
