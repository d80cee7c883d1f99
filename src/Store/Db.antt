-- ===== src/Store/Db.antt =====
-- The tables of internal/sqlitestore/migrations as they stand after the last migration (mirrored in
-- queries/schema.sql), with internal/sqlitestore/gen/models.go's row types.
use gowallet.Prelude.{ℕ, String, Option, some, List, [], ◌∷◌, ◌&&◌, ltb, leb, if◌then◌else◌}
use gowallet.Prelude.Int.{ℤ}
use gowallet.Wallet.{Time, zero_time, Kind, AuditOutcome}

-- A text column that holds `strftime('%Y-%m-%dT%H:%M:%SZ')` or `Format(rfc3339)` of a UTC instant,
-- represented by the second that it spells (counted as in `Time`).
abbrev pub Stamp : Type 0
Stamp = ℕ

-- `t.UTC().Format(rfc3339)`: the layout has no fraction, so the nanoseconds are dropped.
unfoldable pub format : Time → Stamp
format t = t.sec

-- 0000-01-01T00:00:00Z and 10000-01-01T00:00:00Z.
abbrev pub year_0 : Stamp
year_0 = 12_622_780_800

abbrev pub year_10000 : Stamp
year_10000 = 328_192_300_800

-- `time.Parse(rfc3339, s)` with its error ignored: the layout has four digits for the year, so a
-- stamp outside the years 0 to 9999 is no date, and the zero time comes back.
unfoldable pub parse : Stamp → Time
parse s = if leb year_0 s && ltb s year_10000 then record { sec = s; nsec = 0 } else zero_time

-- `role` is a TEXT column with a CHECK; `password_hash` is nullable.
pub record AccountRow : Type 0 where
  pub account_id : String
  pub name : String
  pub password_hash : Option String
  pub role : String
  pub created_at : Stamp

pub record TransactionRow : Type 0 where
  pub id : ℕ
  pub ref : String
  pub account_id : String
  pub kind : Kind
  pub points : ℤ
  pub reward : Option String
  pub occurred_at : Stamp
  pub created_at : Stamp

pub record AuditRow : Type 0 where
  pub id : ℕ
  pub ref : String
  pub account_id : String
  pub kind : String
  pub points : ℤ
  pub outcome : AuditOutcome
  pub reason : String
  pub created_at : Stamp

-- A table's rows, the newest first. `transaction_seq` and `audit_seq` are the largest id that each
-- AUTOINCREMENT table has given out.
pub record Db : Type 0 where
  pub accounts : List AccountRow
  pub transactions : List TransactionRow
  pub transaction_seq : ℕ
  pub audit_log : List AuditRow
  pub audit_seq : ℕ

abbrev pub demo_member : Stamp → AccountRow
demo_member now = record {
  account_id = "member-123";
  name = "Demo Member";
  password_hash = some "$2a$12$7gg9DxyphAr97IhIsioBFOkkZ6lyb3zdtevV/Q9lb9.CxD/R1kC/C";
  role = "member";
  created_at = now;
}

abbrev pub demo_admin : Stamp → AccountRow
demo_admin now = record {
  account_id = "admin-001";
  name = "Demo Admin";
  password_hash = some "$2a$12$LvEsOpgtZcSXg09X9vIgQeFp57IJxh35CAAcKhJJQExocBPl/Fta.";
  role = "admin";
  created_at = now;
}

-- The database after the migrations of a first start, with the two seeded accounts.
abbrev pub migrated : Stamp → Db
migrated now = record {
  accounts = demo_admin now ∷ demo_member now ∷ [];
  transactions = [];
  transaction_seq = 0;
  audit_log = [];
  audit_seq = 0;
}
