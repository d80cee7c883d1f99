-- ===== src/Tests/Data.antt =====
-- A database with three accounts and a short history, and a server over it.
use gowallet.Prelude.{refl, Option, none, [], ◌∷◌, arith, inl, inr, Bool-cases, ◌==◌}
use gowallet.Prelude.Int.{pos}
use gowallet.Wallet.{Transaction, earn, spend, Time, Identity, member}
use gowallet.Store.Db.{Db, Stamp, TransactionRow, migrated}
use gowallet.Store.Queries.{transaction_row}
use gowallet.Store.Session.{World}
use gowallet.Store.Invariant.{IsValid, IsSolvent}
use gowallet.Http.Server.{Context, Server}
use gowallet.System.{Environment, server}
use gowallet.Tests.Outside.{test_driver, test_bcrypt, test_jwt, test_jwt_secret}

abbrev pub env : Environment
env = record {
  driver = test_driver;
  bcrypt = test_bcrypt;
  jwt = test_jwt;
  jwt_secret = test_jwt_secret;
  jwt_ttl = 3_600_000_000_000;
  spec_yaml = "openapi: 3.0.3";
}

abbrev pub srv : Server World
srv = server env

-- 2024-06-01T10:00:00Z
abbrev pub june : Stamp
june = 76_507_236_000

abbrev pub start : Db
start = migrated june

abbrev pub start_world : World
start_world = record { db = start; now = june; faults = [] }

abbrev pub at_june : Time
at_june = record { sec = june; nsec = 500 }

abbrev pub an_earn : Transaction
an_earn = record {
  ref = "e-1";
  account_id = "member-123";
  kind = earn;
  points = pos 100;
  reward = "";
  occurred_at = at_june;
}

abbrev pub a_spend : Transaction
a_spend = record {
  ref = "s-1";
  account_id = "member-123";
  kind = spend;
  points = pos 30;
  reward = "";
  occurred_at = at_june;
}

-- The same ref from another account.
abbrev pub a_clash : Transaction
a_clash = record {
  ref = "e-1";
  account_id = "admin-001";
  kind = spend;
  points = pos 7;
  reward = "";
  occurred_at = at_june;
}

abbrev pub earn_row : TransactionRow
earn_row = record {
  id = 1;
  ref = "e-1";
  account_id = "member-123";
  kind = earn;
  points = pos 100;
  reward = none;
  occurred_at = june;
  created_at = june;
}

-- The database after the earn.
abbrev pub earned_db : Db
earned_db = record start { transactions = earn_row ∷ []; transaction_seq = 1 }

earned_db-IsSolvent : IsSolvent (earn_row ∷ [])
earned_db-IsSolvent id = elim (Bool-cases ("member-123" == id)) [
  | inl mine ↦ rw mine (omega arith)
  | inr other_account ↦ rw other_account (omega arith)
]

pub earned_db-IsValid : IsValid earned_db
unfolding transaction_row
earned_db-IsValid = record {
  legal = (record { allowed = refl; positive = omega arith; known = refl }, tt);
  known_roles = (refl, (refl, tt));
  distinct_refs = (refl, tt);
  falling_ids = (omega arith, tt);
  known_outcomes = tt;
  falling_audit = tt;
  solvent = earned_db-IsSolvent;
}

abbrev pub member_identity : Identity
member_identity = record { account_id = "member-123"; role = member }

-- A context with an identity, at 2000 seconds.
abbrev pub context : Option Identity → Context
context identity = record {
  identity = identity;
  request_id = "req-1";
  now = 2_000_000_000_000;
  salt = "salt";
}
