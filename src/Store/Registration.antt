-- ===== src/Store/Registration.antt =====
-- `CreateAccount` and `AppendAudit` of internal/sqlitestore on every branch, and what a registered
-- account's owner can do with its secret.
pub mod Stored
use gowallet.Prelude.{
  ◌≡◌, ◌≢◌, refl, ap, Bool, true, none, some, Result, ◌∷◌, inl, inr, String, false, ok, err, arith,
  ◌==◌, eq_iff, eq_refl, Bool-cases, if◌then◌else◌,
}
use gowallet.Wallet.{Account, Error, member, sentinel, account_exists}
use gowallet.Wallet.Auth.{parse_role}
use gowallet.Wallet.Service
use gowallet.Wallet.Service.Bcrypt.{Bcrypt}
use gowallet.Store.Db.{Db, Stamp, AccountRow, parse}
use gowallet.Store.Queries
use gowallet.Store.Queries.{
  new_account, add_account, unique_failed, account_row, get_account_credential,
}
use gowallet.Store.Session.{World, write, read, driver_call}
use gowallet.Store.Driver.{Driver}
use gowallet.Store.Accounts.{create_account, get_account, get_credential}
use gowallet.Store.Ledger.{null_string}
use gowallet.Store.Ledger.Calm.{calm, is_known}
use gowallet.Store.Ledger.Replay.{string_of-null_string}
use gowallet.Store.Repositories

create_account_free :
    (driver : Driver) (a : Account) (hash : String) (db : Db) (now : Stamp)
    → is_known a.id db ≡ false
    → create_account driver a hash (calm db now)
      ≡ (ok tt, calm (add_account (new_account now a.id a.name (null_string hash)) db) now)
unfolding create_account Queries.create_account write driver_call
create_account_free driver a hash db now free = rw free refl

-- The database with a new member.
abbrev pub with_member : Account → String → Stamp → Db → Db
with_member a hash now db = add_account (new_account now a.id a.name (null_string hash)) db

credential_after :
    (driver : Driver) (a : Account) (hash : String) (db : Db) (now later : Stamp)
    → get_credential driver a.id (calm (with_member a hash now db) later)
      ≡ (ok (hash, member), calm (with_member a hash now db) later)
unfolding get_credential get_account_credential read driver_call parse_role
credential_after driver a hash db now later = simp (eq_refl a.id, string_of-null_string hash) refl

pub create_account_computed :
    (driver : Driver) (a : Account) (hash : String) (db : Db) (now : Stamp)
    → create_account driver a hash (calm db now) ≡ (
        if is_known a.id db
        then (err (sentinel account_exists), calm db now)
        else (ok tt, calm (add_account (new_account now a.id a.name (null_string hash)) db) now))
unfolding create_account Queries.create_account write driver_call
create_account_computed driver a hash db now = elim (Bool-cases (is_known a.id db)) [
  | inl taken ↦ simp (taken, driver.unique_text unique_failed) refl
  | inr free ↦ rw (create_account_free driver a hash db now free, free) refl
]

-- The row of a new member: an empty hash is stored as NULL.
abbrev pub member_row : Account → String → Stamp → AccountRow
member_row a hash now = record {
  account_id = a.id;
  name = a.name;
  password_hash = if hash == "" then none else some hash;
  role = "member";
  created_at = now;
}

-- What is returned and left for an id that is taken, and for one that is free.
abbrev pub Registers :
    Driver → Account → String → Db → Stamp → Bool → Result Error (Unit {0}) × World → Type 0
Registers driver a hash db now true (r, w) = (r ≡ err (sentinel account_exists)) × (w ≡ calm db now)
Registers driver a hash db now false (r, w) =
    (r ≡ ok tt)
    × (w ≡ calm (record db { accounts = member_row a hash now ∷ db.accounts }) now)
    × ((get_account driver a.id w).0 ≡ ok (record a { created_at = parse now }))
    × ((get_credential driver a.id w).0 ≡ ok (hash, member))

account_after :
    (driver : Driver) (a : Account) (hash : String) (db : Db) (now : Stamp)
    → (get_account driver a.id
        (calm (add_account (new_account now a.id a.name (null_string hash)) db) now)).0
      ≡ ok (record a { created_at = parse now })
unfolding get_account Queries.get_account account_row read driver_call
account_after driver a hash db now = simp (eq_refl a.id) refl

-- With no failing driver call, `create_account` of an id that is taken returns ErrAccountExists and
-- changes nothing. Of any other id it adds one account, with the id and the name as given, the role
-- "member", the hash (NULL if it is empty) and the time of the call, and nothing else changes; then
-- the account is read back with that time, and its credential is that hash with the role member.
pub create_account_outcome :
    (driver : Driver) (a : Account) (hash : String) (db : Db) (now : Stamp)
    → Registers driver a hash db now (is_known a.id db) (create_account driver a hash (calm db now))
create_account_outcome driver a hash db now = elim (Bool-cases (is_known a.id db)) [
  | inl taken ↦ rw (create_account_computed driver a hash db now, taken) (refl, refl)
  | inr free ↦
      rw (create_account_computed driver a hash db now, free)
        (
          refl,
          refl,
          account_after driver a hash db now,
          ap (λ x. x.0) (credential_after driver a hash db now now),
        )
]

present : (s : String) → s ≢ "" → (s == "") ≡ false
present s h = ground (arith, eq_iff s "")

-- An account with an id, a name and a secret, the id not taken, whose secret bcrypt can hash, is
-- registered, and a login with that secret, at any time on the database as the registration left it,
-- gives that account as a member. No driver call fails.
pub registered_logs_in :
    (driver : Driver) (bcrypt : Bcrypt) (a : Account) (salt secret hash : String) (db : Db)
    (now later : Stamp)
    → a.id ≢ ""
    → a.name ≢ ""
    → secret ≢ ""
    → is_known a.id db ≡ false
    → bcrypt.generate salt secret ≡ ok hash
    → (Service.create_account bcrypt (Repositories.accounts driver) salt a secret (calm db now)
        ≡ (ok tt, calm (with_member a hash now db) now))
      × (Service.login bcrypt
            (Repositories.accounts driver)
            a.id
            secret
            (calm (with_member a hash now db) later)
          ≡ (
            ok (record { account_id = a.id; role = member }),
            calm (with_member a hash now db) later,
          ))
unfolding Service.create_account Service.login
registered_logs_in driver bcrypt a salt secret hash db now later id name filled free hashed =
    let outcome = create_account_free driver a hash db now free in
    let some_hash = present hash (bcrypt.generate-ne-empty salt secret hash hashed) in
    (
      simp (present a.id id, present a.name name, present secret filled, hashed, outcome) refl,
      rw (credential_after driver a hash db now later)
          (simp (some_hash, bcrypt.matches-generate salt secret hash hashed) refl),
    )
