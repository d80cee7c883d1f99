-- ===== src/Store/Schedule/Steps.antt =====
-- What one call does to the rows of the ledger.
use gowallet.Prelude.{◌≡◌, refl}
use gowallet.Store.Db.{Db}
use gowallet.Store.Driver.{Driver}
use gowallet.Store.Session.{World}
use gowallet.Store.Accounts.{to_error}
use gowallet.Store.Ledger.Outcome.{Recorded, record_transaction-Recorded}
use gowallet.Store.Keeps.{
  balance-keeps, get_account-keeps, get_credential-keeps, list_accounts-keeps,
  list_transactions-keeps, ping-keeps, list_audit-keeps, create_account-keeps, append_audit-keeps,
}
use gowallet.Store.Additions.{create_account-adds, append_audit_entry-adds}
use gowallet.Store.Schedule.{
  Event, answered, quiet, Step, recording, creating, auditing, reading_audit, reading_account,
  reading_credential, reading_balance, listing_accounts, listing_transactions, pinging, waiting,
}

-- A recording has its outcome, and any other call leaves the rows alone.
abbrev pub Changes : World → Event → World → Type 0
Changes w (answered t r) w' = Recorded t w (r, w')
Changes w quiet w' = w'.db.transactions ≡ w.db.transactions

module _ (driver : Driver) where
  abbrev SameRows : World → Db → Type 0
  SameRows w db = db.transactions ≡ w.db.transactions

  pub Step-Changes : {w w' : World} {e : Event} → Step driver w e w' → Changes w e w'
  Step-Changes (recording w t) = record_transaction-Recorded (to_error driver) t w
  Step-Changes (creating w a hash) =
      (create_account-keeps (SameRows w) driver a hash
          (λ now db db' e h. rw (create_account-adds now a.id a.name _ db db' e) h)).at
        w refl
  Step-Changes (auditing w e) =
      (append_audit-keeps (SameRows w) driver (to_error driver) e (λ now row db db' done h.
          rw
            (append_audit_entry-adds now e.ref e.account_id e.kind e.points e.outcome e.reason row
              db db' done)
            h)).at
        w refl
  Step-Changes (reading_audit w id) =
      (list_audit-keeps (SameRows w) driver (to_error driver) id).at w refl
  Step-Changes (reading_account w id) = (get_account-keeps (SameRows w) driver id).at w refl
  Step-Changes (reading_credential w id) = (get_credential-keeps (SameRows w) driver id).at w refl
  Step-Changes (reading_balance w id) = (balance-keeps (SameRows w) driver id).at w refl
  Step-Changes (listing_accounts w) = (list_accounts-keeps (SameRows w) driver).at w refl
  Step-Changes (listing_transactions w id) =
      (list_transactions-keeps (SameRows w) driver id).at w refl
  Step-Changes (pinging w) = (ping-keeps (SameRows w) driver).at w refl
  Step-Changes (waiting w now faults) = refl
