-- ===== src/Store/Schedule/Validity.antt =====
-- The well-formedness of the database under any interleaving of calls.
use gowallet.Prelude.{List}
use gowallet.Store.Driver.{Driver}
use gowallet.Store.Session.{World}
use gowallet.Store.Accounts.{to_error}
use gowallet.Store.Invariant.{IsValid, record_transaction-IsValid}
use gowallet.Store.Additions.{create_account-IsValid, append_audit_entry-IsValid}
use gowallet.Store.Keeps.{
  balance-keeps, get_account-keeps, get_credential-keeps, list_accounts-keeps,
  list_transactions-keeps, ping-keeps, list_audit-keeps, create_account-keeps, append_audit-keeps,
}
use gowallet.Store.Schedule.{
  Event, Step, recording, creating, auditing, reading_audit, reading_account, reading_credential,
  reading_balance, listing_accounts, listing_transactions, pinging, waiting, Run, done, step,
}

module _ (driver : Driver) where
  Step-IsValid : {w w' : World} {e : Event} → Step driver w e w' → IsValid w.db → IsValid w'.db
  Step-IsValid (recording w t) h = record_transaction-IsValid (to_error driver) t w h
  Step-IsValid (creating w a hash) h =
      (create_account-keeps IsValid driver a hash
          (λ now. create_account-IsValid now a.id a.name _)).at
        w h
  Step-IsValid (auditing w e) h =
      (append_audit-keeps IsValid driver (to_error driver) e (λ now.
          append_audit_entry-IsValid now e.ref e.account_id e.kind e.points e.outcome e.reason)).at
        w h
  Step-IsValid (reading_audit w id) h =
      (list_audit-keeps IsValid driver (to_error driver) id).at w h
  Step-IsValid (reading_account w id) h = (get_account-keeps IsValid driver id).at w h
  Step-IsValid (reading_credential w id) h = (get_credential-keeps IsValid driver id).at w h
  Step-IsValid (reading_balance w id) h = (balance-keeps IsValid driver id).at w h
  Step-IsValid (listing_accounts w) h = (list_accounts-keeps IsValid driver).at w h
  Step-IsValid (listing_transactions w id) h = (list_transactions-keeps IsValid driver id).at w h
  Step-IsValid (pinging w) h = (ping-keeps IsValid driver).at w h
  Step-IsValid (waiting w now faults) h = h

  -- Any interleaving of calls of the store, with any driver calls failing, keeps a valid database
  -- valid: so concurrent spends and redeems of an account never take more than it has earned.
  pub Run-IsValid :
      {w w' : World} {es : List Event} → Run driver w es w' → IsValid w.db → IsValid w'.db
  Run-IsValid (done w) h = h
  Run-IsValid (step s run) h = Run-IsValid run (Step-IsValid s h)
