-- ===== src/Store/Schedule.antt =====
-- What any number of requests do to the store at the same time. The one connection serves one call of
-- the store after the other, and a recording holds it from BeginTx to the end: so a concurrent run is
-- a sequence of calls, in an order that no request chooses. Between two calls time passes, and driver
-- calls may begin or cease to fail.
pub mod Steps
pub mod Once
pub mod First
pub mod Sums
pub mod Validity
use gowallet.Prelude.{String, Bool, List, [], ◌∷◌, Result}
use gowallet.Wallet.{Account, Transaction, AuditEntry, Error}
use gowallet.Store.Db.{Stamp}
use gowallet.Store.Driver.{Driver}
use gowallet.Store.Session.{World}
use gowallet.Store.Accounts
use gowallet.Store.Accounts.{to_error}
use gowallet.Store.Audit
use gowallet.Store.Ledger.{record_transaction}

-- What a call tells its caller of the ledger.
pub data Event : Type 0 where
  answered : Transaction → Result Error (Transaction × Bool) → Event
  quiet : Event

module _ (driver : Driver) where
  -- The calls of the repositories, and what happens between them.
  pub data Step : World → Event → World → Type 0 where
    recording :
        (w : World) (t : Transaction)
        → Step w
            (answered t (record_transaction (to_error driver) t w).0)
            (record_transaction (to_error driver) t w).1
    creating :
        (w : World) (a : Account) (hash : String)
        → Step w quiet (Accounts.create_account driver a hash w).1
    auditing :
        (w : World) (e : AuditEntry) → Step w quiet (Audit.append_audit (to_error driver) e w).1
    reading_audit :
        (w : World) (id : String) → Step w quiet (Audit.list_audit (to_error driver) id w).1
    reading_account : (w : World) (id : String) → Step w quiet (Accounts.get_account driver id w).1
    reading_credential :
        (w : World) (id : String) → Step w quiet (Accounts.get_credential driver id w).1
    reading_balance : (w : World) (id : String) → Step w quiet (Accounts.balance driver id w).1
    listing_accounts : (w : World) → Step w quiet (Accounts.list_accounts driver w).1
    listing_transactions :
        (w : World) (id : String) → Step w quiet (Accounts.list_transactions driver id w).1
    pinging : (w : World) → Step w quiet (Accounts.ping driver w).1
    waiting :
        (w : World) (now : Stamp) (faults : List Bool)
        → Step w quiet (record w { now = now; faults = faults })

  -- A run, with its events from the first to the last.
  pub data Run : World → List Event → World → Type 0 where
    done : (w : World) → Run w [] w
    step :
        {w w1 w2 : World} {e : Event} {es : List Event}
        → Step w e w1
        → Run w1 es w2
        → Run w (e ∷ es) w2
