-- ===== src/System/History.antt =====
-- What requests can do to the tables over time.
use gowallet.Prelude.{
  Bool, true, false, String, ◌≡◌, refl, ap, Option, List, [], ◌∷◌, ◌++◌, Result, ok, err,
}
use gowallet.Prelude.Int.{ℤ}
use gowallet.Wallet.{Transaction, AuditOutcome, Error}
use gowallet.Store.Db.{Db, Stamp, AccountRow, TransactionRow, AuditRow}
use gowallet.Store.Queries
use gowallet.Store.Queries.{SqlError, add_row}
use gowallet.Store.Session.{World}
use gowallet.Store.Ledger.Outcome.{Recorded, row_of, record_transaction-Recorded}
use gowallet.Store.Keeps.{
  OfDb, balance-keeps, get_account-keeps, get_credential-keeps, list_accounts-keeps,
  list_transactions-keeps, ping-keeps, list_audit-keeps, create_account-keeps, append_audit-keeps,
}
use gowallet.Store.Accounts.{to_error}
use gowallet.Http.Server.{Context}
use gowallet.Http.Router.{Request}
use gowallet.Http.Keeps.Rules.{KeepsRepositories}
use gowallet.Http.Keeps.Routes.{serve-keeps}
use gowallet.System.{Environment, server, serve_all}
use gowallet.Store.Additions.{create_account-adds, append_audit_entry-adds}

-- `db` has every row of `before` unchanged, and possibly newer ones.
pub record Extends (before db : Db) : Type 0 where
  pub new_accounts : List AccountRow
  pub accounts : db.accounts ≡ new_accounts ++ before.accounts
  pub new_transactions : List TransactionRow
  pub transactions : db.transactions ≡ new_transactions ++ before.transactions
  pub new_audit : List AuditRow
  pub audit_log : db.audit_log ≡ new_audit ++ before.audit_log

Extends-refl : (db : Db) → Extends db db
Extends-refl db = record {
  new_accounts = [];
  accounts = refl;
  new_transactions = [];
  transactions = refl;
  new_audit = [];
  audit_log = refl;
}

add_transaction :
    (before db db' : Db) (r : TransactionRow)
    → db' ≡ add_row r db
    → Extends before db
    → Extends before db'
add_transaction before db db' r e h = rw e (record {
  new_accounts = h.new_accounts;
  accounts = h.accounts;
  new_transactions = r ∷ h.new_transactions;
  transactions = ap (λ rows. r ∷ rows) h.transactions;
  new_audit = h.new_audit;
  audit_log = h.audit_log;
})

create_account-Extends :
    (before : Db) (now : Stamp) (id name : String) (hash : Option String) (db db' : Db)
    → Queries.create_account now id name hash db ≡ ok (tt, db')
    → Extends before db
    → Extends before db'
create_account-Extends before now id name hash db db' e h =
    let row : AccountRow = Queries.new_account now id name hash in
    rw (create_account-adds now id name hash db db' e) (record {
      new_accounts = row ∷ h.new_accounts;
      accounts = ap (λ rows. row ∷ rows) h.accounts;
      new_transactions = h.new_transactions;
      transactions = h.transactions;
      new_audit = h.new_audit;
      audit_log = h.audit_log;
    })

append_audit-Extends :
    (before : Db) (now : Stamp) (ref account_id kind : String) (points : ℤ) (outcome : AuditOutcome)
    (reason : String) (row : AuditRow) (db db' : Db)
    → Queries.append_audit_entry now ref account_id kind points outcome reason db ≡ ok (row, db')
    → Extends before db
    → Extends before db'
append_audit-Extends before now ref account_id kind points outcome reason row db db' e h =
    rw (append_audit_entry-adds now ref account_id kind points outcome reason row db db' e)
      (record {
        new_accounts = h.new_accounts;
        accounts = h.accounts;
        new_transactions = h.new_transactions;
        transactions = h.transactions;
        new_audit = row ∷ h.new_audit;
        audit_log = ap (λ rows. row ∷ rows) h.audit_log;
      })

Recorded-Extends :
    (before : Db) (t : Transaction) (w : World) (r : Result Error (Transaction × Bool)) (w' : World)
    → Recorded t w (r, w')
    → Extends before w.db
    → Extends before w'.db
Recorded-Extends before t w (err _) w' e h = rw e h
Recorded-Extends before t w (ok (stored, false)) w' (e, _) h = rw e h
Recorded-Extends before t w (ok (stored, true)) w' c h =
    add_transaction before w.db w'.db (row_of t w.now w.db) c.added h

repositories-extend :
    (env : Environment) (before : Db) → KeepsRepositories (OfDb (Extends before)) (server env)
repositories-extend env before = record {
  create_account = λ a hash.
      create_account-keeps (Extends before) env.driver a hash
        (λ now. create_account-Extends before now a.id a.name _);
  get_account = get_account-keeps (Extends before) env.driver;
  balance = balance-keeps (Extends before) env.driver;
  get_credential = get_credential-keeps (Extends before) env.driver;
  list_accounts = list_accounts-keeps (Extends before) env.driver;
  list_transactions = list_transactions-keeps (Extends before) env.driver;
  record_transaction = λ t. record {
    at = λ w h.
        Recorded-Extends before t w _ _ (record_transaction-Recorded (to_error env.driver) t w) h;
  };
  append_audit = λ e. append_audit-keeps (Extends before) env.driver (to_error env.driver) e (λ now.
      append_audit-Extends before now e.ref e.account_id e.kind e.points e.outcome e.reason);
  list_audit = list_audit-keeps (Extends before) env.driver (to_error env.driver);
  ping = ping-keeps (Extends before) env.driver;
}

serve_all-Extends_from :
    (env : Environment) (before : Db) (requests : List (Request × Context)) (w : World)
    → Extends before w.db
    → Extends before (serve_all env requests w).db
unfolding serve_all
serve_all-Extends_from env before [] w h = h
serve_all-Extends_from env before ((req, ctx) ∷ rest) w h =
    serve_all-Extends_from env before rest _ (
      (serve-keeps (OfDb (Extends before)) (server env) (repositories-extend env before) req ctx).at
        w h)

-- Whatever the requests and the failing driver calls: every row of the three tables that is there
-- before is there after, unchanged and in its place below the new rows. Nothing is ever updated or
-- deleted.
pub serve_all-append_only :
    (env : Environment) (requests : List (Request × Context)) (w : World)
    → Extends w.db (serve_all env requests w).db
serve_all-append_only env requests w =
    serve_all-Extends_from env w.db requests w (Extends-refl w.db)
