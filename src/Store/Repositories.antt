-- ===== src/Store/Repositories.antt =====
-- The store as the repositories of internal/wallet, as cmd/gowallet/main.go wires it.
use gowallet.Wallet.{AccountRepository, TransactionRepository, AuditRepository, Pinger}
use gowallet.Store.Driver.{Driver}
use gowallet.Store.Session.{World}
use gowallet.Store.Accounts.{
  to_error, create_account, get_account, balance, get_credential, list_accounts, list_transactions,
  ping,
}
use gowallet.Store.Ledger.{record_transaction}
use gowallet.Store.Audit.{append_audit, list_audit}

module _ (driver : Driver) where
  abbrev pub accounts : AccountRepository World
  accounts = record {
    create_account = create_account driver;
    get_account = get_account driver;
    balance = balance driver;
    get_credential = get_credential driver;
    list_accounts = list_accounts driver;
    list_transactions = list_transactions driver;
  }

  abbrev pub transactions : TransactionRepository World
  transactions = record { record_transaction = record_transaction (to_error driver) }

  abbrev pub audit : AuditRepository World
  audit = record {
    append_audit = append_audit (to_error driver);
    list_audit = list_audit (to_error driver);
  }

  abbrev pub pinger : Pinger World
  pinger = record { ping = ping driver }
