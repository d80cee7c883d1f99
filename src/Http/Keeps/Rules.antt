-- ===== src/Http/Keeps/Rules.antt =====
-- The rules for what handlers are built from.
use gowallet.Prelude.{String, Bool, true, false, Result, ok, err, if◌then◌else◌}
use gowallet.Wallet.{Account, Transaction, AuditEntry, Error, Call}
use gowallet.Wallet.Keeps.{KeepsCall}
use gowallet.Http.Response.{Response, Web, reply, on_result, run}
use gowallet.Http.Server.{Server}

pub record KeepsWeb {S : Type 0} (P : S → Type 0) (f : Web S) : Type 0 where
  pub at : (s : S) → P s → P (f s).1

-- Every call of every repository keeps `P`.
pub record KeepsRepositories {S : Type 0} (P : S → Type 0) (srv : Server S) : Type 0 where
  pub create_account :
      (a : Account) (hash : String) → KeepsCall P (srv.accounts.create_account a hash)
  pub get_account : (id : String) → KeepsCall P (srv.accounts.get_account id)
  pub balance : (id : String) → KeepsCall P (srv.accounts.balance id)
  pub get_credential : (id : String) → KeepsCall P (srv.accounts.get_credential id)
  pub list_accounts : KeepsCall P srv.accounts.list_accounts
  pub list_transactions : (id : String) → KeepsCall P (srv.accounts.list_transactions id)
  pub record_transaction : (t : Transaction) → KeepsCall P (srv.txns.record_transaction t)
  pub append_audit : (e : AuditEntry) → KeepsCall P (srv.audit.append_audit e)
  pub list_audit : (id : String) → KeepsCall P (srv.audit.list_audit id)
  pub ping : KeepsCall P srv.db.ping

module _ {S : Type 0} {P : S → Type 0} where
  pub reply-keeps : (r : Response) → KeepsWeb P (reply r)
  unfolding reply
  reply-keeps r = record { at = λ s h. h }

  pub on_result-keeps :
      {A : Type 0} (r : Result Error A) (f : A → Web S) (g : Error → Web S)
      → ((a : A) → KeepsWeb P (f a))
      → ((e : Error) → KeepsWeb P (g e))
      → KeepsWeb P (on_result r f g)
  unfolding on_result
  on_result-keeps (ok a) f g kf kg = record { at = (kf a).at }
  on_result-keeps (err e) f g kf kg = record { at = (kg e).at }

  pub run-keeps :
      {A : Type 0} (m : Call S A) (f : A → Web S) (g : Error → Web S)
      → KeepsCall P m
      → ((a : A) → KeepsWeb P (f a))
      → ((e : Error) → KeepsWeb P (g e))
      → KeepsWeb P (run m f g)
  unfolding run
  run-keeps m f g km kf kg = record {
    at = λ s h. let (r, s') = m s in (on_result-keeps r f g kf kg).at s' (km.at s h);
  }

  pub if-keeps :
      (b : Bool) (f g : Web S) → KeepsWeb P f → KeepsWeb P g → KeepsWeb P (if b then f else g)
  if-keeps true f g kf kg = kf
  if-keeps false f g kf kg = kg

pub ruleset web_rules = (reply-keeps, on_result-keeps, run-keeps, if-keeps)
