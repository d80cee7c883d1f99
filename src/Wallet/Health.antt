-- ===== src/Wallet/Health.antt =====
-- `HealthService` of internal/wallet/health.go.
use gowallet.Prelude.{String, Result, ok, err}
use gowallet.Wallet.Types.{Error}
use gowallet.Wallet.Repository.{Pinger}

pub record Health : Type 0 where
  pub status : String
  pub db : String

unfoldable pub report : Result Error (Unit {0}) → Health
report (ok _) = record { status = "ok"; db = "up" }
report (err _) = record { status = "degraded"; db = "down" }

-- `HealthService.Check`
unfoldable pub check : {S : Type 0} → Pinger S → S → Health × S
unfolding report
check db s = let (r, s') = db.ping s in (report r, s')
