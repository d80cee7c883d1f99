-- ===== src/Wallet/Types.antt =====
-- The domain types and sentinel errors of internal/wallet/wallet.go, auth.go and audit.go, and
-- Go's `time.Time` as an instant.
use gowallet.Prelude.{ℕ, String, Bool, true, false, ◌&&◌, eqb}
use gowallet.Prelude.Int.{ℤ}

-- Whole seconds since 0000-01-01T00:00:00Z less 400 years, so that no instant that RFC 3339 can
-- write is negative, and the nanoseconds within the second.
pub record Time : Type 0 where
  pub sec : ℕ
  pub nsec : ℕ

-- 0001-01-01T00:00:00Z, Go's zero time: 400 years of 146097 days, and the leap year 0.
abbrev pub zero_time : Time
zero_time = record { sec = 12_654_403_200; nsec = 0 }

-- `Time.IsZero`
abbrev pub is_zero : Time → Bool
is_zero t = eqb t.sec zero_time.sec && eqb t.nsec 0

-- `wallet.Kind`, a string type with three constants; `other` is any other text, and `other ""` the
-- kind of a transaction that no service has stamped yet.
pub data Kind : Type 0 where
  earn spend redeem : Kind
  other : String → Kind

abbrev pub kind_text : Kind → String
kind_text earn = "earn"
kind_text spend = "spend"
kind_text redeem = "redeem"
kind_text (other s) = s

pub data Role : Type 0 where
  member admin : Role

abbrev pub role_text : Role → String
role_text member = "member"
role_text admin = "admin"

pub record Identity : Type 0 where
  pub account_id : String
  pub role : Role

pub record Account : Type 0 where
  pub id : String
  pub name : String
  pub created_at : Time

pub record Transaction : Type 0 where
  pub ref : String
  pub account_id : String
  pub kind : Kind
  pub points : ℤ
  pub reward : String
  pub occurred_at : Time

pub record AccountSummary : Type 0 where
  pub id : String
  pub name : String
  pub role : Role
  pub balance : ℤ

-- `wallet.AuditOutcome`, a string type with three constants.
pub data AuditOutcome : Type 0 where
  accepted rejected duplicate : AuditOutcome
  unknown : String → AuditOutcome

-- `AuditOutcome.valid`
abbrev pub valid : AuditOutcome → Bool
valid (unknown _) = false
valid _ = true

pub record AuditEntry : Type 0 where
  pub id : ℕ
  pub ref : String
  pub account_id : String
  pub kind : String
  pub points : ℤ
  pub outcome : AuditOutcome
  pub reason : String
  pub created_at : Time

-- The sentinel errors, compared by identity in Go.
pub data Sentinel : Type 0 where
  not_found account_exists invalid_input duplicate_ref insufficient_balance : Sentinel
  invalid_credentials forbidden : Sentinel

-- A Go error: a sentinel, an error of other origin with its text, or `fmt.Errorf("context: %w", e)`.
pub data Error : Type 0 where
  sentinel : Sentinel → Error
  external : String → Error
  wrap : String → Error → Error

abbrev pub same : Sentinel → Sentinel → Bool
same not_found not_found = true
same account_exists account_exists = true
same invalid_input invalid_input = true
same duplicate_ref duplicate_ref = true
same insufficient_balance insufficient_balance = true
same invalid_credentials invalid_credentials = true
same forbidden forbidden = true
same _ _ = false

-- `errors.Is`, which looks through every `%w`.
abbrev pub is : Error → Sentinel → Bool
is (sentinel s) t = same s t
is (external _) t = false
is (wrap _ e) t = is e t
