-- ===== src/Http/Contract/Bodies.antt =====
-- The bodies that several response objects carry.
use gowallet.Prelude.{ℕ, String, Option}
use gowallet.Http.Response.{Body, LedgerEntry, error}

-- `Error`, which is also `Forbidden` and `Unauthorized`
pub record ErrorBody : Type 0 where
  pub code : String
  pub message : String
  pub request_id : Option String

abbrev pub error_body : ErrorBody → Body
error_body e = error e.code e.message e.request_id

-- `Transaction`
pub record TransactionBody : Type 0 where
  pub account_id : String
  pub entry : LedgerEntry

-- `Redemption`
pub record RedemptionBody : Type 0 where
  pub account_id : String
  pub entry : LedgerEntry
  pub reward : String

-- `TokenResponse`
pub record TokenResponse : Type 0 where
  pub token : String
  pub token_type : String
  pub expires_in : ℕ

-- `Health`
pub record HealthBody : Type 0 where
  pub status : String
  pub db : String
