-- ===== src/Wallet/Service/Bcrypt.antt =====
-- What internal/wallet uses of golang.org/x/crypto/bcrypt.
use gowallet.Prelude.{String, ◌≡◌, ◌≢◌, Bool, true, Result, ok}

pub data HashError : Type 0 where
  too_long : HashError
  other : String → HashError

-- `generate salt secret` is GenerateFromPassword at cost 12 with the salt that it drew, `matches`
-- whether CompareHashAndPassword returns nil. A hash is never empty, and matches its own secret.
pub record Bcrypt : Type 0 where
  pub generate : String → String → Result HashError String
  pub matches : String → String → Bool
  pub matches-generate :
      (salt secret hash : String) → generate salt secret ≡ ok hash → matches hash secret ≡ true
  pub generate-ne-empty : (salt secret hash : String) → generate salt secret ≡ ok hash → hash ≢ ""
