-- ===== src/Http/Jwt.antt =====
-- What internal/httpapi/auth.go uses of github.com/golang-jwt/jwt.
use gowallet.Prelude.{ℕ, ◌<◌, String, ◌≡◌, Option, some, List, [], ◌∷◌, Result, ok}

-- `claims`: the role, and of the registered claims the subject and, in whole seconds, the times, which
-- a token may leave out.
pub record Claims : Type 0 where
  pub role : String
  pub subject : String
  pub issued_at : Option ℕ
  pub expires_at : Option ℕ

-- `sign secret c` is the HS256 token of `c`; `parse methods secret now raw` is ParseWithClaims with
-- WithValidMethods. A token that was signed here with an expiry parses until it expires.
pub record Jwt : Type 0 where
  pub sign : String → Claims → Result String String
  pub parse : List String → String → ℕ → String → Result String Claims
  pub parse-sign :
      (secret raw : String) (c : Claims) (now expires : ℕ)
      → sign secret c ≡ ok raw
      → c.expires_at ≡ some expires
      → now < expires
      → parse ("HS256" ∷ []) secret now raw ≡ ok c
