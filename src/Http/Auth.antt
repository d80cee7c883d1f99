-- ===== src/Http/Auth.antt =====
-- internal/httpapi/auth.go: minting and verifying tokens, the bearer header, and the middleware.
use Prim.Native.Char.{code}
use gowallet.Prelude.{
  ℕ, ◌+◌, ◌/◌, String, Option, none, some, [], ◌∷◌, ◌&&◌, Result, ok, err, map_err, ◌==◌, leb, eqb,
  if◌then◌else◌,
}
use gowallet.Wallet.{Identity, Role, role_text, Error, external}
use gowallet.Wallet.Auth.{parse_role}
use gowallet.Http.Response.{Web, reply}
use gowallet.Http.Errors.{write_error}
use gowallet.Http.Jwt.{Jwt, Claims}
use gowallet.Http.Text.{trim_space}

abbrev pub second : ℕ
second = 1_000_000_000

-- The claims that `IssueToken` signs, at the time `now` in nanoseconds; times are cut to seconds.
unfoldable pub claims_of : ℕ → ℕ → Identity → Claims
claims_of now ttl id = record {
  role = role_text id.role;
  subject = id.account_id;
  issued_at = some (now / second);
  expires_at = some ((now + ttl) / second);
}

-- ASCII case folding of a letter, which is all that EqualFold needs against "Bearer ".
abbrev lower : ℕ → ℕ
lower c = if leb b'A' c && leb c b'Z' then c + 32 else c

-- What follows a prefix that is matched without regard to case.
unfoldable pub strip_fold : String → String → Option String
strip_fold String.[] s = some s
strip_fold (String.◌∷◌ p prefix) String.[] = none
strip_fold (String.◌∷◌ p prefix) (String.◌∷◌ c s) =
    let rest = strip_fold prefix s in if eqb (lower (code p)) (lower (code c)) then rest else none

abbrev some_unless_empty : String → Option String
some_unless_empty token = if token == "" then none else some token

-- `bearerToken` on the Authorization header; a header that is the bare prefix leaves an empty token.
unfoldable pub bearer_token : String → Option String
unfolding strip_fold trim_space
bearer_token header = elim (strip_fold "Bearer " header) [
  | none ↦ none
  | some rest ↦ some_unless_empty (trim_space rest)
]

module _ (jwt : Jwt) where
  -- `IssueToken`
  unfoldable pub issue_token : String → ℕ → ℕ → Identity → Result Error String
  unfolding claims_of
  issue_token secret now ttl id = map_err external (jwt.sign secret (claims_of now ttl id))

  with_role : String → Result Error Role → Result Error Identity
  with_role subject (err e) = err e
  with_role subject (ok role) =
      if subject == ""
      then err (external "token missing subject")
      else ok (record { account_id = subject; role = role })

  unfoldable pub identity_of : Result String Claims → Result Error Identity
  unfolding with_role parse_role
  identity_of (err text) = err (external text)
  identity_of (ok c) = with_role c.subject (parse_role c.role)

  -- `verifyToken`
  unfoldable pub verify_token : String → ℕ → String → Result Error Identity
  unfolding identity_of
  verify_token secret now token = identity_of (jwt.parse ("HS256" ∷ []) secret (now / second) token)

  -- `Authenticator`: the handler behind it gets the verified identity.
  module _ {S : Type 0} (secret request_id : String) (now : ℕ) (next : Identity → Web S) where
    unfoldable pub admit : Result Error Identity → Web S
    unfolding write_error
    admit (err _) = reply (write_error request_id 401 "unauthorized" "invalid token")
    admit (ok id) = next id

    unfoldable pub after_bearer : Option String → Web S
    unfolding admit verify_token write_error
    after_bearer none =
        reply (write_error request_id 401 "unauthorized" "missing or malformed bearer token")
    after_bearer (some token) = admit (verify_token secret now token)

    unfoldable pub authenticator : String → Web S
    unfolding after_bearer bearer_token
    authenticator header = after_bearer (bearer_token header)
