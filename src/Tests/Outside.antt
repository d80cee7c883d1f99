-- ===== src/Tests/Outside.antt =====
-- One concrete instance of each part that the program takes from outside.
use gowallet.Prelude.{
  Option, none, some, false, ◌≡◌, ◌≢◌, refl, ℕ, ◌<◌, String, List, [], ◌∷◌, Bool, true, ◌&&◌,
  Result, ok, err, arith, any, eqb, ltb, ◌==◌, eq_iff, if◌then◌else◌,
}
use gowallet.Store.Queries.{
  Failure, unique_failed, check_failed, foreign_key_failed, integer_overflow, io,
}
use gowallet.Store.Driver.{Driver, is_unique_violation, is_unique}
use gowallet.Wallet.Service.Bcrypt
use gowallet.Wallet.Service.Bcrypt.{Bcrypt}
use gowallet.Http.Jwt.{Jwt, Claims}

abbrev failure_text : Failure → String
failure_text unique_failed =
    "constraint failed: UNIQUE constraint failed: accounts.account_id (1555)"
failure_text check_failed = "constraint failed: CHECK constraint failed (275)"
failure_text foreign_key_failed = "constraint failed: FOREIGN KEY constraint failed (787)"
failure_text integer_overflow = "integer overflow"
failure_text io = "disk I/O error"

pub failure_text_unique : (f : Failure) → is_unique_violation (failure_text f) ≡ is_unique f
unfolding is_unique_violation
failure_text_unique unique_failed = refl
failure_text_unique check_failed = refl
failure_text_unique foreign_key_failed = refl
failure_text_unique integer_overflow = refl
failure_text_unique io = refl

abbrev pub test_driver : Driver
test_driver = record { text = failure_text; unique_text = failure_text_unique }

-- A hashing that knows one secret.
abbrev pub test_hash : String
test_hash = "$2a$12$one"

abbrev pub test_secret : String
test_secret = "hunter2"

abbrev generate_one : String → String → Result Bcrypt.HashError String
generate_one salt secret = if secret == test_secret then ok test_hash else err Bcrypt.too_long

abbrev matches_one : String → String → Bool
matches_one hash secret = (hash == test_hash) && (secret == test_secret)

pub generate_one-matches :
    (salt secret hash : String)
    → generate_one salt secret ≡ ok hash
    → matches_one hash secret ≡ true
generate_one-matches salt secret hash h = ground (arith, eq_iff hash test_hash)

pub generate_one-ne-empty :
    (salt secret hash : String) → generate_one salt secret ≡ ok hash → hash ≢ ""
generate_one-ne-empty salt secret hash h e = ground (arith, eq_iff test_hash "")

abbrev pub test_bcrypt : Bcrypt
test_bcrypt = record {
  generate = generate_one;
  matches = matches_one;
  matches-generate = generate_one-matches;
  generate-ne-empty = generate_one-ne-empty;
}

-- A signer that knows the claims of the demo member at one time.
abbrev pub test_claims : Claims
test_claims = record {
  role = "member";
  subject = "member-123";
  issued_at = some 1000;
  expires_at = some 4600;
}

abbrev is_at : Option ℕ → ℕ → Bool
is_at none n = false
is_at (some m) n = eqb m n

abbrev is_test_claims : Claims → Bool
is_test_claims c =
    (c.role == "member")
    && (c.subject == "member-123")
    && is_at c.issued_at 1000
    && is_at c.expires_at 4600

abbrev pub test_jwt_secret : String
test_jwt_secret = "s3cret"

abbrev pub test_token : String
test_token = "header.claims.signature"

abbrev sign_one : String → Claims → Result String String
sign_one secret c =
    if (secret == test_jwt_secret) && is_test_claims c then ok test_token else err "no key"

abbrev parse_one : List String → String → ℕ → String → Result String Claims
parse_one methods secret now raw =
    if (raw == test_token)
      && (secret == test_jwt_secret)
      && any (λ m. "HS256" == m) methods
      && ltb now 4600
    then ok test_claims
    else err "token is invalid"

same_claims : (c : Claims) → is_test_claims c ≡ true → c ≡ test_claims
same_claims c h = ground (arith, eq_iff c.role "member", eq_iff c.subject "member-123")

signed_parts :
    (secret raw : String) (c : Claims)
    → sign_one secret c ≡ ok raw
    → ((secret == test_jwt_secret) ≡ true) × (is_test_claims c ≡ true) × (raw ≡ test_token)
signed_parts secret raw c signed = ground arith

pub parse_one-sign :
    (secret raw : String) (c : Claims) (now expires : ℕ)
    → sign_one secret c ≡ ok raw
    → c.expires_at ≡ some expires
    → now < expires
    → parse_one ("HS256" ∷ []) secret now raw ≡ ok c
parse_one-sign secret raw c now expires signed at live =
    let (key, known, text) = signed_parts secret raw c signed in
    let same = same_claims c known in
    let due : some 4600 ≡ some expires = rw same at at in
    let early : ltb now 4600 ≡ true = ground (arith, due) in rw (text, key, early, same) refl

abbrev pub test_jwt : Jwt
test_jwt = record { sign = sign_one; parse = parse_one; parse-sign = parse_one-sign }
