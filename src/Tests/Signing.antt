-- ===== src/Tests/Signing.antt =====
-- A signer of any claims: its token spells them out.
use Prim.Native.Char.{Char, code}
use gowallet.Prelude.{
  ℕ, zero, suc, ◌<◌, String, ◌≡◌, refl, Option, none, some, List, [], ◌∷◌, Bool, true, Result, ok,
  err, arith, any, ltb, eqb, ◌==◌, ◌&&◌, if◌then◌else◌,
}
use gowallet.Http.Jwt.{Jwt, Claims}

-- Each character after an `x`, and two points at the end.
abbrev pub spell : String → String → String
spell String.[] rest = String.◌∷◌ "." (String.◌∷◌ "." rest)
spell (String.◌∷◌ c s) rest = String.◌∷◌ "x" (String.◌∷◌ c (spell s rest))

push : Char → Option (String × String) → Option (String × String)
push c none = none
push c (some (s, rest)) = some (String.◌∷◌ c s, rest)

read : String → Option (String × String)
unfolding push
read String.[] = none
read (String.◌∷◌ m String.[]) = none
read (String.◌∷◌ m (String.◌∷◌ c s)) =
    let rest = read s in if eqb (code m) b'.' then some (String.[], s) else push c rest

read-spell : (s rest : String) → read (spell s rest) ≡ some (s, rest)
unfolding read push
read-spell String.[] rest = refl
read-spell (String.◌∷◌ c s) rest = rw (read-spell s rest) refl

abbrev pub count : ℕ → String → String
count zero rest = String.◌∷◌ "." rest
count (suc n) rest = String.◌∷◌ "x" (count n rest)

one_more : Option (ℕ × String) → Option (ℕ × String)
one_more none = none
one_more (some (n, rest)) = some (suc n, rest)

read_count : String → Option (ℕ × String)
unfolding one_more
read_count String.[] = none
read_count (String.◌∷◌ m s) =
    let more = read_count s in if eqb (code m) b'.' then some (0, s) else one_more more

read_count-count : (n : ℕ) (rest : String) → read_count (count n rest) ≡ some (n, rest)
unfolding read_count one_more
read_count-count zero rest = refl
read_count-count (suc n) rest = rw (read_count-count n rest) refl

abbrev pub tag : Option ℕ → ℕ
tag none = zero
tag (some n) = suc n

abbrev pub untag : ℕ → Option ℕ
untag zero = none
untag (suc n) = some n

untag-tag : (o : Option ℕ) → untag (tag o) ≡ o
untag-tag none = refl
untag-tag (some n) = refl

abbrev pub spelled : Claims → String
spelled c =
    spell c.role (spell c.subject (count (tag c.issued_at) (count (tag c.expires_at) String.[])))

abbrev claims : String → String → ℕ → ℕ → Claims
claims role subject issued expires = record {
  role = role;
  subject = subject;
  issued_at = untag issued;
  expires_at = untag expires;
}

then_read : {A B : Type 0} → Option (A × String) → (A → String → Option B) → Option B
then_read none f = none
then_read (some (a, rest)) f = f a rest

unfoldable pub read_claims : String → Option Claims
unfolding read read_count then_read
read_claims token = then_read (read token) (λ role r1. then_read (read r1) (λ subject r2.
    then_read (read_count r2) (λ issued r3.
      then_read (read_count r3) (λ expires r4. some (claims role subject issued expires)))))

read_claims-spelled : (c : Claims) → read_claims (spelled c) ≡ some c
unfolding then_read read_claims
read_claims-spelled c =
    rw
      (
        read-spell c.role
            (spell c.subject (count (tag c.issued_at) (count (tag c.expires_at) String.[]))),
        read-spell c.subject (count (tag c.issued_at) (count (tag c.expires_at) String.[])),
        read_count-count (tag c.issued_at) (count (tag c.expires_at) String.[]),
        read_count-count (tag c.expires_at) String.[],
        untag-tag c.issued_at,
        untag-tag c.expires_at,
      )
      refl

abbrev pub is_live : ℕ → Option ℕ → Bool
is_live now none = true
is_live now (some expires) = ltb now expires

abbrev pub accept : List String → ℕ → Option Claims → Result String Claims
accept methods now none = err "token is malformed"
accept methods now (some c) =
    if any (λ m. "HS256" == m) methods && is_live now c.expires_at
    then ok c
    else err "token is invalid"

abbrev pub signed_text : Claims → Result String String
signed_text c = ok (spelled c)

pub signed_again :
    (secret raw : String) (c : Claims) (now expires : ℕ)
    → signed_text c ≡ ok raw
    → c.expires_at ≡ some expires
    → now < expires
    → accept ("HS256" ∷ []) now (read_claims raw) ≡ ok c
signed_again secret raw c now expires signed at live =
    let same : spelled c ≡ raw = ground (arith, signed) in
    let early : ltb now expires ≡ true = ground arith in
    let in_time : is_live now c.expires_at ≡ true = rw at early in
    rw (← same) (rw (read_claims-spelled c, in_time) refl)

abbrev pub spelling_jwt : Jwt
spelling_jwt = record {
  sign = λ secret c. ok (spelled c);
  parse = λ methods secret now raw. accept methods now (read_claims raw);
  parse-sign = signed_again;
}
