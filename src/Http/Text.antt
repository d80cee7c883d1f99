-- ===== src/Http/Text.antt =====
-- The parts of Go's strings and strconv packages that internal/httpapi reads text with, over the
-- code points of a string.
use Prim.Native.Char.{Char, code}
use gowallet.Prelude.{
  ℕ, ◌+◌, ◌-◌, ◌*◌, String, Option, none, some, Bool, true, false, ◌&&◌, ◌||◌, leb, ltb, eqb,
  if◌then◌else◌,
}
use gowallet.Prelude.Int.{ℤ, pos, sub_ℕ, int64_limit}

-- `unicode.IsSpace`
unfoldable pub is_space : ℕ → Bool
is_space c =
    leb 9 c && leb c 13
    || eqb c 0x20
    || eqb c 0x85
    || eqb c 0xa0
    || eqb c 0x1680
    || leb 0x2000 c && leb c 0x200a
    || eqb c 0x2028
    || eqb c 0x2029
    || eqb c 0x202f
    || eqb c 0x205f
    || eqb c 0x3000

trim_left : String → String
unfolding is_space
trim_left String.[] = String.[]
trim_left (String.◌∷◌ c s) =
    let rest = trim_left s in if is_space (code c) then rest else String.◌∷◌ c s

abbrev push_unless : Bool → Char → String → String
push_unless space c String.[] = if space then String.[] else String.◌∷◌ c String.[]
push_unless space c (String.◌∷◌ d s) = String.◌∷◌ c (String.◌∷◌ d s)

trim_right : String → String
unfolding is_space
trim_right String.[] = String.[]
trim_right (String.◌∷◌ c s) = push_unless (is_space (code c)) c (trim_right s)

-- `strings.TrimSpace`
unfoldable pub trim_space : String → String
unfolding trim_left trim_right
trim_space s = trim_right (trim_left s)

abbrev pub is_digit : ℕ → Bool
is_digit c = leb b'0' c && leb c b'9'

-- The value of a text that is all digits, on top of those read before.
unfoldable pub digits_from : ℕ → String → Option ℕ
digits_from n String.[] = some n
digits_from n (String.◌∷◌ c s) =
    let rest = digits_from (n * 10 + (code c - b'0')) s in if is_digit (code c) then rest else none

unfoldable pub unsigned : String → Option ℕ
unfolding digits_from
unsigned String.[] = none
unsigned (String.◌∷◌ c s) = digits_from 0 (String.◌∷◌ c s)

-- The range checks of ParseInt at 64 bits, on a magnitude and its sign.
abbrev pub in_int64 : Bool → Option ℕ → Option ℤ
in_int64 negative none = none
in_int64 false (some n) = if ltb n int64_limit then some (pos n) else none
in_int64 true (some n) = if leb n int64_limit then some (sub_ℕ 0 n) else none

-- `strconv.ParseInt(s, 10, 64)`; none is an error.
unfoldable pub parse_int : String → Option ℤ
unfolding unsigned
parse_int String.[] = none
parse_int (String.◌∷◌ c s) =
    if eqb (code c) b'+'
    then in_int64 false (unsigned s)
    else if eqb (code c) b'-'
    then in_int64 true (unsigned s)
    else in_int64 false (unsigned (String.◌∷◌ c s))
