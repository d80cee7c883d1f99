-- ===== src/Store/Driver.antt =====
-- What internal/sqlitestore relies on of the driver's error texts (modernc.org/sqlite), and the test
-- that it makes on them.
use gowallet.Prelude.{
  ℕ, ◌-◌, String, List, [], ◌∷◌, map, Bool, true, false, ◌&&◌, ◌||◌, ◌≡◌, leb, eqb, if◌then◌else◌,
}
use gowallet.Store.Queries.{Failure, unique_failed}
use Prim.Native.Char.{code}

abbrev pub codes : String → List ℕ
codes String.[] = []
codes (String.◌∷◌ c s) = code c ∷ codes s

-- `unicode.ToUpper`, exact where the result is ASCII: the small letters a to z, the dotless i and
-- the long s. Other characters never become ASCII, and are left as they are.
abbrev pub to_upper : ℕ → ℕ
to_upper c =
    if leb b'a' c && leb c b'z'
    then c - 32
    else if eqb c 0x131
    then b'I'
    else if eqb c 0x17f
    then b'S'
    else c

starts_with : List ℕ → List ℕ → Bool
starts_with s [] = true
starts_with [] (_ ∷ _) = false
starts_with (c ∷ s) (d ∷ t) = eqb c d && starts_with s t

-- `strings.Contains`
contains : List ℕ → List ℕ → Bool
unfolding starts_with
contains [] t = starts_with [] t
contains (c ∷ s) t = starts_with (c ∷ s) t || contains s t

-- `isUniqueViolation` on the error's text
unfoldable pub is_unique_violation : String → Bool
unfolding contains
is_unique_violation text = contains (map to_upper (codes text)) (codes "UNIQUE CONSTRAINT FAILED")

abbrev pub is_unique : Failure → Bool
is_unique unique_failed = true
is_unique _ = false

-- The text of each failure. Only that of a violated UNIQUE or PRIMARY KEY says
-- "UNIQUE constraint failed".
pub record Driver : Type 0 where
  pub text : Failure → String
  pub unique_text : (f : Failure) → is_unique_violation (text f) ≡ is_unique f
