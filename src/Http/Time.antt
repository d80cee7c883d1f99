-- ===== src/Http/Time.antt =====
-- `time.Parse(time.RFC3339, s)`: year, month, day, hour, minute and second, a fraction, and Z or an
-- offset. The hour may have one digit, and the fraction may follow a comma, as Go's parser allows.
use Prim.Native.Char.{code}
use gowallet.Prelude.{
  ℕ, zero, suc, ◌+◌, ◌-◌, ◌*◌, ◌/◌, ◌%◌, ◌^◌, String, Option, none, some, Bool, true, false, ◌&&◌,
  ◌||◌, not, leb, ltb, eqb, if◌then◌else◌,
}
use gowallet.Wallet.{Time}
use gowallet.Http.Text.{is_digit}

infixl 5 ◌>>=◌
abbrev ◌>>=◌ : {A B : Type 0} → Option A → (A → Option B) → Option B
none >>= f = none
some a >>= f = f a

abbrev require : Bool → Option (Unit {0})
require true = some tt
require false = none

infixl 5 ◌>>◌
abbrev ◌>>◌ : {B : Type 0} → Option (Unit {0}) → Option B → Option B
m >> k = m >>= λ _. k

-- The next digit, with the rest.
digit : String → Option (ℕ × String)
digit String.[] = none
digit (String.◌∷◌ c s) = if is_digit (code c) then some (code c - b'0', s) else none

-- One character, which the layout says.
literal : ℕ → String → Option String
literal want String.[] = none
literal want (String.◌∷◌ c s) = if eqb (code c) want then some s else none

two_digits : String → Option (ℕ × String)
unfolding digit
two_digits s = do (a, s1) ← digit s; (b, s2) ← digit s1; some (a * 10 + b, s2)

-- `getnum(s, false)`
one_or_two_digits : String → Option (ℕ × String)
unfolding digit
one_or_two_digits s = do
  (a, s1) ← digit s
  elim (digit s1) [ none ↦ some (a, s1) | some (b, s2) ↦ some (a * 10 + b, s2) ]

four_digits : String → Option (ℕ × String)
unfolding two_digits
four_digits s = do (a, s1) ← two_digits s; (b, s2) ← two_digits s1; some (a * 100 + b, s2)

-- The digits at the front, at most `room` of them counted and the rest passed over; the counted ones
-- are scaled up to `room` places.
fraction_digits : ℕ → ℕ → String → ℕ × String
fraction_digits room n String.[] = (n * 10 ^ room, String.[])
fraction_digits zero n (String.◌∷◌ c s) =
    let rest = fraction_digits zero n s in if is_digit (code c) then rest else (n, String.◌∷◌ c s)
fraction_digits (suc room) n (String.◌∷◌ c s) =
    let rest = fraction_digits room (n * 10 + (code c - b'0')) s in
    if is_digit (code c) then rest else (n * 10 ^ suc room, String.◌∷◌ c s)

abbrev starts_with_digit : String → Bool
starts_with_digit String.[] = false
starts_with_digit (String.◌∷◌ c s) = is_digit (code c)

-- The nanoseconds of a fraction, which is optional.
fraction : String → ℕ × String
unfolding fraction_digits
fraction String.[] = (0, String.[])
fraction (String.◌∷◌ c s) =
    if (eqb (code c) b'.' || eqb (code c) b',') && starts_with_digit s
    then fraction_digits 9 0 s
    else (0, String.◌∷◌ c s)

abbrev end_of : String → Option (Unit {0})
end_of String.[] = some tt
end_of _ = none

-- An offset's minutes and seconds east, at `+` or `-`.
offset_hm : String → Option ℕ
unfolding two_digits literal
offset_hm s = do
  (hours, s1) ← two_digits s
  s2 ← literal b':' s1
  (minutes, s3) ← two_digits s2
  require (leb hours 24 && leb minutes 60)
  end_of s3
  some (hours * 3600 + minutes * 60)

-- The zone ends the text. It shifts a local second to UTC.
to_utc : ℕ → String → Option ℕ
unfolding offset_hm
to_utc sec String.[] = none
to_utc sec (String.◌∷◌ c s) =
    if eqb (code c) b'Z'
    then (do end_of s; some sec)
    else if eqb (code c) b'+'
    then (do east ← offset_hm s; some (sec - east))
    else if eqb (code c) b'-'
    then (do west ← offset_hm s; some (sec + west))
    else none

unfoldable pub is_leap : ℕ → Bool
is_leap y = eqb (y % 4) 0 && (not (eqb (y % 100) 0) || eqb (y % 400) 0)

abbrev pub days_in : ℕ → ℕ → ℕ
days_in y m =
    if eqb m 2
    then (if is_leap y then 29 else 28)
    else if eqb m 4 || eqb m 6 || eqb m 9 || eqb m 11
    then 30
    else 31

days_before : ℕ → ℕ → ℕ
unfolding is_leap
days_before y zero = 0
days_before y (suc zero) = 0
days_before y (suc (suc m)) = days_before y (suc m) + days_in y (suc m)

-- Days since the year -400 began; that year is a leap year, so the count of leap days starts with it.
unfoldable pub days_from_civil : ℕ → ℕ → ℕ → ℕ
unfolding days_before
days_from_civil y m d =
    let n = y + 400 in
    n * 365 + (n + 3) / 4 - (n + 99) / 100 + (n + 399) / 400 + days_before y m + (d - 1)

-- `time.Parse(time.RFC3339, s)`; none is an error.
unfoldable pub parse_time : String → Option Time
unfolding two_digits one_or_two_digits four_digits literal fraction to_utc days_from_civil
parse_time s = do
  (year, s1) ← four_digits s
  s2 ← literal b'-' s1
  (month, s3) ← two_digits s2
  s4 ← literal b'-' s3
  (day, s5) ← two_digits s4
  s6 ← literal b'T' s5
  (hour, s7) ← one_or_two_digits s6
  s8 ← literal b':' s7
  (minute, s9) ← two_digits s8
  s10 ← literal b':' s9
  (second, s11) ← two_digits s10
  require (leb 1 month && leb month 12 && leb 1 day && leb day (days_in year month))
  require (ltb hour 24 && ltb minute 60 && ltb second 60)
  let (nsec, s12) = fraction s11
  sec ← to_utc (days_from_civil year month day * 86400 + hour * 3600 + minute * 60 + second) s12
  some (record { sec = sec; nsec = nsec })
