-- ===== src/Base/Decimal.antt =====
-- `%d` of Go's package `fmt`, and `strconv.Atoi`.
pub mod RoundTrip
use Prim.Native.Nat.{ℕ, zero, suc, ◌+◌, ◌-◌, ◌*◌, ◌/◌, ◌%◌, ◌^◌}
use Prim.Native.Char.{Char, code}
use Prim.Native.String.{String, [], ◌∷◌, ◌++◌ as ◌<>◌}
use mathlib.Core.Path.{◌≡◌, refl}
use mathlib.Core.Bool.{◌||◌}
use solr_collections_operato.Base.Logic.{ltb, eqb, if◌then◌else◌}
use solr_collections_operato.Base.Int.{ℤ, pos, negsuc}

-- The character of a digit.
unfoldable pub digit : ℕ → Char
digit zero = "0"
digit (suc zero) = "1"
digit (suc (suc zero)) = "2"
digit (suc (suc (suc zero))) = "3"
digit (suc (suc (suc (suc zero)))) = "4"
digit (suc (suc (suc (suc (suc zero))))) = "5"
digit (suc (suc (suc (suc (suc (suc zero)))))) = "6"
digit (suc (suc (suc (suc (suc (suc (suc zero))))))) = "7"
digit (suc (suc (suc (suc (suc (suc (suc (suc zero)))))))) = "8"
digit _ = "9"

-- The decimal digits of a number, the last one at the end; the fuel bounds their number.
unfoldable pub digits : ℕ → ℕ → String
unfolding digit
digits zero n = digit n ∷ []
digits (suc fuel) n =
    let front = digits fuel (n / 10) in
    if ltb n 10 then digit n ∷ [] else front <> (digit (n % 10) ∷ [])

-- %d of a number that is not negative; a number below 2⁶⁴ has at most twenty digits.
unfoldable pub decimal : ℕ → String
unfolding digits
decimal n = digits n n

-- %d
unfoldable pub show_int : ℤ → String
show_int (pos n) = decimal n
show_int (negsuc n) = "-" <> decimal (n + 1)

-- What `strconv.ParseUint` finds: a value, a character that is no digit, or a value of 2⁶⁴ or more.
pub data Scan : Type 0 where
  value : ℕ → Scan
  syntax_error : Scan
  range_error : Scan

-- The loop of `strconv.ParseUint` in base ten.
unfoldable pub parse_uint : String → ℕ → Scan
parse_uint [] n = value n
parse_uint (c ∷ s) n =
    let rest = parse_uint s (n * 10 + (code c - b'0')) in
    if ltb (code c) b'0' || ltb b'9' (code c)
    then syntax_error
    else if ltb (n * 10 + (code c - b'0')) (2 ^ 64)
    then rest
    else range_error

-- The value that `strconv.Atoi` returns beside its error: 0 on a syntax error, and the nearest value
-- of `int` on a range error.
abbrev clamp_pos : Scan → ℤ
clamp_pos (value n) = if ltb n (2 ^ 63) then pos n else pos (2 ^ 63 - 1)
clamp_pos syntax_error = pos 0
clamp_pos range_error = pos (2 ^ 63 - 1)

abbrev clamp_neg : Scan → ℤ
clamp_neg (value zero) = pos 0
clamp_neg (value (suc n)) = if ltb n (2 ^ 63) then negsuc n else negsuc (2 ^ 63 - 1)
clamp_neg syntax_error = pos 0
clamp_neg range_error = negsuc (2 ^ 63 - 1)

-- At least one digit has to follow the sign.
abbrev scan_digits : String → Scan
scan_digits [] = syntax_error
scan_digits (c ∷ s) = parse_uint (c ∷ s) 0

-- strconv.Atoi, its error ignored
unfoldable pub atoi : String → ℤ
atoi [] = pos 0
atoi (c ∷ s) =
    if eqb (code c) b'-'
    then clamp_neg (scan_digits s)
    else if eqb (code c) b'+'
    then clamp_pos (scan_digits s)
    else clamp_pos (scan_digits (c ∷ s))

show_atoi_tests :
    (show_int (pos 1205) ≡ "1205")
    × (show_int (negsuc 6) ≡ "-7")
    × (atoi "-00120" ≡ negsuc 119)
    × (atoi "1_2" ≡ pos 0)
    × (atoi "99999999999999999999x" ≡ pos 9223372036854775807)
unfolding show_int decimal atoi parse_uint
show_atoi_tests = (refl, refl, refl, refl, refl)
