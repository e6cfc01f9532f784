-- ===== src/Strconv.antt =====
-- What the operator uses of Go's strconv: `FormatInt(n, 10)` and `Atoi`, on a 64-bit platform.
-- internal/controllers/utils.go (`mustAtoi`) and main.go (`parseAddress`) read numbers with `Atoi`.
pub mod RoundTrip
use reactivejob_operator.Prelude.{
  ℕ, zero, suc, ◌+◌, ◌-◌, ◌*◌, ◌/◌, ◌%◌, ◌^◌, Char, code, String, Option, none, some, ◌&&◌, Bool,
  ltb, leb, ◌==◌, if◌then◌else◌,
}
use reactivejob_operator.Prelude.Int.{ℤ, pos, negsuc}

-- The character of a decimal digit.
unfoldable pub digit : ℕ → Char
digit zero = "0"
digit (suc zero) = "1"
digit (suc (suc zero)) = "2"
digit (suc (suc (suc zero))) = "3"
digit (suc (suc (suc (suc zero)))) = "4"
digit (suc (suc (suc (suc (suc zero))))) = "5"
digit (suc (suc (suc (suc (suc (suc zero)))))) = "6"
digit (suc (suc (suc (suc (suc (suc (suc zero))))))) = "7"
digit (suc (suc (suc (suc (suc (suc (suc (suc zero)))))))) = "8"
digit _ = "9"

-- The digits of a number in front of a text. The first argument is fuel: one more than the number
-- is enough.
digits : ℕ → ℕ → String → String
digits zero n out = out
digits (suc f) n out =
    let more = digits f (n / 10) (String.◌∷◌ (digit (n % 10)) out) in
    if ltb n 10 then String.◌∷◌ (digit n) out else more

format_uint : ℕ → String
unfolding digits digit
format_uint n = digits (suc n) n ""

-- `strconv.FormatInt(n, 10)`
unfoldable pub format_int : ℤ → String
unfolding format_uint
format_int (pos n) = format_uint n
format_int (negsuc n) = String.◌∷◌ "-" (format_uint (suc n))

unfoldable pub is_digit : ℕ → Bool
is_digit c = leb b'0' c && leb c b'9'

-- The number that a text of digits spells after a number; `none` at any other character.
scan : String → ℕ → Option ℕ
unfolding is_digit
scan String.[] n = some n
scan (String.◌∷◌ c s) n = if is_digit (code c) then scan s (n * 10 + (code c - b'0')) else none

-- One or more digits, at most `limit`.
parse_uint : ℕ → String → Option ℕ
unfolding scan
parse_uint limit String.[] = none
parse_uint limit (String.◌∷◌ c s) = elim (scan (String.◌∷◌ c s) 0) [
  | none ↦ none
  | some n ↦ if leb n limit then some n else none
]

negate : ℕ → ℤ
negate zero = pos 0
negate (suc n) = negsuc n

-- The largest `int`, of 64 bits.
abbrev pub max_int : ℕ
max_int = 2 ^ 63 - 1

signed : Option ℕ → (ℕ → ℤ) → Option ℤ
signed none f = none
signed (some n) f = some (f n)

-- `strconv.Atoi`: an optional sign and digits, within 64 bits; `none` is its error.
unfoldable pub atoi : String → Option ℤ
unfolding parse_uint signed negate
atoi String.[] = none
atoi (String.◌∷◌ c s) =
    if code c == b'-'
    then signed (parse_uint (max_int + 1) s) negate
    else if code c == b'+'
    then signed (parse_uint max_int s) pos
    else signed (parse_uint max_int (String.◌∷◌ c s)) pos
