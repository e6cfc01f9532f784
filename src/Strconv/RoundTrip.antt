-- ===== src/Strconv/RoundTrip.antt =====
-- `Atoi` reads back what `FormatInt` prints.
use reactivejob_operator.Prelude.{
  ℕ, zero, suc, ◌+◌, ◌*◌, ◌/◌, ◌%◌, ◌≤◌, ◌<◌, Char, code, String, ◌≡◌, refl, ◌≢◌, some, arith, has,
  ltb, false, Bool-cases, inl, inr,
}
use reactivejob_operator.Prelude.Int.{ℤ, pos, negsuc}
use reactivejob_operator.Strconv.{
  digit, digits, format_uint, format_int, is_digit, scan, parse_uint, max_int, atoi,
}

code-digit : (n : ℕ) → n < 10 → code (digit n) ≡ b'0' + n
unfolding digit
code-digit zero h = refl
code-digit (suc zero) h = refl
code-digit (suc (suc zero)) h = refl
code-digit (suc (suc (suc zero))) h = refl
code-digit (suc (suc (suc (suc zero)))) h = refl
code-digit (suc (suc (suc (suc (suc zero))))) h = refl
code-digit (suc (suc (suc (suc (suc (suc zero)))))) h = refl
code-digit (suc (suc (suc (suc (suc (suc (suc zero))))))) h = refl
code-digit (suc (suc (suc (suc (suc (suc (suc (suc zero)))))))) h = refl
code-digit (suc (suc (suc (suc (suc (suc (suc (suc (suc zero))))))))) h = refl
code-digit (suc (suc (suc (suc (suc (suc (suc (suc (suc (suc n)))))))))) h = absurd (omega arith)

-- Reading the digit `d` after `n` gives `n * 10 + d`.
scan-digit : (d n : ℕ) (s : String) → d < 10 → scan (String.◌∷◌ (digit d) s) n ≡ scan s (n * 10 + d)
unfolding scan
scan-digit d n s h = ground (arith, code-digit d h)

-- Reading the digits of `n` gives `n`.
scan-digits : (f n : ℕ) (out : String) → n < f → scan (digits f n out) 0 ≡ scan out n
unfolding digits
scan-digits zero n out h = elim h [ ]
scan-digits (suc f) n out h = ground (
  arith,
  scan-digit n 0 out,
  scan-digit (n % 10) (n / 10) out,
  scan-digits f (n / 10) (String.◌∷◌ (digit (n % 10)) out),
)

-- A printed number begins with a digit.
digits_begin :
    (f n : ℕ) (out : String)
    → n < f
    → (d : ℕ) × (s : String) × (d < 10) × (digits f n out ≡ String.◌∷◌ (digit d) s)
unfolding digits
digits_begin zero n out h = elim h [ ]
digits_begin (suc f) n out h = elim (Bool-cases (ltb n 10)) [
  | inl small ↦ (n, out, ground arith, rw small)
  | inr large ↦ rw large (digits_begin f (n / 10) (String.◌∷◌ (digit (n % 10)) out) (ground arith))
]

parse_uint-scan :
    (limit n d : ℕ) (s : String)
    → scan (String.◌∷◌ (digit d) s) 0 ≡ some n
    → n ≤ limit
    → parse_uint limit (String.◌∷◌ (digit d) s) ≡ some n
unfolding parse_uint
parse_uint-scan limit n d s read fits = rw (read, parse_uint) (ground arith)

scan-format_uint : (n : ℕ) → scan (format_uint n) 0 ≡ some n
unfolding format_uint scan
scan-format_uint n = scan-digits (suc n) n "" (omega arith)

parse_uint-format_uint : (limit n : ℕ) → n ≤ limit → parse_uint limit (format_uint n) ≡ some n
unfolding format_uint
parse_uint-format_uint limit n fits =
    let (d, s, small, begins) = digits_begin (suc n) n "" (omega arith) in
    rw begins (parse_uint-scan limit n d s (rw begins at (scan-format_uint n)) fits)

-- What an `int64` can hold.
abbrev pub InRange : ℤ → Type 0
InRange (pos n) = n ≤ max_int
InRange (negsuc n) = n ≤ max_int

-- A text that begins with a digit is read with no sign.
atoi-unsigned :
    (d n : ℕ) (s : String)
    → d < 10
    → parse_uint max_int (String.◌∷◌ (digit d) s) ≡ some n
    → atoi (String.◌∷◌ (digit d) s) ≡ some (pos n)
unfolding atoi
atoi-unsigned d n s small read = ground (arith, code-digit d small)

atoi_pos : (n : ℕ) → n ≤ max_int → atoi (format_uint n) ≡ some (pos n)
unfolding format_uint
atoi_pos n fits =
    let (d, s, small, begins) = digits_begin (suc n) n "" (omega arith) in
    rw begins (atoi-unsigned d n s small (rw begins at (parse_uint-format_uint max_int n fits)))

atoi_minus :
    (n : ℕ) (s : String)
    → parse_uint (max_int + 1) s ≡ some (suc n)
    → atoi (String.◌∷◌ "-" s) ≡ some (negsuc n)
unfolding atoi
atoi_minus n s read = ground arith

-- Every `int64` is read back from its decimal print.
pub atoi-format_int : (z : ℤ) → InRange z → atoi (format_int z) ≡ some z
unfolding format_int
atoi-format_int (pos n) fits = atoi_pos n fits
atoi-format_int (negsuc n) fits =
    atoi_minus n (format_uint (suc n)) (parse_uint-format_uint (max_int + 1) (suc n) (omega arith))

has-digit :
    (d : Char) (n : ℕ) (s : String)
    → n < 10
    → is_digit (code d) ≡ false
    → has d (String.◌∷◌ (digit n) s) ≡ has d s
unfolding has is_digit
has-digit d n s h other = ground (arith, code-digit n h)

has-digits :
    (d : Char) (f n : ℕ) (out : String)
    → is_digit (code d) ≡ false
    → has d (digits f n out) ≡ has d out
unfolding digits
has-digits d zero n out other = refl
has-digits d (suc f) n out other = ground (
  arith,
  has-digit d n out,
  has-digit d (n % 10) out,
  has-digits d f (n / 10) (String.◌∷◌ (digit (n % 10)) out) other,
)

-- A printed number consists of digits, with a sign in front if it is negative.
pub has-format_int :
    (d : Char) (z : ℤ) → is_digit (code d) ≡ false → code d ≢ b'-' → has d (format_int z) ≡ false
unfolding format_int format_uint has
has-format_int d (pos n) other minus = has-digits d (suc n) n "" other
has-format_int d (negsuc n) other minus =
    ground (arith, has-digits d (suc (suc n)) (suc n) "" other)
