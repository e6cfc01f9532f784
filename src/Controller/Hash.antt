-- ===== src/Controller/Hash.antt =====
-- internal/controllers/utils.go: `mustAtoi` and `jsonHash`, with `hex.EncodeToString` and what
-- calls them with a panic for an error.
use reactivejob_operator.Prelude.{
  ◌≢◌, arith, ℕ, zero, suc, ◌/◌, ◌%◌, Char, String, Option, none, some, List, [], ◌∷◌,
}
use reactivejob_operator.Prelude.Int.{ℤ}
use reactivejob_operator.Strconv.{atoi, digit}
use reactivejob_operator.Api.Types.{JobTemplateSpec}
use reactivejob_operator.Kube.Library.{Library, Error, Outcome, ok, err, panic}

abbrev pub or_panic : {A : Type 0} → Option A → Outcome A
or_panic none = panic
or_panic (some a) = ok a

unfoldable pub must_atoi : String → Outcome ℤ
must_atoi s = or_panic (atoi s)

-- The letter of a hexadecimal digit from 10 on.
letter : ℕ → Char
letter zero = "a"
letter (suc zero) = "b"
letter (suc (suc zero)) = "c"
letter (suc (suc (suc zero))) = "d"
letter (suc (suc (suc (suc zero)))) = "e"
letter _ = "f"

hex_digit : ℕ → Char
unfolding digit letter
hex_digit (suc (suc (suc (suc (suc (suc (suc (suc (suc (suc n)))))))))) = letter n
hex_digit n = digit n

-- `hex.EncodeToString`: two characters for a byte, the high half first.
hex : List ℕ → String
unfolding hex_digit
hex [] = ""
hex (b ∷ bs) = String.◌∷◌ (hex_digit (b / 16)) (String.◌∷◌ (hex_digit (b % 16)) (hex bs))

module _ {E : Type 0} (lib : Library E) where
  must_to_json : JobTemplateSpec E → Outcome (List ℕ)
  must_to_json template = or_panic (lib.marshal template)

  sum_hex : Outcome (List ℕ) → Outcome String
  sum_hex (ok raw) = ok (hex (lib.sum256 raw))
  sum_hex (err e) = err e
  sum_hex panic = panic

  unfoldable pub json_hash : JobTemplateSpec E → Outcome String
  unfolding must_to_json sum_hex hex
  json_hash template = sum_hex (must_to_json template)

  pub json_hash-fine : (template : JobTemplateSpec E) (e : Error) → json_hash template ≢ err e
  unfolding json_hash
  json_hash-fine template e p = ground (arith, p)
