-- ===== src/Prelude/Texts.antt =====
-- Texts: whether a character stands in one, and joined texts.
use Prim.Native.Char.{Char, code}
use Prim.Native.String.append
use Prim.Native.String.{String, ◌++◌ as concat}
use mathlib.Core.Path.{◌≡◌, refl}
use mathlib.Core.Bool.{Bool, true, false, ◌||◌}
use native.Mathlib.Omega.{arith}
use reactivejob_operator.Prelude.Tests.{◌==◌, if◌then◌else◌}

unfoldable pub has : Char → String → Bool
has d String.[] = false
has d (String.◌∷◌ c s) = let rest = has d s in if code c == code d then true else rest

pub concat-nil : (t : String) → concat "" t ≡ t
concat-nil t = append.nil t

pub concat-cons : (c : Char) (s t : String) → concat (String.◌∷◌ c s) t ≡ String.◌∷◌ c (concat s t)
concat-cons c s t = append.cons c s t

pub has-concat : (d : Char) (s t : String) → has d (concat s t) ≡ (has d s || has d t)
unfolding has
has-concat d String.[] t = rw concat-nil refl
has-concat d (String.◌∷◌ c s) t = rw concat-cons (ground (arith, has-concat d s t))
