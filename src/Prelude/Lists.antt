-- ===== src/Prelude/Lists.antt =====
-- Lists measured and updated by native numbers, and predicates that hold of every element.
use Prim.Native.Nat.{ℕ, zero, suc, ◌+◌, ◌-◌}
use mathlib.Core.Path.{◌≡◌, refl, ap}
use native.Mathlib.Omega.{arith}
use mathlib.Core.List.{List, [], ◌∷◌, ◌++◌}

module _ {ℓ} {A : Type ℓ} where
  abbrev pub length : List A → ℕ
  length [] = 0
  length (x ∷ xs) = suc (length xs)

  -- The element at an index is replaced by its image; out of range nothing changes.
  abbrev pub modify : List A → ℕ → (A → A) → List A
  modify [] i f = []
  modify (x ∷ xs) zero f = f x ∷ xs
  modify (x ∷ xs) (suc i) f = x ∷ modify xs i f

  abbrev pub All {κ} : (A → Type κ) → List A → Type κ
  All P [] = Unit
  All P (x ∷ xs) = P x × All P xs

  pub All-append {κ} :
      (P : A → Type κ) (front back : List A) → All P back → All P front → All P (front ++ back)
  All-append P [] back all none_before = all
  All-append P (first ∷ front) back all (holds, others) =
      (holds, All-append P front back all others)

  pub length-append : (xs ys : List A) → length (xs ++ ys) ≡ length xs + length ys
  length-append [] ys = omega arith
  length-append (x ∷ xs) ys = omega (arith, length-append xs ys)

  pub modify-length :
      (xs : List A) (x : A) (f : A → A) → modify (xs ++ x ∷ []) (length xs) f ≡ xs ++ f x ∷ []
  modify-length [] x f = refl
  modify-length (y ∷ xs) x f = ap (λ l. y ∷ l) (modify-length xs x f)

  -- The last element is replaced by its image.
  pub modify_last :
      (xs : List A) (x : A) (f : A → A)
      → modify (xs ++ x ∷ []) (length (xs ++ x ∷ []) - 1) f ≡ xs ++ f x ∷ []
  modify_last xs x f =
      let e : length (xs ++ x ∷ []) - 1 ≡ length xs = omega (arith, length-append xs (x ∷ [])) in
      rw e (modify-length xs x f)
