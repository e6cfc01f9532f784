-- ===== src/Informers/Registry.antt =====
-- A Go map keyed by `reflect.Type`, as the factory uses it. A type is the text of its name.
use reactivejob_operator.Prelude.{
  ℕ, ◌+◌, String, ◌≡◌, refl, Bool, true, false, Option, none, some, List, [], ◌∷◌, str_eq, eq_iff,
  eq_refl, subst, ◌∙◌, if◌then◌else◌, arith, Bool-cases, inl, inr,
}

abbrev pub Registry : Type 0 → Type 0
Registry V = List (String × V)

abbrev pub is_some : {A : Type 0} → Option A → Bool
is_some none = false
is_some (some a) = true

-- A missing key of a map to Booleans reads as false.
abbrev pub or_false : Option Bool → Bool
or_false none = false
or_false (some b) = b

unfoldable pub count : String → List String → ℕ
count t [] = 0
count t (s ∷ l) = let n = count t l in if str_eq s t then n + 1 else n

module _ {V : Type 0} where
  unfoldable pub find : String → Registry V → Option V
  find t [] = none
  find t ((s, v) ∷ m) = let rest = find t m in if str_eq s t then some v else rest

  -- No key stands twice.
  abbrev pub IsMap : Registry V → Type 0
  IsMap [] = Unit
  IsMap ((t, v) ∷ m) = (find t m ≡ none) × IsMap m

  unfoldable pub put : String → V → Registry V → Registry V
  put t v [] = (t, v) ∷ []
  put t v ((s, u) ∷ m) = let rest = put t v m in if str_eq s t then (t, v) ∷ m else (s, u) ∷ rest

  pub find-put_same : (t : String) (v : V) (m : Registry V) → find t (put t v m) ≡ some v
  unfolding find put
  find-put_same t v [] = rw eq_refl refl
  find-put_same t v ((s, u) ∷ m) = ground (arith, eq_refl t, find-put_same t v m)

  pub find-put_other :
      (s t : String) (v : V) (m : Registry V) → str_eq t s ≡ false → find s (put t v m) ≡ find s m
  unfolding find put
  find-put_other s t v [] other = rw other refl
  find-put_other s t v ((r, u) ∷ m) other = elim (Bool-cases (str_eq r t)) [
    | inl same ↦ rw ((eq_iff r t).0 same, eq_refl t, other) refl
    | inr differs ↦ rw (differs, find-put_other s t v m other) refl
  ]

  pub find-put :
      (s t : String) (v : V) (m : Registry V)
      → find s (put t v m) ≡ (if str_eq t s then some v else find s m)
  find-put s t v m = elim (Bool-cases (str_eq t s)) [
    | inl same ↦ rw (same, ← (eq_iff t s).0 same) (find-put_same t v m)
    | inr other ↦ rw other (find-put_other s t v m other)
  ]

  pub put-IsMap : (t : String) (v : V) (m : Registry V) → IsMap m → IsMap (put t v m)
  unfolding put find
  put-IsMap t v [] h = (refl, tt)
  put-IsMap t v ((s, u) ∷ m) h = elim (Bool-cases (str_eq s t)) [
    | inl same ↦ rw same (subst (λ r. find r m ≡ none) ((eq_iff s t).0 same) h.0, h.1)
    | inr other ↦
        let differ : str_eq t s ≡ false = ground (arith, eq_iff s t, eq_iff t s) in
        rw other (find-put_other s t v m differ ∙ h.0, put-IsMap t v m h.1)
  ]
