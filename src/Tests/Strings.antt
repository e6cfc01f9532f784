-- ===== src/Tests/Strings.antt =====
-- Lists of strings as go-generics and controllerutil treat them.
use mathlib.Core.List.{
  Mem, mem-cons, mem-cons_self, mem-cons_of_mem, not-mem-nil, mem-append, Mem-prop,
}
use mathlib.Core.Logic.Or
use mathlib.Core.Logic.{◌∨₁◌, ∨₁_prop}
use mathlib.Core.HLevel.{×_prop, ¬_prop}
use mathlib.Core.Bool.{false≢true}
use reactivejob_operator.Prelude.{
  String, ◌≡◌, ◌≢◌, refl, sym, ◌∙◌, ◌↔◌, Bool, true, false, List, [], ◌∷◌, ◌++◌, str_eq, eq_iff,
  eq_refl, Bool-cases, inl, inr, if◌then◌else◌,
}

unfoldable pub contains : List String → String → Bool
contains [] f = false
contains (x ∷ xs) f = if str_eq x f then true else contains xs f

unfoldable pub remove : List String → String → List String
remove [] f = []
remove (x ∷ xs) f = let rest = remove xs f in if str_eq x f then rest else x ∷ rest

unfoldable pub add : List String → String → List String
unfolding contains
add l f = if contains l f then l else l ++ f ∷ []

pub test_prop : (b : Bool) → IsProp (b ≡ true)
test_prop b = hlevel

pub contains_iff : (l : List String) (f : String) → (contains l f ≡ true) ↔ Mem f l
unfolding contains
contains_iff [] f = (λ e. cc e, λ m. absurd (not-mem-nil m))
contains_iff (x ∷ xs) f = elim (Bool-cases (str_eq x f)) [
  | inl same ↦ (λ _. rw ((eq_iff x f).0 same) mem-cons_self, λ _. rw same refl)
  | inr other ↦ (
    λ e. mem-cons_of_mem x ((contains_iff xs f).0 (rw other at e)),
    λ m.
        Or.elim (test_prop _) (mem-cons.0 m) (λ e. rw (sym e, eq_refl) refl)
          (λ later. rw other ((contains_iff xs f).1 later)),
  )
]

kept_prop : (l : List String) (f g : String) → IsProp (Mem g l × (g ≢ f))
kept_prop l f g = ×_prop Mem-prop (¬_prop)

pub mem-remove : (l : List String) (f g : String) → Mem g (remove l f) ↔ (Mem g l × (g ≢ f))
unfolding remove
mem-remove [] f g = (λ m. absurd (not-mem-nil m), λ p. absurd (not-mem-nil p.0))
mem-remove (x ∷ xs) f g = elim (Bool-cases (str_eq x f)) [
  | inl same ↦ (
    λ m. let kept = (mem-remove xs f g).0 (rw same at m) in (mem-cons_of_mem x kept.0, kept.1),
    λ p.
        Or.elim Mem-prop (mem-cons.0 p.0) (λ e. absurd (p.1 (e ∙ (eq_iff x f).0 same)))
          (λ later. rw same ((mem-remove xs f g).1 (later, p.1))),
  )
  | inr other ↦ (
    λ m.
        Or.elim (kept_prop (x ∷ xs) f g) (mem-cons.0 (rw other at m))
          (λ e. (mem-cons.1 (Or.inl e), λ e'. false≢true (sym other ∙ (eq_iff x f).1 (sym e ∙ e'))))
          (λ later. let kept = (mem-remove xs f g).0 later in (mem-cons_of_mem x kept.0, kept.1)),
    λ p.
        Or.elim Mem-prop (mem-cons.0 p.0) (λ e. rw other (mem-cons.1 (Or.inl e)))
          (λ later. rw other (mem-cons_of_mem x ((mem-remove xs f g).1 (later, p.1)))),
  )
]

pub mem-add : (l : List String) (f g : String) → Mem g (add l f) ↔ (Mem g l ∨₁ (g ≡ f))
unfolding add
mem-add l f g = elim (Bool-cases (contains l f)) [
  | inl has ↦ (
    λ m. Or.inl (rw has at m),
    λ d. rw has (Or.elim Mem-prop d (λ m. m) (λ e. rw e ((contains_iff l f).0 has))),
  )
  | inr hasnt ↦ (
    λ m.
        Or.elim ∨₁_prop (mem-append.0 (rw hasnt at m)) Or.inl
          (λ last. Or.elim ∨₁_prop (mem-cons.0 last) Or.inr (λ n. absurd (not-mem-nil n))),
    λ d. rw hasnt (mem-append.1 (Or.elim ∨₁_prop d Or.inl (λ e. Or.inr (mem-cons.1 (Or.inl e))))),
  )
]
