-- ===== src/Controller/Newest.antt =====
-- Which job is the current one, and when sorting the jobs panics.
use mathlib.Core.List.{Mem, Memᴰ, Perm, Pairwise, rel_of_Pairwise-cons, mem-cons}
use mathlib.Core.List.Perm
use mathlib.Core.Logic.Or
use mathlib.Core.Bool.{false≢true}
use native.Mathlib.Bridge.{le_prop}
use reactivejob_operator.Prelude.{
  ◌≤◌, String, Bool, true, false, ◌≡◌, refl, sym, ◌∙◌, ap, List, ◌∷◌, length, arith, subst, ◌⊎◌,
  inl, inr, Option-cases,
}
use reactivejob_operator.Prelude.Int.{ℤ, pos, ◌≤ℤ◌, ltb_ℤ}
use reactivejob_operator.Strconv.{atoi}
use reactivejob_operator.Api.Types.{Job}
use reactivejob_operator.Kube.Library.{Library, IsLibrary, Outcome, ok, err, panic}
use reactivejob_operator.Controller.Hash.{must_atoi}
use reactivejob_operator.Controller.Objects.{generation_of, older}

-- The number that a generation annotation is read as, where it can be read.
abbrev pub number_of : Outcome ℤ → ℤ
number_of (ok a) = a
number_of (err e) = pos 0
number_of panic = pos 0

abbrev pub is_number : Outcome ℤ → Bool
is_number (ok a) = true
is_number (err e) = false
is_number panic = false

abbrev pub generation_number : {E : Type 0} → Job E → ℤ
generation_number x = number_of (must_atoi (generation_of x))

abbrev pub is_readable : {E : Type 0} → Job E → Bool
is_readable x = is_number (must_atoi (generation_of x))

must_atoi_cases : (s : String) → (must_atoi s ≡ panic) ⊎ ((a : ℤ) × (must_atoi s ≡ ok a))
unfolding must_atoi
must_atoi_cases s = elim (Option-cases (atoi s)) [
  | inl e ↦ inl (rw e refl)
  | inr (a, e) ↦ inr (a, rw e refl)
]

readable_number :
    {E : Type 0} (x : Job E)
    → is_readable x ≡ true
    → must_atoi (generation_of x) ≡ ok (generation_number x)
readable_number x h = elim (must_atoi_cases (generation_of x)) [
  | inl e ↦ absurd (false≢true (ap is_number (sym e) ∙ h))
  | inr (a, e) ↦ e ∙ ap (λ o. ok (number_of o)) (sym e)
]

module _ {E : Type 0} where
  older-readable :
      (x y : Job E) (a b : ℤ)
      → must_atoi (generation_of x) ≡ ok a
      → must_atoi (generation_of y) ≡ ok b
      → older x y ≡ ok (ltb_ℤ a b)
  unfolding older
  older-readable x y a b p q = rw (p, q) refl

  older-unreadable :
      (x y : Job E)
      → must_atoi (generation_of x) ≡ panic
      → (older x y ≡ panic) × (older y x ≡ panic)
  unfolding older
  older-unreadable x y p = elim (must_atoi_cases (generation_of y)) [
    | inl q ↦ (rw p refl, rw q refl)
    | inr (a, q) ↦ (rw p refl, rw (q, p) refl)
  ]

  below_head :
      (key : Job E → ℤ) (current : Job E) (old : List (Job E)) (x : Job E)
      → Pairwise (λ x y. key y ≤ℤ key x) (current ∷ old)
      → Mem x (current ∷ old)
      → key x ≤ℤ key current
  below_head key current old x falling m =
      Or.elim le_prop (mem-cons.0 m) (λ e. rw e (omega arith))
        (λ later. rel_of_Pairwise-cons falling later)

module _ {E : Type 0} (lib : Library E) (laws : IsLibrary lib) where
  -- If the generation of every listed job can be read, then sorting them does not panic: it returns
  -- the same jobs, and none has a higher generation than the first.
  pub newest_first :
      (items : List (Job E))
      → ((x : Job E) → Mem x items → is_readable x ≡ true)
      → (sorted : List (Job E)) × (lib.sort_by older items ≡ ok sorted)
        × Perm sorted items
        × ((current : Job E) (old : List (Job E))
            → sorted ≡ current ∷ old
            → (x : Job E) → Mem x items
            → generation_number x ≤ℤ generation_number current)
  newest_first items readable =
      let read : (x : Job E)
          → Mem x items
          → must_atoi (generation_of x) ≡ ok (generation_number x) =
        λ x m. readable_number x (readable x m) in
      let (sorted, e, perm, falling) = laws.sorts older generation_number items (λ x y mx my.
        older-readable x y (generation_number x) (generation_number y) (read x mx) (read y my)) in
      (
        sorted,
        e,
        perm,
        λ current old split x m.
            below_head generation_number current old x
              (subst (Pairwise (λ x y. generation_number y ≤ℤ generation_number x)) split falling)
              (subst (λ l. Mem x l) split ((Perm.mem_iff perm).1 m)),
      )

  -- If one of two or more listed jobs carries the operator's label and no readable generation, then
  -- sorting panics.
  pub unreadable_panics :
      (x : Job E) (items : List (Job E))
      → Memᴰ x items
      → 2 ≤ length items
      → must_atoi (generation_of x) ≡ panic
      → lib.sort_by older items ≡ panic
  unreadable_panics x items m two p =
      laws.sort_panics older x items m two (λ y. older-unreadable x y p)
