-- ===== src/Tests/Sorting.antt =====
-- A sort that meets what is assumed of `slices.SortBy`: insertion, by falling keys.
use mathlib.Core.List.{
  Mem, Memᴰ, Perm, Pairwise, mem-cons, mem-cons_self, mem-cons_of_mem, not-mem-nil, Pairwise-cons,
}
use mathlib.Core.List.Perm
use mathlib.Core.Logic.Or
use native.Mathlib.Bridge.{le_prop}
use reactivejob_operator.Prelude.{
  ◌≤◌, ◌≡◌, ◌≢◌, refl, ap, subst, Bool, true, false, List, [], ◌∷◌, length, arith, Bool-cases, inl,
  inr,
}
use reactivejob_operator.Prelude.Int.{ℤ, ◌≤ℤ◌, ltb_ℤ}
use reactivejob_operator.Kube.Library.{Error, Outcome, ok, err, panic}

le_of_ltb : (a b : ℤ) → ltb_ℤ a b ≡ true → a ≤ℤ b
le_of_ltb a b h = ground arith

ge_of_ltb : (a b : ℤ) → ltb_ℤ a b ≡ false → b ≤ℤ a
ge_of_ltb a b h = ground arith

le_trans_ℤ : (a b c : ℤ) → a ≤ℤ b → b ≤ℤ c → a ≤ℤ c
le_trans_ℤ a b c h k = omega arith

module _ {A : Type 0} where
  abbrev pub prepend : A → Outcome (List A) → Outcome (List A)
  prepend y (ok ys) = ok (y ∷ ys)
  prepend y (err e) = panic
  prepend y panic = panic

  -- `after` is the comparison's answer: whether `x` comes after `y`.
  abbrev place_by : Outcome Bool → A → A → List A → Outcome (List A) → Outcome (List A)
  place_by (ok true) x y ys rest = prepend y rest
  place_by (ok false) x y ys rest = ok (x ∷ y ∷ ys)
  place_by (err e) x y ys rest = panic
  place_by panic x y ys rest = panic

  pub place : (A → A → Outcome Bool) → A → List A → Outcome (List A)
  place before x [] = ok (x ∷ [])
  place before x (y ∷ ys) = place_by (before x y) x y ys (place before x ys)

  abbrev place_in : (A → A → Outcome Bool) → A → Outcome (List A) → Outcome (List A)
  place_in before x (ok ys) = place before x ys
  place_in before x (err e) = panic
  place_in before x panic = panic

  unfoldable pub sort : (A → A → Outcome Bool) → List A → Outcome (List A)
  unfolding place
  sort before [] = ok []
  sort before (x ∷ xs) = place_in before x (sort before xs)

  place-fine :
      (before : A → A → Outcome Bool) (x : A) (ys : List A) (e : Error) → place before x ys ≢ err e
  unfolding place
  place-fine before x [] e p = ground (arith, p)
  place-fine before x (y ∷ ys) e p = ground (arith, p)

  place_in-fine :
      (before : A → A → Outcome Bool) (x : A) (r : Outcome (List A)) (e : Error)
      → place_in before x r ≢ err e
  place_in-fine before x (ok ys) e p = place-fine before x ys e p
  place_in-fine before x (err _) e p = ground (arith, p)
  place_in-fine before x panic e p = ground (arith, p)

  pub sort-fine : (before : A → A → Outcome Bool) (l : List A) (e : Error) → sort before l ≢ err e
  unfolding sort
  sort-fine before [] e p = ground (arith, p)
  sort-fine before (x ∷ xs) e p = place_in-fine before x (sort before xs) e p

  module _ (before : A → A → Outcome Bool) (key : A → ℤ) where
    place-sorting :
        (x : A) (ys : List A)
        → ((y : A) → Mem y ys → before x y ≡ ok (ltb_ℤ (key x) (key y)))
        → Pairwise (λ x y. key y ≤ℤ key x) ys
        → (r : List A) × (place before x ys ≡ ok r)
          × Perm r (x ∷ ys)
          × Pairwise (λ x y. key y ≤ℤ key x) r
    unfolding place
    place-sorting x [] h s =
        (x ∷ [], refl, Perm.refl _, Pairwise-cons.1 ((λ a m. absurd (not-mem-nil m)), s))
    place-sorting x (y ∷ ys) h s =
        let (rest, e, perm, falling) =
          place-sorting x ys (λ z m. h z (mem-cons_of_mem y m)) (Pairwise-cons.0 s).1 in
        elim (Bool-cases (ltb_ℤ (key x) (key y))) [
          | inl lower ↦ (
            y ∷ rest,
            rw (h y mem-cons_self, lower, e) refl,
            Perm.trans (Perm.cons y perm) (Perm.swap x y ys),
            Pairwise-cons.1 (
              (λ z m.
                  Or.elim le_prop (mem-cons.0 ((Perm.mem_iff perm).0 m))
                    (λ e. rw e (le_of_ltb (key x) (key y) lower)) ((Pairwise-cons.0 s).0 z)),
              falling,
            ),
          )
          | inr higher ↦ (
            x ∷ y ∷ ys,
            rw (h y mem-cons_self, higher) refl,
            Perm.refl _,
            Pairwise-cons.1 (
              (λ z m.
                  Or.elim le_prop (mem-cons.0 m) (λ e. rw e (ge_of_ltb (key x) (key y) higher))
                    (λ later.
                      le_trans_ℤ (key z) (key y) (key x) ((Pairwise-cons.0 s).0 z later)
                        (ge_of_ltb (key x) (key y) higher))),
              s,
            ),
          )
        ]

    pub sort-sorts :
        (l : List A)
        → ((x y : A) → Mem x l → Mem y l → before x y ≡ ok (ltb_ℤ (key x) (key y)))
        → (r : List A) × (sort before l ≡ ok r) × Perm r l × Pairwise (λ x y. key y ≤ℤ key x) r
    unfolding sort
    sort-sorts [] h = ([], refl, Perm.refl _, Pairwise.nil)
    sort-sorts (x ∷ xs) h =
        let (ys, e, perm, falling) =
          sort-sorts xs (λ a b ma mb. h a b (mem-cons_of_mem x ma) (mem-cons_of_mem x mb)) in
        let (r, e', perm', falling') =
          place-sorting x ys
            (λ y m. h x y mem-cons_self (mem-cons_of_mem x ((Perm.mem_iff perm).0 m))) falling in
        (r, rw e e', Perm.trans perm' (Perm.cons x perm), falling')

  pub sort_one : (before : A → A → Outcome Bool) (x : A) → sort before (x ∷ []) ≡ ok (x ∷ [])
  unfolding sort
  sort_one before x = refl

  module _ (before : A → A → Outcome Bool) (x : A)
      (stuck : (y : A) → (before x y ≡ panic) × (before y x ≡ panic)) where
    place-panics : (ys : List A) → ys ≢ [] → place before x ys ≡ panic
    unfolding place
    place-panics [] h = absurd (h refl)
    place-panics (y ∷ ys) h = rw (stuck y).0 refl

  place-ne-nil : (before : A → A → Outcome Bool) (x : A) (ys : List A) → place before x ys ≢ ok []
  unfolding place
  place-ne-nil before x [] = λ e. cc e
  place-ne-nil before x (y ∷ ys) = ground arith

  place_in-panics :
      (before : A → A → Outcome Bool) (x : A) (r : Outcome (List A))
      → ((y : A) → (before x y ≡ panic) × (before y x ≡ panic))
      → r ≢ ok []
      → place_in before x r ≡ panic
  place_in-panics before x (ok ys) stuck h = place-panics before x stuck ys (λ e. h (ap ok e))
  place_in-panics before x (err e) stuck h = refl
  place_in-panics before x panic stuck h = refl

  place_in-ne-nil :
      (before : A → A → Outcome Bool) (x : A) (r : Outcome (List A)) → place_in before x r ≢ ok []
  place_in-ne-nil before x (ok ys) = place-ne-nil before x ys
  place_in-ne-nil before x (err e) = λ p. cc p
  place_in-ne-nil before x panic = λ p. cc p

  -- A sort of two or more panics where one of them cannot be compared.
  pub sort_panics :
      (before : A → A → Outcome Bool) (x : A) (l : List A)
      → Memᴰ x l
      → 2 ≤ length l
      → ((y : A) → (before x y ≡ panic) × (before y x ≡ panic))
      → sort before l ≡ panic
  unfolding sort
  sort_panics before x [] m two stuck = elim m [ ]
  sort_panics before x (z ∷ []) m two stuck = absurd (omega arith)
  sort_panics before x (z ∷ y ∷ []) (Memᴰ.head e) two stuck = rw (← e, (stuck y).0) refl
  sort_panics before x (z ∷ y ∷ []) (Memᴰ.tail (Memᴰ.head e)) two stuck = rw (← e, (stuck z).1) refl
  sort_panics before x (z ∷ y ∷ []) (Memᴰ.tail (Memᴰ.tail m)) two stuck = elim m [ ]
  sort_panics before x (z ∷ y ∷ w ∷ ws) (Memᴰ.head e) two stuck =
      subst (λ a. place_in before a (sort before (y ∷ w ∷ ws)) ≡ panic) e
        (place_in-panics before x (sort before (y ∷ w ∷ ws)) stuck
          (place_in-ne-nil before y (sort before (w ∷ ws))))
  sort_panics before x (z ∷ y ∷ w ∷ ws) (Memᴰ.tail m) two stuck =
      rw (sort_panics before x (y ∷ w ∷ ws) m (omega arith) stuck) refl
