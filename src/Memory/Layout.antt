-- ===== src/Memory/Layout.antt =====
-- How values lie in memory: what is read from them, which cells they reach, and what a deep copy is.
use reactivejob_operator.Prelude.{ℕ, ◌≤◌, ◌<◌, ◌≡◌, refl, ◌∙◌, ◌⊎◌, inl, inr, arith}
use reactivejob_operator.Memory.{Heap, Memory}

abbrev pub Agrees : {C : Type 0} → (ℕ → Type 0) → Heap C → Heap C → Type 0
Agrees On h k = (a : ℕ) → On a → k.cell a ≡ h.cell a

-- A value reads the same, and reaches no further cell, in every heap that agrees on the cells it reaches.
pub record Layout (C V : Type 0) : Type 1 where
  pub Value : Type 0
  pub read : Heap C → V → Value
  pub Reaches : Heap C → V → ℕ → Type 0
  pub read-Agrees : (h k : Heap C) (v : V) → Agrees (Reaches h v) h k → read k v ≡ read h v
  pub Reaches-Agrees :
      (h k : Heap C) (v : V) → Agrees (Reaches h v) h k → (a : ℕ) → Reaches k v a → Reaches h v a

within : {b c d : ℕ} (a : ℕ) → (b ≤ a) × (a < c) → c ≤ d → (b ≤ a) × (a < d)
within a (low, high) e = (low, omega arith)

after : {b c d : ℕ} (a : ℕ) → (c ≤ a) × (a < d) → b ≤ c → (b ≤ a) × (a < d)
after a (low, high) e = (omega arith, high)

module _ {C : Type 0} where
  -- What is held in the value itself.
  abbrev pub held : {V A : Type 0} → (V → A) → Layout C V
  held {A = A} f = record {
    Value = A;
    read = λ h v. f v;
    Reaches = λ h v a. ⊥;
    read-Agrees = λ h k v same. refl;
    Reaches-Agrees = λ h k v same a r. r;
  }

  abbrev pub part : {V W : Type 0} → (V → W) → Layout C W → Layout C V
  part f L = record {
    Value = L.Value;
    read = λ h v. L.read h (f v);
    Reaches = λ h v a. L.Reaches h (f v) a;
    read-Agrees = λ h k v same. L.read-Agrees h k (f v) same;
    Reaches-Agrees = λ h k v same a r. L.Reaches-Agrees h k (f v) same a r;
  }

  infixr 5 ◌and◌
  abbrev pub ◌and◌ : {V : Type 0} → Layout C V → Layout C V → Layout C V
  L and M = record {
    Value = L.Value × M.Value;
    read = λ h v. (L.read h v, M.read h v);
    Reaches = λ h v a. L.Reaches h v a ⊎ M.Reaches h v a;
    read-Agrees = λ h k v same. λ i. (
      L.read-Agrees h k v (λ b q. same b (inl q)) i,
      M.read-Agrees h k v (λ b q. same b (inr q)) i,
    );
    Reaches-Agrees = λ h k v same a r. elim r [
      | inl l ↦ inl (L.Reaches-Agrees h k v (λ b q. same b (inl q)) a l)
      | inr m ↦ inr (M.Reaches-Agrees h k v (λ b q. same b (inr q)) a m)
    ];
  }

  -- The cells that `h` has given out are in `k` as they were.
  abbrev pub Extends : Heap C → Heap C → Type 0
  Extends h k = (h.next ≤ k.next) × Agrees (λ a. a < h.next) h k

  pub Extends-Extends : (h k l : Heap C) → Extends h k → Extends k l → Extends h l
  Extends-Extends h k l (grows, keeps) (grows', keeps') =
      (omega arith, λ a below. keeps' a (omega arith) ∙ keeps a below)

  module _ {V : Type 0} (L : Layout C V) where
    -- All cells that the value reaches have been given out.
    abbrev pub IsAllocated : Heap C → V → Type 0
    IsAllocated h v = (a : ℕ) → L.Reaches h v a → a < h.next

    -- `w` in the heap `k` is a deep copy of `v` in the heap `h`: every cell of `h` is as it was, `w` reads
    -- as `v` did, and `w` reaches only cells that `h` had not given out.
    abbrev pub Copied : Heap C → Heap C → V → V → Type 0
    Copied h k v w =
        Extends h k
        × (L.read k w ≡ L.read h v)
        × ((a : ℕ) → L.Reaches k w a → (h.next ≤ a) × (a < k.next))

    abbrev pub IsCopy : (V → Memory C V) → Type 0
    IsCopy copy = (h : Heap C) (v : V) → IsAllocated h v → Copied h (copy v h).1 v (copy v h).0

    pub read-Extends :
        (h k : Heap C) (v : V) → IsAllocated h v → Extends h k → L.read k v ≡ L.read h v
    read-Extends h k v there (_, keeps) = L.read-Agrees h k v (λ a r. keeps a (there a r))

    pub IsAllocated-Extends :
        (h k : Heap C) (v : V) → IsAllocated h v → Extends h k → IsAllocated k v
    IsAllocated-Extends h k v there (grows, keeps) a r =
        let below = there a (L.Reaches-Agrees h k v (λ b q. keeps b (there b q)) a r) in omega arith

  -- A struct is copied by copying the two parts of it, one after the other.
  pub Copied-and :
      {V : Type 0} (L M : Layout C V) (h k l : Heap C) (v w : V)
      → IsAllocated (L and M) h v
      → Copied L h k v w
      → (IsAllocated M k v → Copied M k l v w)
      → Copied (L and M) h l v w
  Copied-and L M h k l v w there (extends, same, fresh) later =
      let (extends', same', fresh') =
        later (IsAllocated-Extends M h k v (λ a r. there a (inr r)) extends) in
      (
        Extends-Extends h k l extends extends',
        λ i. (
          (read-Extends L k l w (λ a r. (fresh a r).1) extends' ∙ same) i,
          (same' ∙ read-Extends M h k v (λ a r. there a (inr r)) extends) i,
        ),
        λ a r. elim r [
          | inl q ↦
              within a (fresh a (L.Reaches-Agrees k l w (λ b t. extends'.1 b (fresh b t).1) a q))
                extends'.0
          | inr q ↦ after a (fresh' a q) extends.0
        ],
      )

  -- The first part may be what the struct itself holds.
  pub Copied-held :
      {V A : Type 0} (f : V → A) (M : Layout C V) (h k : Heap C) (v w : V)
      → f w ≡ f v
      → IsAllocated (held f and M) h v
      → (IsAllocated M h v → Copied M h k v w)
      → Copied (held f and M) h k v w
  Copied-held f M h k v w e there later =
      Copied-and (held f) M h h k v w there ((omega arith, λ a below. refl), e, λ a r. absurd r)
        later

  -- Writes to cells that the copy reaches do not show in the original, and writes to cells that the
  -- heap had given out before do not show in the copy.
  pub Copied-separate :
      {V : Type 0} (L : Layout C V) (h k l m : Heap C) (v w : V)
      → IsAllocated L h v
      → Copied L h k v w
      → Agrees (λ a. ¬ L.Reaches k w a) k l
      → Agrees (λ a. h.next ≤ a) k m
      → (L.read l v ≡ L.read h v) × (L.read m w ≡ L.read h v)
  Copied-separate L h k l m v w there ((grows, keeps), same, fresh) others later = (
    L.read-Agrees h l v
        (λ a r. others a (λ q. apart (there a r) (fresh a q).0) ∙ keeps a (there a r)),
    L.read-Agrees k m w (λ a r. later a (fresh a r).0) ∙ same,
  )
    where
      apart : {a b : ℕ} → a < b → b ≤ a → ⊥
      apart low high = omega arith
