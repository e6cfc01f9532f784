-- ===== src/Memory/Elements.antt =====
-- The loop that copies the elements of a slice, one address after the other.
use reactivejob_operator.Prelude.{
  ℕ, zero, suc, ◌+◌, ◌==◌, ◌≤◌, ◌<◌, ◌≡◌, ◌≢◌, refl, ap, ◌∙◌, subst, ◌⊎◌, inl, inr, List, [], ◌∷◌,
  arith, if◌then◌else◌,
}
use reactivejob_operator.Memory.{Heap, Memory, Kind, store, copy_each}
use reactivejob_operator.Memory.Layout.{Agrees, Layout, Copied, IsCopy}

module _ {C V : Type 0} (kind : Kind C V) (L : Layout C V) where
  abbrev pub element : Heap C → ℕ → V
  element h p = kind.content (h.cell p)

  unfoldable pub read_each : Heap C → ℕ → ℕ → List L.Value
  read_each h p zero = []
  read_each h p (suc n) = L.read h (element h p) ∷ read_each h (suc p) n

  unfoldable pub ReachesEach : Heap C → ℕ → ℕ → ℕ → Type 0
  ReachesEach h p zero a = ⊥
  ReachesEach h p (suc n) a = (p ≡ a) ⊎ (L.Reaches h (element h p) a ⊎ ReachesEach h (suc p) n a)

  pub read_each-Agrees :
      (h k : Heap C) (n p : ℕ) → Agrees (ReachesEach h p n) h k → read_each k p n ≡ read_each h p n
  unfolding read_each ReachesEach
  read_each-Agrees h k zero p same = refl
  read_each-Agrees h k (suc n) p same =
      let e = ap kind.content (same p (inl refl)) in
      λ i.
        (ap (L.read k) e ∙ L.read-Agrees h k (element h p) (λ a r. same a (inr (inl r)))) i
        ∷ read_each-Agrees h k n (suc p) (λ a r. same a (inr (inr r))) i

  pub ReachesEach-Agrees :
      (h k : Heap C) (n p : ℕ)
      → Agrees (ReachesEach h p n) h k
      → (a : ℕ) → ReachesEach k p n a
      → ReachesEach h p n a
  unfolding ReachesEach
  ReachesEach-Agrees h k zero p same a r = r
  ReachesEach-Agrees h k (suc n) p same a (inl e) = inl e
  ReachesEach-Agrees h k (suc n) p same a (inr (inl r)) =
      let e = ap kind.content (same p (inl refl)) in
      inr (
        inl (
          L.Reaches-Agrees h k (element h p) (λ b q. same b (inr (inl q))) a
            (subst (λ v. L.Reaches k v a) e r)))
  ReachesEach-Agrees h k (suc n) p same a (inr (inr r)) =
      inr (inr (ReachesEach-Agrees h k n (suc p) (λ b q. same b (inr (inr q))) a r))

  -- What the loop leaves behind: the target block reads as the source block did, it reaches the block
  -- itself and new cells, and no cell before the block or between it and `next` has changed.
  pub record Written (h k : Heap C) (source target n : ℕ) : Type 0 where
    pub grows : h.next ≤ k.next
    pub before : (a : ℕ) → a < target → k.cell a ≡ h.cell a
    pub behind : (a : ℕ) → target + n ≤ a → a < h.next → k.cell a ≡ h.cell a
    pub same : read_each k target n ≡ read_each h source n
    pub fresh : (a : ℕ) → ReachesEach k target n a → (target ≤ a) × (a < k.next)

  abbrev stored : ℕ → V → Heap C → Heap C
  stored p v h = (store kind p v h).1

  stored-other : (p : ℕ) (v : V) (h : Heap C) (a : ℕ) → a ≢ p → (stored p v h).cell a ≡ h.cell a
  stored-other p v h a other = ground arith

  element-stored : (p : ℕ) (v : V) (h : Heap C) → element (stored p v h) p ≡ v
  element-stored p v h =
      ap kind.content (cell-if (kind.in_cell v) (h.cell p) p) ∙ kind.content-in_cell v
    where
      cell-if : (x y : C) (q : ℕ) → (if q == q then x else y) ≡ x
      cell-if x y q = ground arith

  -- One turn of the loop: a copy of the element at `source`, stored at `target`.
  module _ (h k : Heap C) (source target n : ℕ) (w : V)
      (there : (a : ℕ) → ReachesEach h source (suc n) a → a < target)
      (room : target + suc n ≤ h.next) (copied : Copied L h k (element h source) w) where
    turn-below : (a : ℕ) → a < h.next → a ≢ target → (stored target w k).cell a ≡ h.cell a
    turn-below a below other = stored-other target w k a other ∙ copied.0.1 a below

    turn-rest : Agrees (ReachesEach h (suc source) n) h (stored target w k)
    unfolding ReachesEach
    turn-rest a r = let low = there a (inr (inr r)) in turn-below a (omega arith) (λ e. omega arith)

    turn-there : (a : ℕ) → ReachesEach (stored target w k) (suc source) n a → a < suc target
    unfolding ReachesEach
    turn-there a r =
        let low = there a (inr (inr (ReachesEach-Agrees h _ n (suc source) turn-rest a r))) in
        omega arith

    turn-room : suc target + n ≤ (stored target w k).next
    turn-room = let (grows, keeps) = copied.0 in omega arith

    module _ (l : Heap C) (rest : Written (stored target w k) l (suc source) (suc target) n) where
      turn-grows : k.next ≤ l.next
      turn-grows = rest.grows

      turn-kept : Agrees (λ a. (h.next ≤ a) × (a < k.next)) k l
      turn-kept a (low, high) =
          rest.behind a (omega arith) high ∙ stored-other target w k a (λ e. omega arith)

      turn-element : element l target ≡ w
      turn-element = ap kind.content (rest.before target (omega arith)) ∙ element-stored target w k

      turn-fresh : (a : ℕ) → ReachesEach l target (suc n) a → (target ≤ a) × (a < l.next)
      unfolding ReachesEach
      turn-fresh a (inl e) =
          let (grows, keeps) = copied.0 in let more = turn-grows in (omega arith, omega arith)
      turn-fresh a (inr (inl r)) =
          let (low, high) = copied.2 a (
            L.Reaches-Agrees k l w (λ b q. turn-kept b (copied.2 b q)) a
              (subst (λ v. L.Reaches l v a) turn-element r)) in
          let more = turn-grows in (omega arith, omega arith)
      turn-fresh a (inr (inr r)) = let (low, high) = rest.fresh a r in (omega arith, high)

      turn-Written : Written h l source target (suc n)
      unfolding read_each ReachesEach
      turn-Written = record {
        grows = let (grows, keeps) = copied.0 in let more = turn-grows in omega arith;
        before =
            λ a low. rest.before a (omega arith) ∙ turn-below a (omega arith) (λ e. omega arith);
        behind = λ a low high.
            rest.behind a (omega arith) (let (grows, keeps) = copied.0 in omega arith)
            ∙ turn-below a high (λ e. omega arith);
        same = λ i.
            (ap (L.read l) turn-element
                ∙ L.read-Agrees k l w (λ a r. turn-kept a (copied.2 a r))
                ∙ copied.1)
              i
            ∷ (rest.same ∙ read_each-Agrees h (stored target w k) n (suc source) turn-rest) i;
        fresh = turn-fresh;
      }

  pub copy_each-Written :
      (copy : V → Memory C V)
      → IsCopy L copy
      → (n source target : ℕ) (h : Heap C) → ((a : ℕ) → ReachesEach h source n a → a < target)
      → target + n ≤ h.next
      → Written h (copy_each kind copy source target n h).1 source target n
  unfolding copy_each read_each ReachesEach
  copy_each-Written copy copies zero source target h there room = record {
    grows = omega arith;
    before = λ a low. refl;
    behind = λ a low high. refl;
    same = refl;
    fresh = λ a r. absurd r;
  }
  copy_each-Written copy copies (suc n) source target h there room =
      let (w, k) = copy (element h source) h in
      let copied =
        copies h (element h source) (λ a r. let low = there a (inr (inl r)) in omega arith) in
      let rest =
        copy_each-Written copy copies n (suc source) (suc target) (stored target w k)
          (turn-there h k source target n w there room copied)
          (turn-room h k source target n w there room copied) in
      turn-Written h k source target n w there room copied _ rest
