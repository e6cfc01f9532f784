-- ===== src/Memory/Slices.antt =====
-- Copies of slices and of pointers, made of the loop over the elements.
use reactivejob_operator.Prelude.{ℕ, ◌<◌, ◌≡◌, refl, ap, ◌∙◌, List, Option, none, some, arith}
use mathlib.Core.List.{head-eq_of_cons-eq}
use reactivejob_operator.Memory.{Heap, Memory, Kind, Slice, make, copy_each, copy_slice, deep_copy}
use reactivejob_operator.Memory.Layout.{Agrees, Layout, Extends, IsCopy}
use reactivejob_operator.Memory.Elements.{
  element, read_each, ReachesEach, read_each-Agrees, ReachesEach-Agrees, Written, copy_each-Written,
}

module _ {C V : Type 0} (kind : Kind C V) (L : Layout C V) where
  unfoldable pub read_slice : Heap C → Option Slice → Option (List L.Value)
  read_slice h none = none
  read_slice h (some s) = some (read_each kind L h s.start s.len)

  unfoldable pub ReachesSlice : Heap C → Option Slice → ℕ → Type 0
  ReachesSlice h none a = ⊥
  ReachesSlice h (some s) a = ReachesEach kind L h s.start s.len a

  pub read_slice-Agrees :
      (h k : Heap C) (s : Option Slice)
      → Agrees (ReachesSlice h s) h k
      → read_slice k s ≡ read_slice h s
  unfolding read_slice ReachesSlice
  read_slice-Agrees h k none same = refl
  read_slice-Agrees h k (some s) same = ap some (read_each-Agrees kind L h k s.len s.start same)

  pub ReachesSlice-Agrees :
      (h k : Heap C) (s : Option Slice)
      → Agrees (ReachesSlice h s) h k
      → (a : ℕ) → ReachesSlice k s a
      → ReachesSlice h s a
  unfolding ReachesSlice
  ReachesSlice-Agrees h k none same a r = r
  ReachesSlice-Agrees h k (some s) same a r = ReachesEach-Agrees kind L h k s.len s.start same a r

  abbrev pub slice : Layout C (Option Slice)
  slice = record {
    Value = Option (List L.Value);
    read = read_slice;
    Reaches = ReachesSlice;
    read-Agrees = read_slice-Agrees;
    Reaches-Agrees = ReachesSlice-Agrees;
  }

  -- `make` only gives out new cells.
  make-Extends : (h : Heap C) (n : ℕ) → Extends h (make kind n h).1
  make-Extends h n = (omega arith, λ a below. ground arith)

  made-Written :
      (copy : V → Memory C V)
      → IsCopy L copy
      → (h : Heap C) (source n : ℕ) → ((a : ℕ) → ReachesEach kind L h source n a → a < h.next)
      → Written kind L
          (make kind n h).1
          (copy_each kind copy source h.next n (make kind n h).1).1
          source
          h.next
          n
  made-Written copy copies h source n there =
      copy_each-Written kind L copy copies n source h.next (make kind n h).1
        (λ a r. there a (
          ReachesEach-Agrees kind L h (make kind n h).1 n source
            (λ b q. (make-Extends h n).1 b (there b q)) a r))
        (omega arith)

  pub copy_slice-IsCopy :
      (copy : V → Memory C V) → IsCopy L copy → IsCopy slice (copy_slice kind copy)
  unfolding copy_slice read_slice ReachesSlice
  copy_slice-IsCopy copy copies h none there =
      ((omega arith, λ a below. refl), refl, λ a r. absurd r)
  copy_slice-IsCopy copy copies h (some s) there =
      let w = made-Written copy copies h s.start s.len there in
      (
        (
          let more = w.grows in omega arith,
          λ a below. w.before a below ∙ (make-Extends h s.len).1 a below,
        ),
        ap some (
            w.same
            ∙ read_each-Agrees kind L h (make kind s.len h).1 s.len s.start
                (λ b q. (make-Extends h s.len).1 b (there b q))),
        w.fresh,
      )

  -- The one element of a block of length 1.
  only :
      (h k : Heap C) (p q : ℕ)
      → read_each kind L k q 1 ≡ read_each kind L h p 1
      → L.read k (element kind L k q) ≡ L.read h (element kind L h p)
  unfolding read_each
  only h k p q e = head-eq_of_cons-eq e

  -- A pointer to a variable of the type.
  unfoldable pub read_pointer : Heap C → Option ℕ → Option L.Value
  read_pointer h none = none
  read_pointer h (some p) = some (L.read h (element kind L h p))

  unfoldable pub ReachesPointer : Heap C → Option ℕ → ℕ → Type 0
  ReachesPointer h none a = ⊥
  ReachesPointer h (some p) a = ReachesEach kind L h p 1 a

  pub read_pointer-Agrees :
      (h k : Heap C) (p : Option ℕ)
      → Agrees (ReachesPointer h p) h k
      → read_pointer k p ≡ read_pointer h p
  unfolding read_pointer ReachesPointer
  read_pointer-Agrees h k none same = refl
  read_pointer-Agrees h k (some p) same =
      ap some (only h k p p (read_each-Agrees kind L h k 1 p same))

  pub ReachesPointer-Agrees :
      (h k : Heap C) (p : Option ℕ)
      → Agrees (ReachesPointer h p) h k
      → (a : ℕ) → ReachesPointer k p a
      → ReachesPointer h p a
  unfolding ReachesPointer
  ReachesPointer-Agrees h k none same a r = r
  ReachesPointer-Agrees h k (some p) same a r = ReachesEach-Agrees kind L h k 1 p same a r

  abbrev pub pointer : Layout C (Option ℕ)
  pointer = record {
    Value = Option L.Value;
    read = read_pointer;
    Reaches = ReachesPointer;
    read-Agrees = read_pointer-Agrees;
    Reaches-Agrees = ReachesPointer-Agrees;
  }

  pub deep_copy-IsCopy :
      (copy : V → Memory C V) → IsCopy L copy → IsCopy pointer (deep_copy kind copy)
  unfolding deep_copy copy_each read_pointer ReachesPointer
  deep_copy-IsCopy copy copies h none there =
      ((omega arith, λ a below. refl), refl, λ a r. absurd r)
  deep_copy-IsCopy copy copies h (some p) there =
      let w = made-Written copy copies h p 1 there in
      (
        (
          let more = w.grows in omega arith,
          λ a below. w.before a below ∙ (make-Extends h 1).1 a below,
        ),
        ap some (
            only h _ p _ (
              w.same
              ∙ read_each-Agrees kind L h (make kind 1 h).1 1 p
                  (λ b q. (make-Extends h 1).1 b (there b q)))),
        w.fresh,
      )
