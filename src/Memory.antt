-- ===== src/Memory.antt =====
-- The memory that api/v1alpha1/zz_generated.deepcopy.go works on: a heap of cells, pointers into it,
-- and functions that read and change it.
pub mod Layout
pub mod Elements
pub mod Slices
use reactivejob_operator.Prelude.{
  ℕ, zero, suc, Option, none, some, ◌+◌, ◌==◌, ◌≡◌, ltb, leb, ◌&&◌, if◌then◌else◌,
}

-- The addresses from `next` on have not been given out.
pub record Heap (C : Type 0) : Type 0 where
  pub next : ℕ
  pub cell : ℕ → C

abbrev pub Memory : Type 0 → Type 0 → Type 0
Memory C A = Heap C → A × Heap C

abbrev pub pure : {C A : Type 0} → A → Memory C A
pure a h = (a, h)

infixl 5 ◌>>=◌ ◌>>◌
abbrev pub ◌>>=◌ : {C A B : Type 0} → Memory C A → (A → Memory C B) → Memory C B
◌>>=◌ m k h = k (m h).0 (m h).1

abbrev pub ◌>>◌ : {C B : Type 0} → Memory C (Unit {0}) → Memory C B → Memory C B
◌>>◌ m k = m >>= λ _. k

-- A slice: the address of its first element and its length; `none` is the nil slice.
pub record Slice : Type 0 where
  pub start : ℕ
  pub len : ℕ

-- The values of one Go type as contents of cells. Go loads from an address only at the type of its cell;
-- `content` of another cell, which no typed program asks for, is the zero value.
pub record Kind (C V : Type 0) : Type 0 where
  pub in_cell : V → C
  pub content : C → V
  pub zero_value : V
  pub content-in_cell : (v : V) → content (in_cell v) ≡ v

module _ {C V : Type 0} (kind : Kind C V) where
  -- `*p`
  abbrev pub load : ℕ → Memory C V
  load p h = (kind.content (h.cell p), h)

  -- `*p = v`
  abbrev pub store : ℕ → V → Memory C (Unit {0})
  store p v h = (tt, record h { cell = λ a. if a == p then kind.in_cell v else h.cell a })

  -- `make([]V, n)`, the address of the first element; `new(V)` is one element.
  abbrev pub make : ℕ → Memory C ℕ
  make n h = (
    h.next,
    record {
      next = h.next + n;
      cell = λ a.
          if leb h.next a && ltb a (h.next + n) then kind.in_cell kind.zero_value else h.cell a;
    },
  )

  module _ (copy : V → Memory C V) where
    -- `for i := range *in { (*in)[i].DeepCopyInto(&(*out)[i]) }` from two addresses on, `n` times.
    unfoldable pub copy_each : ℕ → ℕ → ℕ → Memory C (Unit {0})
    copy_each source target zero = pure tt
    copy_each source target (suc n) = do
      v ← load source
      w ← copy v
      store target w
      copy_each (suc source) (suc target) n

    -- `if *in != nil` around `*out = make(…)` and the loop over the elements; the nil slice stays nil.
    unfoldable pub copy_slice : Option Slice → Memory C (Option Slice)
    copy_slice none = pure none
    copy_slice (some s) = do
      target ← make s.len
      copy_each s.start target s.len
      pure (some (record { start = target; len = s.len }))

    -- `DeepCopy` of a pointer receiver: nil, or a new variable that `DeepCopyInto` fills.
    unfoldable pub deep_copy : Option ℕ → Memory C (Option ℕ)
    deep_copy none = pure none
    deep_copy (some p) = do out ← make 1; v ← load p; w ← copy v; store out w; pure (some out)
