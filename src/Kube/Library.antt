-- ===== src/Kube/Library.antt =====
-- Functions of other packages, with the documented behaviour that the operator relies on.
use mathlib.Core.List.{Mem, Memᴰ, Perm, Pairwise}
use mathlib.Core.Logic.{◌∨₁◌}
use reactivejob_operator.Prelude.{
  ℕ, ◌≤◌, String, ◌≡◌, ◌≢◌, ◌↔◌, Bool, true, Option, List, [], ◌∷◌, length,
}
use reactivejob_operator.Prelude.Int.{ℤ, ◌≤ℤ◌, ltb_ℤ}
use reactivejob_operator.Api.Types.{Job, JobTemplateSpec}
use reactivejob_operator.Kube.Server.{ApiError}

-- The errors of the operator: a client's, one that pkg/errors wraps with a message, and an aggregate
-- of one or two errors.
pub data Error : Type 0 where
  api : ApiError → Error
  wrap : String → Error → Error
  aggregate_one : Error → Error
  aggregate : Error → Error → Error

-- How a Go function ends: with a value and a nil error, with an error, or by a panic.
pub data Outcome (A : Type 0) : Type 0 where
  ok : A → Outcome A
  err : Error → Outcome A
  panic : Outcome A

pub record Library (E : Type 0) : Type 0 where
  -- `slices.Contains` and `slices.Remove` of go-generics, on strings
  pub contains : List String → String → Bool
  pub remove : List String → String → List String
  -- the finalizers of an object after `controllerutil.AddFinalizer` and `RemoveFinalizer`
  pub add_finalizer : List String → String → List String
  pub remove_finalizer : List String → String → List String
  -- `slices.SortBy` of go-generics; a panic of the comparison is one of the sort
  pub sort_by : (Job E → Job E → Outcome Bool) → List (Job E) → Outcome (List (Job E))
  -- `json.Marshal` and `sha256.Sum256`
  pub marshal : JobTemplateSpec E → Option (List ℕ)
  pub sum256 : List ℕ → List ℕ
  -- `err.Error()`
  pub error_text : Error → String

pub record IsLibrary {E : Type 0} (lib : Library E) : Type 0 where
  pub contains_iff : (l : List String) (f : String) → (lib.contains l f ≡ true) ↔ Mem f l
  pub mem-remove : (l : List String) (f g : String) → Mem g (lib.remove l f) ↔ (Mem g l × (g ≢ f))
  pub mem-add_finalizer :
      (l : List String) (f g : String) → Mem g (lib.add_finalizer l f) ↔ (Mem g l ∨₁ (g ≡ f))
  pub mem-remove_finalizer :
      (l : List String) (f g : String) → Mem g (lib.remove_finalizer l f) ↔ (Mem g l × (g ≢ f))
  -- Where the comparison is that of keys, the result is the list by falling keys: an element for
  -- which the comparison says true comes after the other.
  pub sorts :
      (before : Job E → Job E → Outcome Bool) (key : Job E → ℤ) (l : List (Job E))
      → ((x y : Job E) → Mem x l → Mem y l → before x y ≡ ok (ltb_ℤ (key x) (key y)))
      → (sorted : List (Job E)) × (lib.sort_by before l ≡ ok sorted)
        × Perm sorted l
        × Pairwise (λ x y. key y ≤ℤ key x) sorted
  -- It has no error among its results.
  pub sort_fine :
      (before : Job E → Job E → Outcome Bool) (l : List (Job E)) (e : Error)
      → lib.sort_by before l ≢ err e
  -- One element is compared with nothing, and of two or more each is compared with another.
  pub sort_one :
      (before : Job E → Job E → Outcome Bool) (x : Job E)
      → lib.sort_by before (x ∷ []) ≡ ok (x ∷ [])
  pub sort_panics :
      (before : Job E → Job E → Outcome Bool) (x : Job E) (l : List (Job E))
      → Memᴰ x l
      → 2 ≤ length l
      → ((y : Job E) → (before x y ≡ panic) × (before y x ≡ panic))
      → lib.sort_by before l ≡ panic
