-- ===== src/Api/DeepCopy/Separate.antt =====
-- DeepCopy and DeepCopyObject of api/v1alpha1/zz_generated.deepcopy.go make copies that share no memory.
use reactivejob_operator.Prelude.{ℕ, ◌≤◌, ◌≡◌, refl, Option, none, some}
use reactivejob_operator.Memory.{Heap, deep_copy}
use reactivejob_operator.Memory.Layout.{Layout, Agrees, IsAllocated, Copied, Copied-separate}
use reactivejob_operator.Memory.Slices.{pointer, deep_copy-IsCopy}
use reactivejob_operator.Api.Stored.{Embedded, Cell, reactive_job_kind, list_kind}
use reactivejob_operator.Api.DeepCopy.{
  Apimachinery, reactive_job_object, copy_reactive_job_into, copy_list_into, copy_reactive_job,
  copy_list, copy_reactive_job_object,
}
use reactivejob_operator.Api.DeepCopy.Laws.{
  IsApimachinery, reactive_job, list, copy_reactive_job_into-IsCopy, copy_list_into-IsCopy,
}

module _ {K : Embedded} {lib : Apimachinery K} (laws : IsApimachinery lib) where
  abbrev pub reactive_job_pointer : Layout (Cell K) (Option ℕ)
  reactive_job_pointer = pointer reactive_job_kind (reactive_job laws)

  abbrev pub list_pointer : Layout (Cell K) (Option ℕ)
  list_pointer = pointer list_kind (list laws)

  -- Let the embedded types' own deep copies be deep copies, and let all that a ReactiveJob reaches be
  -- allocated. Then DeepCopy changes no cell that the heap had given out; its result reads as the
  -- ReactiveJob did, with the nil pointer for nil, and reaches only cells that are new.
  pub copy_reactive_job-Copied :
      (h : Heap (Cell K)) (p : Option ℕ)
      → IsAllocated reactive_job_pointer h p
      → Copied reactive_job_pointer h (copy_reactive_job lib p h).1 p (copy_reactive_job lib p h).0
  copy_reactive_job-Copied h p there =
      deep_copy-IsCopy reactive_job_kind (reactive_job laws) (copy_reactive_job_into lib)
        (copy_reactive_job_into-IsCopy laws) h p there

  copy_list-Copied :
      (h : Heap (Cell K)) (p : Option ℕ)
      → IsAllocated list_pointer h p
      → Copied list_pointer h (copy_list lib p h).1 p (copy_list lib p h).0
  copy_list-Copied h p there =
      deep_copy-IsCopy list_kind (list laws) (copy_list_into lib) (copy_list_into-IsCopy laws) h p
        there

  -- Let the embedded types' own deep copies be deep copies, and let all that a ReactiveJobList reaches be
  -- allocated. After its DeepCopy, in a heap `l` that differs only in cells that the copy reaches, the
  -- original list reads as before; and in a heap `m` that differs only in cells that were given out
  -- before the copying, the copy reads as the original list did then.
  pub copy_list-separate :
      (h l m : Heap (Cell K)) (p : Option ℕ)
      → IsAllocated list_pointer h p
      → Agrees
          (λ a. ¬ list_pointer.Reaches (copy_list lib p h).1 (copy_list lib p h).0 a)
          (copy_list lib p h).1
          l
      → Agrees (λ a. h.next ≤ a) (copy_list lib p h).1 m
      → (list_pointer.read l p ≡ list_pointer.read h p)
        × (list_pointer.read m (copy_list lib p h).0 ≡ list_pointer.read h p)
  copy_list-separate h l m p there others later =
      Copied-separate list_pointer h (copy_list lib p h).1 l m p (copy_list lib p h).0 there
        (copy_list-Copied h p there) others later

  -- Let the embedded types' own deep copies be deep copies, and let all that the pointer reaches be
  -- allocated. DeepCopyObject of a nil pointer is the nil interface and leaves the heap as it is; of a
  -- pointer to a ReactiveJob it is a ReactiveJob at the heap's next address, which reads as the original.
  pub copy_reactive_job_object_lem :
      (h : Heap (Cell K)) (p : ℕ)
      → IsAllocated reactive_job_pointer h (some p)
      → (copy_reactive_job_object lib none h ≡ (none, h))
        × ((copy_reactive_job_object lib (some p) h).0 ≡ some (reactive_job_object (some h.next)))
        × (reactive_job_pointer.read (copy_reactive_job_object lib (some p) h).1 (some h.next)
            ≡ reactive_job_pointer.read h (some p))
  unfolding copy_reactive_job_object deep_copy
  copy_reactive_job_object_lem h p there =
      (refl, refl, (copy_reactive_job-Copied h (some p) there).1)
