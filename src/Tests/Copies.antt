-- ===== src/Tests/Copies.antt =====
-- Deep copies of a list with one ReactiveJob, whose status has a condition with a time.
use reactivejob_operator.Prelude.{
  ℕ, zero, suc, ◌≡◌, refl, inl, String, Option, none, some, arith, ◌==◌, if◌then◌else◌, subst,
}
use reactivejob_operator.Prelude.Int.{pos}
use reactivejob_operator.Memory.{Heap, Kind, pure, deep_copy, copy_each, copy_slice}
use reactivejob_operator.Memory.Layout.{held, IsCopy, IsAllocated, Copied}
use reactivejob_operator.Memory.Elements.{ReachesEach, read_each}
use reactivejob_operator.Memory.Slices.{
  pointer, deep_copy-IsCopy, ReachesPointer, ReachesSlice, read_pointer, read_slice,
}
use reactivejob_operator.Api.Stored.{
  Embedded, Cell, free, list_cell, reactive_job_cell, condition_cell, time_cell, other_cell,
  zero_type_meta, time_kind,
}
use reactivejob_operator.Api.DeepCopy.{
  Apimachinery, copy_list, copy_reactive_job, copy_list_into, copy_reactive_job_into,
  copy_spec_into, copy_status_into, copy_condition_into, copy_time_field,
}
use reactivejob_operator.Api.DeepCopy.Laws.{IsApimachinery}
use reactivejob_operator.Api.DeepCopy.Separate.{
  reactive_job_pointer, list_pointer, copy_reactive_job-Copied, copy_list-separate,
}

-- The metadata is a pointer to its labels; the template and the list's metadata are texts.
abbrev embedded : Embedded
embedded = record {
  ObjectMeta = Option ℕ;
  JobTemplateSpec = String;
  ListMeta = String;
  Other = String;
  zero_meta = none;
  zero_template = "";
  zero_list_meta = "";
}

abbrev text_of : Cell embedded → String
text_of (other_cell t) = t
text_of _ = ""

abbrev other_kind : Kind (Cell embedded) String
other_kind = record {
  in_cell = other_cell;
  content = text_of;
  zero_value = "";
  content-in_cell = λ v. refl;
}

abbrev machinery : Apimachinery embedded
machinery = record {
  copy_object_meta = deep_copy other_kind pure;
  copy_job_template_spec = pure;
  copy_list_meta = pure;
  copy_time = deep_copy time_kind pure;
}

pure-IsCopy : {C V : Type 0} → IsCopy {C = C} {V = V} (held λ v. v) pure
pure-IsCopy h v there = ((omega arith, λ a below. refl), refl, λ a r. absurd r)

abbrev laws : IsApimachinery machinery
laws = record {
  object_meta = pointer other_kind (held λ v. v);
  job_template_spec = held λ v. v;
  list_meta = held λ v. v;
  copy_object_meta-IsCopy = deep_copy-IsCopy other_kind (held λ v. v) pure pure-IsCopy;
  copy_job_template_spec-IsCopy = pure-IsCopy;
  copy_list_meta-IsCopy = pure-IsCopy;
  copy_time-IsCopy = deep_copy-IsCopy time_kind (held λ v. v) pure pure-IsCopy;
}

abbrev cells : ℕ → Cell embedded
cells zero = list_cell (record {
  type_meta = zero_type_meta;
  list_meta = "v1";
  items = some (record { start = 1; len = 1 });
})
cells (suc zero) = reactive_job_cell (record {
  type_meta = zero_type_meta;
  object_meta = some 2;
  spec = record { job_template = "echo" };
  status = record {
    observed_generation = pos 1;
    conditions = some (record { start = 3; len = 1 });
    state = "Ready";
    current_job_name = "";
  };
})
cells (suc (suc zero)) = other_cell "app=demo"
cells (suc (suc (suc zero))) = condition_cell (record {
  type = "Ready";
  status = "True";
  last_update_time = some 4;
  last_transition_time = none;
  reason = "";
  message = "";
})
cells (suc (suc (suc (suc zero)))) = time_cell 7
cells _ = free

abbrev heap : Heap (Cell embedded)
heap = record { next = 5; cell = cells }

heap-IsAllocated : IsAllocated (list_pointer laws) heap (some 0)
unfolding ReachesEach ReachesPointer ReachesSlice
heap-IsAllocated a r = ground arith

job-IsAllocated : IsAllocated (reactive_job_pointer laws) heap (some 1)
unfolding ReachesEach ReachesPointer ReachesSlice
job-IsAllocated a r = ground arith

copy_reactive_job-Copied_example :
    Copied
      (reactive_job_pointer laws)
      heap
      (copy_reactive_job machinery (some 1) heap).1
      (some 1)
      (copy_reactive_job machinery (some 1) heap).0
copy_reactive_job-Copied_example = copy_reactive_job-Copied laws heap (some 1) job-IsAllocated

-- The heap in which the cell at `p` is overwritten.
abbrev overwritten : ℕ → Heap (Cell embedded) → Heap (Cell embedded)
overwritten p h = record h { cell = λ a. if a == p then free else h.cell a }

overwritten-other :
    (p : ℕ) (h : Heap (Cell embedded)) (a : ℕ) → (p ≡ a → ⊥) → (overwritten p h).cell a ≡ h.cell a
overwritten-other p h a other = ground arith

abbrev copied : Heap (Cell embedded)
copied = (copy_list machinery (some 0) heap).1

copy-reached : (list_pointer laws).Reaches copied (copy_list machinery (some 0) heap).0 5
unfolding deep_copy ReachesPointer ReachesEach
copy-reached = inl refl

copy_list-separate_example :
    ((list_pointer laws).read (overwritten 5 copied) (some 0)
      ≡ (list_pointer laws).read heap (some 0))
    × ((list_pointer laws).read (overwritten 1 copied) (copy_list machinery (some 0) heap).0
        ≡ (list_pointer laws).read heap (some 0))
copy_list-separate_example =
    copy_list-separate laws heap (overwritten 5 copied) (overwritten 1 copied) (some 0)
      heap-IsAllocated
      (λ a away. overwritten-other 5 copied a (λ e. away (
        subst (λ b. (list_pointer laws).Reaches copied (copy_list machinery (some 0) heap).0 b) e
          copy-reached)))
      (λ a later. overwritten-other 1 copied a (λ e. omega arith))

-- The copy of the list reads as the list: one job, with the condition and its time.
copied-read : (list_pointer laws).read copied (some 5) ≡ (list_pointer laws).read heap (some 0)
unfolding deep_copy copy_each copy_slice copy_list_into copy_reactive_job_into copy_spec_into
    copy_status_into copy_condition_into copy_time_field read_pointer read_slice read_each
copied-read = refl
