-- ===== src/Api/DeepCopy.antt =====
-- api/v1alpha1/zz_generated.deepcopy.go: the deep copies of the API types, in memory. `DeepCopyInto` is the
-- function from `*in` to what it leaves in `*out`, a variable that nothing else points to.
pub mod Laws
pub mod Separate
use reactivejob_operator.Prelude.{ℕ, Option, none, some}
use reactivejob_operator.Memory.{Memory, ◌>>=◌, pure, copy_slice, deep_copy}
use reactivejob_operator.Api.Stored.{
  Embedded, StoredCondition, StoredStatus, StoredSpec, StoredReactiveJob, StoredReactiveJobList,
  Cell, condition_kind, status_kind, spec_kind, reactive_job_kind, list_kind,
}

-- The `DeepCopyInto` and `DeepCopy` of the embedded types; `copy_time` is `(*metav1.Time).DeepCopy`.
pub record Apimachinery (K : Embedded) : Type 0 where
  pub copy_object_meta : K.ObjectMeta → Memory (Cell K) K.ObjectMeta
  pub copy_job_template_spec : K.JobTemplateSpec → Memory (Cell K) K.JobTemplateSpec
  pub copy_list_meta : K.ListMeta → Memory (Cell K) K.ListMeta
  pub copy_time : Option ℕ → Memory (Cell K) (Option ℕ)

-- A `runtime.Object` that is not the nil interface: a pointer with its type.
pub data Object : Type 0 where
  reactive_job_object : Option ℕ → Object
  list_object : Option ℕ → Object

-- `if c := in.DeepCopy(); c != nil { return c }; return nil`
abbrev pub object_unless_nil : (Option ℕ → Object) → Option ℕ → Option Object
object_unless_nil wrap none = none
object_unless_nil wrap (some p) = some (wrap (some p))

module _ {K : Embedded} (lib : Apimachinery K) where
  -- `if *in != nil { *out = (*in).DeepCopy() }` for a field that holds a `*metav1.Time`.
  unfoldable pub copy_time_field : Option ℕ → Memory (Cell K) (Option ℕ)
  copy_time_field none = pure none
  copy_time_field (some t) = lib.copy_time (some t)

  unfoldable pub copy_condition_into : StoredCondition → Memory (Cell K) StoredCondition
  copy_condition_into c = do
    updated ← copy_time_field c.last_update_time
    changed ← copy_time_field c.last_transition_time
    pure (record c { last_update_time = updated; last_transition_time = changed })

  unfoldable pub copy_status_into : StoredStatus → Memory (Cell K) StoredStatus
  copy_status_into s = do
    conditions ← copy_slice condition_kind copy_condition_into s.conditions
    pure (record s { conditions = conditions })

  unfoldable pub copy_spec_into : StoredSpec K → Memory (Cell K) (StoredSpec K)
  copy_spec_into s = do
    template ← lib.copy_job_template_spec s.job_template
    pure (record s { job_template = template })

  unfoldable pub copy_reactive_job_into :
      StoredReactiveJob K → Memory (Cell K) (StoredReactiveJob K)
  copy_reactive_job_into r = do
    meta ← lib.copy_object_meta r.object_meta
    spec ← copy_spec_into r.spec
    status ← copy_status_into r.status
    pure (record r { object_meta = meta; spec = spec; status = status })

  unfoldable pub copy_list_into :
      StoredReactiveJobList K → Memory (Cell K) (StoredReactiveJobList K)
  copy_list_into l = do
    meta ← lib.copy_list_meta l.list_meta
    items ← copy_slice reactive_job_kind copy_reactive_job_into l.items
    pure (record l { list_meta = meta; items = items })

  abbrev pub copy_condition : Option ℕ → Memory (Cell K) (Option ℕ)
  copy_condition = deep_copy condition_kind copy_condition_into

  abbrev pub copy_status : Option ℕ → Memory (Cell K) (Option ℕ)
  copy_status = deep_copy status_kind copy_status_into

  abbrev pub copy_spec : Option ℕ → Memory (Cell K) (Option ℕ)
  copy_spec = deep_copy spec_kind copy_spec_into

  abbrev pub copy_reactive_job : Option ℕ → Memory (Cell K) (Option ℕ)
  copy_reactive_job = deep_copy reactive_job_kind copy_reactive_job_into

  abbrev pub copy_list : Option ℕ → Memory (Cell K) (Option ℕ)
  copy_list = deep_copy list_kind copy_list_into

  unfoldable pub copy_reactive_job_object : Option ℕ → Memory (Cell K) (Option Object)
  copy_reactive_job_object p = do
    c ← copy_reactive_job p
    pure (object_unless_nil reactive_job_object c)

  unfoldable pub copy_list_object : Option ℕ → Memory (Cell K) (Option Object)
  copy_list_object p = do c ← copy_list p; pure (object_unless_nil list_object c)
