-- ===== src/Api/DeepCopy/Laws.antt =====
-- What the deep copies share with their originals: the values that they read as, and no memory.
use reactivejob_operator.Prelude.{ℕ, refl, inl, String, Option, none, some, arith}
use reactivejob_operator.Prelude.Int.{ℤ}
use reactivejob_operator.Memory.Layout.{Layout, held, part, ◌and◌, IsCopy, Copied-and, Copied-held}
use reactivejob_operator.Memory.Slices.{ReachesPointer, slice, pointer, copy_slice-IsCopy}
use reactivejob_operator.Api.Stored.{
  Embedded, StoredCondition, StoredStatus, StoredSpec, StoredReactiveJob, StoredReactiveJobList,
  Cell, time_kind, condition_kind, reactive_job_kind,
}
use reactivejob_operator.Api.DeepCopy.{
  Apimachinery, copy_time_field, copy_condition_into, copy_status_into, copy_spec_into,
  copy_reactive_job_into, copy_list_into,
}

-- A `*metav1.Time`
abbrev pub time : {K : Embedded} → Layout (Cell K) (Option ℕ)
time = pointer time_kind (held λ t. t)

-- The fields of a condition and of a status that hold no pointers.
abbrev pub texts : StoredCondition → String × String × String × String
texts c = (c.type, c.status, c.reason, c.message)

abbrev pub scalars : StoredStatus → ℤ × String × String
scalars s = (s.observed_generation, s.state, s.current_job_name)

-- How the embedded types lie in memory, and that their own deep copies are deep copies.
pub record IsApimachinery {K : Embedded} (lib : Apimachinery K) : Type 1 where
  pub object_meta : Layout (Cell K) K.ObjectMeta
  pub job_template_spec : Layout (Cell K) K.JobTemplateSpec
  pub list_meta : Layout (Cell K) K.ListMeta
  pub copy_object_meta-IsCopy : IsCopy object_meta lib.copy_object_meta
  pub copy_job_template_spec-IsCopy : IsCopy job_template_spec lib.copy_job_template_spec
  pub copy_list_meta-IsCopy : IsCopy list_meta lib.copy_list_meta
  pub copy_time-IsCopy : IsCopy time lib.copy_time

module _ {K : Embedded} {lib : Apimachinery K} (laws : IsApimachinery lib) where
  abbrev pub times : Layout (Cell K) StoredCondition
  times = part (λ c. c.last_update_time) time and part (λ c. c.last_transition_time) time

  abbrev pub condition : Layout (Cell K) StoredCondition
  condition = held texts and times

  abbrev pub conditions : Layout (Cell K) StoredStatus
  conditions = part (λ s. s.conditions) (slice condition_kind condition)

  abbrev pub status : Layout (Cell K) StoredStatus
  status = held scalars and conditions

  abbrev pub spec : Layout (Cell K) (StoredSpec K)
  spec = part (λ s. s.job_template) laws.job_template_spec

  abbrev pub spec_and_status : Layout (Cell K) (StoredReactiveJob K)
  spec_and_status = part (λ r. r.spec) spec and part (λ r. r.status) status

  abbrev pub meta_and_rest : Layout (Cell K) (StoredReactiveJob K)
  meta_and_rest = part (λ r. r.object_meta) laws.object_meta and spec_and_status

  abbrev pub reactive_job : Layout (Cell K) (StoredReactiveJob K)
  reactive_job = held (λ r. r.type_meta) and meta_and_rest

  abbrev pub meta_and_items : Layout (Cell K) (StoredReactiveJobList K)
  meta_and_items =
      part (λ l. l.list_meta) laws.list_meta
      and part (λ l. l.items) (slice reactive_job_kind reactive_job)

  abbrev pub list : Layout (Cell K) (StoredReactiveJobList K)
  list = held (λ l. l.type_meta) and meta_and_items

  copy_time_field-IsCopy : IsCopy time (copy_time_field lib)
  unfolding copy_time_field ReachesPointer
  copy_time_field-IsCopy h none there = ((omega arith, λ a below. refl), refl, λ a r. absurd r)
  copy_time_field-IsCopy h (some t) there = laws.copy_time-IsCopy h (some t) there

  copy_condition_into-IsCopy : IsCopy condition (copy_condition_into lib)
  unfolding copy_condition_into
  copy_condition_into-IsCopy h c there =
      let (w, k) = copy_condition_into lib c h in
      let first = copy_time_field lib c.last_update_time h in
      Copied-held texts times h k c w refl there (λ rest.
        Copied-and (part (λ c. c.last_update_time) time) (part (λ c. c.last_transition_time) time) h
          first.1 k c w rest (copy_time_field-IsCopy h c.last_update_time (λ a r. rest a (inl r)))
          (copy_time_field-IsCopy first.1 c.last_transition_time))

  copy_status_into-IsCopy : IsCopy status (copy_status_into lib)
  unfolding copy_status_into
  copy_status_into-IsCopy h s there =
      let (w, k) = copy_status_into lib s h in
      Copied-held scalars conditions h k s w refl there (
        copy_slice-IsCopy condition_kind condition (copy_condition_into lib)
          copy_condition_into-IsCopy h s.conditions)

  copy_spec_into-IsCopy : IsCopy spec (copy_spec_into lib)
  unfolding copy_spec_into
  copy_spec_into-IsCopy h s there = laws.copy_job_template_spec-IsCopy h s.job_template there

  pub copy_reactive_job_into-IsCopy : IsCopy reactive_job (copy_reactive_job_into lib)
  unfolding copy_reactive_job_into
  copy_reactive_job_into-IsCopy h r there =
      let (w, k) = copy_reactive_job_into lib r h in
      let first = (lib.copy_object_meta r.object_meta h).1 in
      let second = (copy_spec_into lib r.spec first).1 in
      Copied-held (λ r. r.type_meta) meta_and_rest h k r w refl there
        (λ rest.
          Copied-and (part (λ r. r.object_meta) laws.object_meta) spec_and_status h first k r w rest
            (laws.copy_object_meta-IsCopy h r.object_meta (λ a q. rest a (inl q)))
            (λ rest'.
              Copied-and (part (λ r. r.spec) spec) (part (λ r. r.status) status) first second k r w
                rest' (copy_spec_into-IsCopy first r.spec (λ a q. rest' a (inl q)))
                (copy_status_into-IsCopy second r.status)))

  pub copy_list_into-IsCopy : IsCopy list (copy_list_into lib)
  unfolding copy_list_into
  copy_list_into-IsCopy h l there =
      let (w, k) = copy_list_into lib l h in
      let first = (lib.copy_list_meta l.list_meta h).1 in
      Copied-held (λ l. l.type_meta) meta_and_items h k l w refl there
        (λ rest.
          Copied-and (part (λ l. l.list_meta) laws.list_meta)
            (part (λ l. l.items) (slice reactive_job_kind reactive_job)) h first k l w rest
            (laws.copy_list_meta-IsCopy h l.list_meta (λ a q. rest a (inl q)))
            (copy_slice-IsCopy reactive_job_kind reactive_job (copy_reactive_job_into lib)
              copy_reactive_job_into-IsCopy first l.items))
