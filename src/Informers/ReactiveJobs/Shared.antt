-- ===== src/Informers/ReactiveJobs/Shared.antt =====
-- The one informer of ReactiveJobs, by type and by resource.
use mathlib.Core.Bool.{false≢true}
use reactivejob_operator.Prelude.{
  ◌≡◌, ◌≢◌, ◌⊎◌, refl, ap, Bool-cases, inl, inr, true, none, some, eq_iff, if◌then◌else◌, arith,
  sym, ◌∙◌,
}
use reactivejob_operator.Informers.Factory.{Cache, Factory}
use reactivejob_operator.Informers.Lifecycle.{Steps}
use reactivejob_operator.Informers.Lifecycle.Shared.{informer_for-shared}
use reactivejob_operator.Informers.ReactiveJobs.{
  GroupVersionResource, reactive_jobs, reactive_job_type, ClientGo, ReactiveJobInformer,
  default_informer, wrapped, typed_informer, informer, reactive_jobs_of, is_reactive_jobs, found,
  for_resource,
}

module _ (cache : Cache) (go : ClientGo cache) where
  is_reactive_jobs_iff :
      (resource : GroupVersionResource)
      → is_reactive_jobs cache go resource ≡ true
      → resource ≡ reactive_jobs
  is_reactive_jobs_iff resource h =
      let same : (resource.group ≡ "batch.cs.sap.com")
          × (resource.version ≡ "v1alpha1")
          × (resource.resource ≡ "reactivejobs") =
        ground (
          arith,
          eq_iff resource.group "batch.cs.sap.com",
          eq_iff resource.version "v1alpha1",
          eq_iff resource.resource "reactivejobs",
        ) in
      λ k. record { group = same.0 k; version = same.1 k; resource = same.2 k }

  pub for_resource-other :
      (resource : GroupVersionResource) (s : Factory cache × cache.World)
      → resource ≢ reactive_jobs
      → for_resource cache go resource s ≡ (none, s)
  unfolding for_resource
  for_resource-other resource s other = elim (Bool-cases (is_reactive_jobs cache go resource)) [
    | inl same ↦ absurd (other (is_reactive_jobs_iff resource same))
    | inr differs ↦ rw differs refl
  ]

  pub informer-shared :
      (i i' : ReactiveJobInformer cache) (s : Factory cache × cache.World)
      {s' : Factory cache × cache.World}
      → Steps cache (informer cache go i s).1 s'
      → informer cache go i' s' ≡ ((informer cache go i s).0, s')
  unfolding informer typed_informer
  informer-shared i i' s {s'} run = ap (wrapped cache go) (
      informer_for-shared cache reactive_job_type (default_informer cache go i s.0)
        (default_informer cache go i' s'.0) s run)

  -- However it is asked for, a factory has one informer of ReactiveJobs: the one that `Informer`
  -- returned is what `ForResource` finds at the resource reactivejobs after any further calls. Any other
  -- resource is an error. Neither changes the factory.
  pub for_resource-shared :
      (i : ReactiveJobInformer cache) (s : Factory cache × cache.World)
      {s' : Factory cache × cache.World} (resource : GroupVersionResource)
      → Steps cache (informer cache go i s).1 s'
      → ((resource ≡ reactive_jobs)
          × (for_resource cache go resource s' ≡ (some (informer cache go i s).0, s')))
        ⊎ ((resource ≢ reactive_jobs) × (for_resource cache go resource s' ≡ (none, s')))
  unfolding for_resource
  for_resource-shared i s {s'} resource run =
      elim (Bool-cases (is_reactive_jobs cache go resource)) [
        | inl same ↦ inl (
          is_reactive_jobs_iff resource same,
          ap
                (λ b.
                  if b
                  then found cache go (informer cache go (reactive_jobs_of cache go s'.0) s')
                  else (none, s'))
                same
              ∙ ap (found cache go) (informer-shared i (reactive_jobs_of cache go s'.0) s run),
        )
        | inr other ↦ inr (
          λ e. false≢true (sym other ∙ ap (is_reactive_jobs cache go) e),
          ap
              (λ b.
                if b
                then found cache go (informer cache go (reactive_jobs_of cache go s'.0) s')
                else (none, s'))
              other,
        )
      ]
