-- ===== src/Clientset/Schemes.antt =====
-- How the Go types of the API come into a scheme: pkg/client/clientset/versioned/scheme/register.go and
-- fake/register.go, api/v1alpha1/groupversion_info.go, and the `init` functions of
-- api/v1alpha1/reactivejob_types.go and main.go. The registered types stand in the builder that the
-- package variable points to, and `AddToScheme` reads it when it is called.
use reactivejob_operator.Prelude.{
  ◌≡◌, refl, sym, subst, ◌⊎◌, inl, inr, Bool, true, Option, none, some, List, [], ◌∷◌,
}
use reactivejob_operator.Clientset.Rest.{GroupVersion}
use reactivejob_operator.Clientset.Batch.{scheme_group_version}

-- The types that the operator registers.
pub data GoType : Type 0 where
  reactive_job_type reactive_job_list_type : GoType

-- What is used of apimachinery's runtime, of controller-runtime's scheme and of client-go's one.
pub record Runtime : Type 1 where
  pub Scheme : Type 0
  pub Error : Type 0
  pub Builder : Type 0
  pub new_scheme : Scheme
  -- `&scheme.Builder{GroupVersion: gv}`, its `Register` and its `AddToScheme`
  pub builder : GroupVersion → Builder
  pub register : List GoType → Builder → Builder
  pub add_built : Builder → Scheme → Option Error × Scheme
  -- `runtime.SchemeBuilder.AddToScheme`
  pub add_each : List (Scheme → Option Error × Scheme) → Scheme → Option Error × Scheme
  -- `metav1.AddToGroupVersion`
  pub add_to_group_version : GroupVersion → Scheme → Scheme
  -- `clientgoscheme.AddToScheme`
  pub add_client_go : Scheme → Option Error × Scheme
  pub recognizes : Scheme → GroupVersion → GoType → Bool

module _ (R : Runtime) where
  -- Both types are known under the group and version of the API.
  abbrev pub Knows : R.Scheme → Type 0
  Knows s = (t : GoType) → R.recognizes s scheme_group_version t ≡ true

  -- A builder adds the types that were registered with it, under its group and version; the functions of
  -- a scheme builder are applied in their order until one fails.
  pub record IsRuntime : Type 0 where
    pub adds_registered :
        (s s' : R.Scheme)
        → R.add_built
            (R.register
              (reactive_job_type ∷ reactive_job_list_type ∷ [])
              (R.builder scheme_group_version))
            s
          ≡ (none, s')
        → Knows s'
    pub each_one :
        (f : R.Scheme → Option R.Error × R.Scheme) (s : R.Scheme) → R.add_each (f ∷ []) s ≡ f s

  -- The variable `SchemeBuilder` of package v1alpha1, before and after its `init`.
  abbrev scheme_builder : R.Builder
  scheme_builder = R.builder scheme_group_version

  unfoldable pub init_types : R.Builder → R.Builder
  init_types = R.register (reactive_job_type ∷ reactive_job_list_type ∷ [])

  -- `batchv1alpha1.AddToScheme`, called after that `init`
  unfoldable pub add_to_scheme : R.Scheme → Option R.Error × R.Scheme
  unfolding init_types
  add_to_scheme = R.add_built (init_types scheme_builder)

  -- How an `init` ends.
  pub data Started : Type 0 where
    registered : R.Scheme → Started
    panics : R.Error → Started

  -- `utilruntime.Must`, and what comes after it
  abbrev must : Option R.Error × R.Scheme → (R.Scheme → Started) → Started
  must (none, s) next = next s
  must (some e, s) next = panics e

  -- The `init` of main.go.
  unfoldable pub init_main : Started
  init_main =
      must (R.add_client_go R.new_scheme) (λ s. must (add_to_scheme s) (λ s'. registered s'))

  -- The group and version of the options that every scheme of a clientset has.
  abbrev core_version : GroupVersion
  core_version = record { group = ""; version = "v1" }

  -- `localSchemeBuilder`, `AddToScheme` and `init` of package scheme.
  abbrev local_scheme_builder : List (R.Scheme → Option R.Error × R.Scheme)
  local_scheme_builder = add_to_scheme ∷ []

  unfoldable pub add_clientset : R.Scheme → Option R.Error × R.Scheme
  add_clientset = R.add_each local_scheme_builder

  unfoldable pub init_clientset : Started
  init_clientset =
      must (add_clientset (R.add_to_group_version core_version R.new_scheme)) (λ s. registered s)

  -- The same of package fake.
  abbrev fake_scheme_builder : List (R.Scheme → Option R.Error × R.Scheme)
  fake_scheme_builder = add_to_scheme ∷ []

  unfoldable pub add_fake : R.Scheme → Option R.Error × R.Scheme
  add_fake = R.add_each fake_scheme_builder

  unfoldable pub init_fake : Started
  init_fake = must (add_fake (R.add_to_group_version core_version R.new_scheme)) (λ s. registered s)

  -- The scheme knows the types, or the process panicked with the error of a failed registration.
  abbrev pub IsStarted : Started → Type 0
  IsStarted (registered s) = Knows s
  IsStarted (panics e) =
      ((s' : R.Scheme) × (R.add_client_go R.new_scheme ≡ (some e, s')))
      ⊎ ((s s' : R.Scheme) × (add_to_scheme s ≡ (some e, s')))

  -- What is left after the first step.
  added-IsStarted :
      (laws : IsRuntime) (s : R.Scheme) (added : Option R.Error × R.Scheme)
      → add_to_scheme s ≡ added
      → IsStarted (must added (λ s'. registered s'))
  unfolding add_to_scheme init_types
  added-IsStarted laws s (none, s') e = laws.adds_registered s s' e
  added-IsStarted laws s (some why, s') e = inr (s, s', e)

  main-IsStarted :
      (laws : IsRuntime) (first : Option R.Error × R.Scheme)
      → R.add_client_go R.new_scheme ≡ first
      → IsStarted (must first (λ s. must (add_to_scheme s) (λ s'. registered s')))
  main-IsStarted laws (none, s) e = added-IsStarted laws s (add_to_scheme s) refl
  main-IsStarted laws (some why, s) e = inl (s, e)

  one_added-IsStarted :
      (laws : IsRuntime) (s : R.Scheme)
      → IsStarted (must (R.add_each (add_to_scheme ∷ []) s) (λ s'. registered s'))
  one_added-IsStarted laws s =
      subst (λ added. IsStarted (must added (λ s'. registered s')))
        (sym (laws.each_one add_to_scheme s)) (added-IsStarted laws s (add_to_scheme s) refl)

  -- Each of the three schemes, that of the operator and those of the two clientsets, knows ReactiveJob
  -- and ReactiveJobList under batch.cs.sap.com/v1alpha1 once its package is initialised; or that
  -- initialisation panicked, with the error that a registration returned.
  pub inits-IsStarted :
      IsRuntime → IsStarted init_main × IsStarted init_clientset × IsStarted init_fake
  unfolding init_main init_clientset init_fake add_clientset add_fake
  inits-IsStarted laws = (
    main-IsStarted laws (R.add_client_go R.new_scheme) refl,
    one_added-IsStarted laws _,
    one_added-IsStarted laws _,
  )
