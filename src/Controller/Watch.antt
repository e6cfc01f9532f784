-- ===== src/Controller/Watch.antt =====
-- `SetupWithManager` of internal/controllers/reactivejob_controller.go: which events of ReactiveJobs and
-- jobs the controller turns into requests. Whether the manager accepts it is with Main/Setup. The
-- predicates and handlers of controller-runtime are a record of operations, and what their
-- documentation says of them is a record of laws.
pub mod Events
pub mod Jobs
use mathlib.Core.List.{Mem}
use reactivejob_operator.Prelude.{
  String, ◌≡◌, ◌≢◌, ◌↔◌, Bool, true, false, ◌||◌, Option, none, some, List, [], ◌∷◌, if◌then◌else◌,
}
use reactivejob_operator.Api.Meta.{ObjectMeta, StringMap, NamespacedName, lookup, map_get}
use reactivejob_operator.Api.Types.{Job, ReactiveJob}
use reactivejob_operator.Controller.Objects.{label_controller_name}
use reactivejob_operator.Controller.Reconcile.{job_enqueue_mapper}

-- The events of package event.
pub data Event (A : Type 0) : Type 0 where
  created : A → Event A
  updated : A → A → Event A
  deleted : A → Event A
  generic : A → Event A

abbrev pub Predicate : Type 0 → Type 0
Predicate A = Event A → Bool

-- The object of an event, the new one of an update.
abbrev pub subject : {A : Type 0} → Event A → A
subject (created x) = x
subject (updated old new) = new
subject (deleted x) = x
subject (generic x) = x

-- All objects of an event.
abbrev pub subjects : {A : Type 0} → Event A → List A
subjects (created x) = x ∷ []
subjects (updated old new) = old ∷ new ∷ []
subjects (deleted x) = x ∷ []
subjects (generic x) = x ∷ []

-- `metav1.LabelSelectorRequirement`
pub record Requirement : Type 0 where
  pub key : String
  pub operator : String
  pub values : List String

abbrev pub has_value : Option String → Bool
has_value none = false
has_value (some v) = true

abbrev pub has_key : String → StringMap → Bool
has_key k none = false
has_key k (some m) = has_value (lookup k m)

abbrev pub request_for : {E : Type 0} → ObjectMeta E → NamespacedName
request_for meta = record { namespace = meta.namespace; name = meta.name }

pub record Watching (E : Type 0) : Type 0 where
  pub generation_changed : Predicate (ReactiveJob E)
  pub annotation_changed : Predicate (ReactiveJob E)
  pub or : Predicate (ReactiveJob E) → Predicate (ReactiveJob E) → Predicate (ReactiveJob E)
  -- `predicate.LabelSelectorPredicate` of a selector with these match expressions
  pub label_selector : List Requirement → Option (Predicate (Job E))
  -- what `For` and `Watches` with `EnqueueRequestsFromMapFunc` put into the queue for an event
  pub for_requests : Predicate (ReactiveJob E) → Event (ReactiveJob E) → List NamespacedName
  pub watch_requests :
      (Job E → List NamespacedName) → Predicate (Job E) → Event (Job E) → List NamespacedName

-- The events that are no updates pass.
abbrev pub PassesRest : {A : Type 0} → Predicate A → Type 0
PassesRest p = (x : _) → (p (created x) ≡ true) × (p (deleted x) ≡ true) × (p (generic x) ≡ true)

abbrev pub label_name_exists : Requirement
label_name_exists = record { key = label_controller_name; operator = "Exists"; values = [] }

pub record IsWatching {E : Type 0} (w : Watching E) : Type 0 where
  pub generation_rest : PassesRest w.generation_changed
  pub generation_iff :
      (old new : ReactiveJob E)
      → (w.generation_changed (updated old new) ≡ true)
        ↔ (old.meta.generation ≢ new.meta.generation)
  -- Maps with the same entries in the same order are equal ones, and maps with different values are not.
  pub annotation_same :
      (old new : ReactiveJob E)
      → old.meta.annotations ≡ new.meta.annotations
      → w.annotation_changed (updated old new) ≡ false
  pub annotation_differs :
      (old new : ReactiveJob E) (k : String)
      → map_get old.meta.annotations k ≢ map_get new.meta.annotations k
      → w.annotation_changed (updated old new) ≡ true
  pub or_either :
      (p q : Predicate (ReactiveJob E)) (e : Event (ReactiveJob E)) → w.or p q e ≡ (p e || q e)
  -- The key is a valid one, so the selector is made; it is tested on the object of the event.
  pub label_exists :
      (p : Predicate (Job E)) × (w.label_selector (label_name_exists ∷ []) ≡ some p)
      × ((e : Event (Job E)) → p e ≡ has_key label_controller_name (subject e).meta.labels)
  pub for_object :
      (p : Predicate (ReactiveJob E)) (e : Event (ReactiveJob E))
      → w.for_requests p e ≡ (if p e then request_for (subject e).meta ∷ [] else [])
  -- The function is applied to each object of the event.
  pub watch_mapped :
      (f : Job E → List NamespacedName) (p : Predicate (Job E)) (e : Event (Job E))
      (q : NamespacedName)
      → p e ≡ true
      → Mem q (w.watch_requests f p e) ↔ ∥ ((x : Job E) × Mem x (subjects e) × Mem q (f x)) ∥₁
  pub watch_filtered :
      (f : Job E → List NamespacedName) (p : Predicate (Job E)) (e : Event (Job E))
      → p e ≡ false
      → w.watch_requests f p e ≡ []

-- The controller: the requests that an event leads to.
pub record Controller (E : Type 0) : Type 0 where
  pub reactive_job_requests : Event (ReactiveJob E) → List NamespacedName
  pub job_requests : Event (Job E) → List NamespacedName

module _ {E : Type 0} (w : Watching E) where
  abbrev pub reactive_job_predicate : Predicate (ReactiveJob E)
  reactive_job_predicate = w.or w.generation_changed w.annotation_changed

  abbrev controller_with : Option (Predicate (Job E)) → Option (Controller E)
  controller_with none = none
  controller_with (some job_predicate) = some (record {
    reactive_job_requests = w.for_requests reactive_job_predicate;
    job_requests = w.watch_requests job_enqueue_mapper job_predicate;
  })

  unfoldable pub setup_with_manager : Option (Controller E)
  setup_with_manager = controller_with (w.label_selector (label_name_exists ∷ []))
