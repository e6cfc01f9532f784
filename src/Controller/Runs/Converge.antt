-- ===== src/Controller/Runs/Converge.antt =====
-- The run after a job was created: it settles on that job.
use mathlib.Core.List.{Mem, Perm, mem-cons_self, not-mem-nil}
use mathlib.Core.List.Perm
use reactivejob_operator.Prelude.{
  String, ◌≡◌, refl, ap, ◌∙◌, subst, true, false, List, [], ◌∷◌, str_eq,
}
use reactivejob_operator.Prelude.Int.{◌≤ℤ◌}
use reactivejob_operator.Strconv.RoundTrip.{InRange}
use reactivejob_operator.Api.Meta.{NamespacedName, is_zero, map_get}
use reactivejob_operator.Api.Types.{Job, ReactiveJob}
use reactivejob_operator.Kube.Server.{Server, History, done, get, update_status}
use reactivejob_operator.Kube.Library.{Library, IsLibrary, ok}
use reactivejob_operator.Controller.Hash.{must_atoi, json_hash}
use reactivejob_operator.Controller.Objects.{
  finalizer, label_controller_uid, annotation_controller_generation, annotation_controller_hash,
  new_job, report, requeue_in,
}
use reactivejob_operator.Controller.Newest.{newest_first, generation_number, number_of, is_readable}
use reactivejob_operator.Controller.NewJob.{new_job-found}
use reactivejob_operator.Controller.Reconcile.{aggregated, reconcile}
use reactivejob_operator.Controller.Runs.Settle.{settled_calls, settled_object, reconcile-settles}

module _ {E : Type 0} (server : Server E) (lib : Library E) (laws : IsLibrary lib)
    (stored : History E → Job E → Job E)
    (accepts : (h : History E) (k : Job E) → server.update_job h k ≡ done (stored h k)) where
  -- A stored job was created for `r` with a hash: it carries the annotations of the new job.
  abbrev pub CreatedFor : String → ReactiveJob E → String → Job E → Type 0
  CreatedFor namespace r hash job =
      job.meta.annotations ≡ (new_job lib namespace r hash).meta.annotations

  generation-CreatedFor :
      (namespace : String) (r : ReactiveJob E) (hash : String) (job : Job E)
      → InRange r.meta.generation
      → CreatedFor namespace r hash job
      → generation_number job ≡ r.meta.generation
  generation-CreatedFor namespace r hash job fits created =
      ap (λ m. number_of (must_atoi (map_get m annotation_controller_generation))) created
      ∙ ap number_of (new_job-found lib namespace hash r fits).0

  sorted_first :
      (job : Job E) (items sorted : List (Job E))
      → Mem job items
      → Perm sorted items
      → (current : Job E) × (old : List (Job E)) × (sorted ≡ current ∷ old)
  sorted_first job items [] m perm = absurd (not-mem-nil ((Perm.mem_iff perm).1 m))
  sorted_first job items (current ∷ old) m perm = (current, old, refl)

  -- Once a job was created for a generation of the ReactiveJob, and the server lists it with its
  -- annotations, and every listed job of that generation or a later one records the template's hash, a
  -- run creates nothing: it settles on a listed job of at least that generation with that hash,
  -- releases the others and reports what its conditions say. The ReactiveJob is not being deleted, was
  -- seen before and has the operator's finalizer; all listed generations can be read; and the server
  -- accepts updates of jobs.
  pub reconcile-converges :
      (request : NamespacedName) (r now : ReactiveJob E) (h : History E) {items : List (Job E)}
      (job : Job E) (hash : String)
      → InRange r.meta.generation
      → CreatedFor request.namespace r hash job
      → server.get h request ≡ done now
      → str_eq now.status.state "" ≡ false
      → server.list (get request ∷ h) request.namespace label_controller_uid now.meta.uid
        ≡ done items
      → is_zero now.meta.deletion_timestamp ≡ true
      → lib.contains now.meta.finalizers finalizer ≡ true
      → json_hash lib now.spec.job_template ≡ ok hash
      → Mem job items
      → ((x : Job E) → Mem x items → is_readable x ≡ true)
      → ((x : Job E)
          → Mem x items
          → r.meta.generation ≤ℤ generation_number x
          → map_get x.meta.annotations annotation_controller_hash ≡ hash)
      → (current : Job E) × (old : List (Job E)) × Perm (current ∷ old) items
        × (r.meta.generation ≤ℤ generation_number current)
        × (map_get current.meta.annotations annotation_controller_hash ≡ hash)
        × (reconcile server lib request h ≡ (
          aggregated (ok (requeue_in (report current.conditions).requeue_after)) (
              server.update_status
                (settled_calls server lib stored accepts request now old h)
                (settled_object server lib stored accepts request now current old h)),
          update_status (settled_object server lib stored accepts request now current old h)
              ∷ settled_calls server lib stored accepts request now old h,
        ))
  reconcile-converges request r now h {items} job hash fits created read seen listed alive own
        hashed m readable same_hash =
      let (sorted, e, perm, top) = newest_first lib laws items readable in
      let (current, old, split) = sorted_first job items sorted m perm in
      let perm' : Perm (current ∷ old) items = subst (λ l. Perm l items) split perm in
      let above : r.meta.generation ≤ℤ generation_number current =
        subst (λ g. g ≤ℤ generation_number current)
          (generation-CreatedFor request.namespace r hash job fits created)
          (top current old split job m) in
      let same : map_get current.meta.annotations annotation_controller_hash ≡ hash =
        same_hash current ((Perm.mem_iff perm').0 mem-cons_self) above in
      (
        current,
        old,
        perm',
        above,
        same,
        reconcile-settles server lib stored accepts request now h current old hash read seen listed
            (e ∙ ap ok split) alive own hashed same,
      )
