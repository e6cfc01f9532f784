-- ===== src/Controller/Cluster/Bound.antt =====
-- Any number of runs for one template adds at most one job.
use reactivejob_operator.Prelude.{suc, ◌≤◌, String, ◌≡◌, refl, ap, List, [], ◌∷◌, length, arith}
use reactivejob_operator.Prelude.Int.{ℤ}
use reactivejob_operator.Strconv.RoundTrip.{InRange}
use reactivejob_operator.Api.Meta.{NamespacedName}
use reactivejob_operator.Api.Types.{Job, ReactiveJob}
use reactivejob_operator.Kube.Server.{Server, Call, History}
use reactivejob_operator.Kube.Library.{Library, IsLibrary}
use reactivejob_operator.Controller.Reconcile.{reconcile}
use reactivejob_operator.Controller.Cluster.{views, IsQuiet, Serves}
use reactivejob_operator.Controller.Cluster.Machine.{
  MachineStep, stays, MachineSteps, stop, step, IsConsistent, IsConsistent-step, bounded-steps,
}
use reactivejob_operator.Controller.Cluster.Refines.{reconcile-refines}

-- Runs one after the other, with quiet calls of anybody between them.
pub data Runs {E : Type 0} (server : Server E) (lib : Library E) (request : NamespacedName)
    : History E → History E → Type 0 where
  ended : (h : History E) → Runs server lib request h h
  run :
      (h : History E) {h' : History E}
      → Runs server lib request (reconcile server lib request h).1 h'
      → Runs server lib request h h'
  quiet :
      (call : Call E) (h : History E) {h' : History E}
      → IsQuiet call
      → Runs server lib request (call ∷ h) h'
      → Runs server lib request h h'

length-views : {E : Type 0} (jobs : List (Job E)) → length (views jobs) ≡ length jobs
length-views [] = refl
length-views (job ∷ jobs) = ap suc (length-views jobs)

module _ {E : Type 0} (server : Server E) (lib : Library E) (laws : IsLibrary lib)
    (request : NamespacedName) (uid hash : String) (generation : ℤ)
    (object : History E → ReactiveJob E) (jobs : History E → List (Job E))
    (serves : Serves server lib request uid hash generation object jobs)
    (fits : InRange generation) where
  Runs-MachineSteps :
      {h h' : History E}
      → Runs server lib request h h'
      → IsConsistent hash generation (views (jobs h))
      → MachineSteps hash generation (views (jobs h)) (views (jobs h'))
  Runs-MachineSteps (ended h) c = stop _
  Runs-MachineSteps (run h rest) c =
      let next =
        reconcile-refines server lib laws request uid hash generation object jobs serves fits h
          c.readable in
      step next (Runs-MachineSteps rest (IsConsistent-step hash generation next c))
  Runs-MachineSteps (quiet call h q rest) c =
      let next : MachineStep hash generation (views (jobs h)) (views (jobs (call ∷ h))) =
        stays _ _ (serves.kept h call q) in
      step next (Runs-MachineSteps rest (IsConsistent-step hash generation next c))

  -- While the template of a ReactiveJob stays the same, and nobody else creates or deletes its jobs,
  -- any number of runs creates at most one job, whatever the server answers to the other calls, if at
  -- the beginning every job can be read and none that is as new as the template has another hash.
  pub Runs-bounded :
      {h h' : History E}
      → Runs server lib request h h'
      → IsConsistent hash generation (views (jobs h))
      → length (jobs h') ≤ suc (length (jobs h))
  Runs-bounded {h} {h'} runs c =
      let bound = bounded-steps hash generation (Runs-MachineSteps runs c) c in
      omega (arith, bound, length-views (jobs h), length-views (jobs h'))
