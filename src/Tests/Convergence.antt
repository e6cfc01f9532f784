-- ===== src/Tests/Convergence.antt =====
-- The run after a job was created, at a server that lists that job and an older one.
use mathlib.Core.List.{Mem, Perm, mem-cons, mem-cons_of_mem, mem-cons_self, not-mem-nil}
use mathlib.Core.Logic.Or
use reactivejob_operator.Prelude.{◌≡◌, refl, true, List, [], ◌∷◌, arith, str_eq, eq_iff}
use reactivejob_operator.Prelude.Int.{pos, ◌≤ℤ◌}
use reactivejob_operator.Strconv.{atoi, format_int}
use reactivejob_operator.Api.Meta.{map_get, lookup, insert}
use reactivejob_operator.Api.Types.{Job}
use reactivejob_operator.Kube.Server.{Server, update_status}
use reactivejob_operator.Kube.Library.{ok}
use reactivejob_operator.Controller.Hash.{must_atoi, json_hash}
use reactivejob_operator.Controller.Objects.{
  annotation_controller_hash, new_job, report, requeue_in,
}
use reactivejob_operator.Controller.Newest.{generation_number, is_readable}
use reactivejob_operator.Controller.Reconcile.{reconcile}
use reactivejob_operator.Controller.Runs.Settle.{settled_calls, settled_object}
use reactivejob_operator.Controller.Runs.Converge.{CreatedFor, reconcile-converges}
use reactivejob_operator.Tests.Strings.{contains, test_prop}
use reactivejob_operator.Tests.Sample.{
  Content, library, library-IsLibrary, sample, current_job, old_job, sample_hash, server, request,
  template,
}

abbrev pub two_jobs : List (Job Content)
two_jobs = old_job ∷ current_job ∷ []

abbrev both : Server Content
both = server sample two_jobs

pub two_jobs-readable : (x : Job Content) → Mem x two_jobs → is_readable x ≡ true
unfolding must_atoi atoi lookup
two_jobs-readable x m =
    Or.elim (test_prop (is_readable x)) (mem-cons.0 m) (λ e. rw e refl)
      (λ m'.
        Or.elim (test_prop (is_readable x)) (mem-cons.0 m') (λ e. rw e refl)
          (λ m''. absurd (not-mem-nil m'')))

old_below : ¬ (pos 3 ≤ℤ generation_number old_job)
unfolding must_atoi atoi lookup
old_below h = omega arith

two_jobs-hash :
    (x : Job Content)
    → Mem x two_jobs
    → pos 3 ≤ℤ generation_number x
    → map_get x.meta.annotations annotation_controller_hash ≡ sample_hash
unfolding lookup
two_jobs-hash x m above =
    let test = str_eq (map_get x.meta.annotations annotation_controller_hash) sample_hash in
    (eq_iff _ _).0 (
      Or.elim (test_prop test) (mem-cons.0 m) (λ e. absurd (old_below (rw e at above)))
        (λ m'.
          Or.elim (test_prop test) (mem-cons.0 m') (λ e. rw e refl)
            (λ m''. absurd (not-mem-nil m''))))

current_job-created :
    CreatedFor both library library-IsLibrary
      (λ h k. k)
      (λ h k. refl)
      "default"
      sample
      sample_hash
      current_job
unfolding new_job insert format_int
current_job-created = refl

hash-template : json_hash library template ≡ ok sample_hash
unfolding json_hash
hash-template = refl

reconcile-converges_example :
    (current : Job Content) × (old : List (Job Content)) × Perm (current ∷ old) two_jobs
    × (pos 3 ≤ℤ generation_number current)
    × (map_get current.meta.annotations annotation_controller_hash ≡ sample_hash)
    × (reconcile both library request [] ≡ (
      ok (requeue_in (report current.conditions).requeue_after),
      update_status
            (settled_object both library (λ h k. k) (λ h k. refl) request sample current old [])
          ∷ settled_calls both library (λ h k. k) (λ h k. refl) request sample old [],
    ))
unfolding contains
reconcile-converges_example =
    reconcile-converges both library library-IsLibrary (λ h k. k) (λ h k. refl) request sample
      sample [] {items = two_jobs} current_job sample_hash (omega arith) current_job-created refl
      refl refl refl refl hash-template (mem-cons_of_mem old_job mem-cons_self) two_jobs-readable
      two_jobs-hash
