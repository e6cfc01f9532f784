-- ===== src/Tests/Storing.antt =====
-- A server that stores the jobs that are created, and runs against it.
use mathlib.Core.List.{Perm, mem-cons, not-mem-nil}
use mathlib.Core.List.Perm
use mathlib.Core.Logic.Or
use reactivejob_operator.Prelude.{suc, ◌≤◌, refl, List, [], ◌∷◌, length, arith, str_eq, eq_iff}
use reactivejob_operator.Prelude.Int.{pos}
use reactivejob_operator.Strconv.{atoi}
use reactivejob_operator.Api.Meta.{lookup}
use reactivejob_operator.Api.Types.{Job}
use reactivejob_operator.Kube.Server.{
  Server, Call, History, done, get, list, update, update_status, create_job, dry_run_create_job,
  update_job, delete_job,
}
use reactivejob_operator.Controller.Hash.{must_atoi, json_hash}
use reactivejob_operator.Controller.Reconcile.{reconcile}
use reactivejob_operator.Controller.Cluster.{views, IsQuiet, Serves}
use reactivejob_operator.Controller.Cluster.Machine.{
  MachineStep, IsConsistent, view_readable, view_hash,
}
use reactivejob_operator.Controller.Cluster.Refines.{reconcile-refines}
use reactivejob_operator.Controller.Cluster.Bound.{ended, run, Runs-bounded}
use reactivejob_operator.Tests.Strings.{contains, test_prop}
use reactivejob_operator.Tests.Sample.{
  Content, library, library-IsLibrary, sample, old_job, sample_hash, server, request,
}

stored : History Content → List (Job Content)
stored [] = old_job ∷ []
stored (get _ ∷ h) = stored h
stored (list _ _ _ ∷ h) = stored h
stored (update _ ∷ h) = stored h
stored (update_status _ ∷ h) = stored h
stored (create_job job ∷ h) = job ∷ stored h
stored (dry_run_create_job _ ∷ h) = stored h
stored (update_job _ ∷ h) = stored h
stored (delete_job _ ∷ h) = stored h

abbrev storing : Server Content
storing = record (server sample []) { list = λ h namespace key value. done (stored h) }

stored-kept :
    (h : History Content) (call : Call Content)
    → IsQuiet call
    → Perm (views (stored (call ∷ h))) (views (stored h))
unfolding stored
stored-kept h (get _) q = Perm.refl _
stored-kept h (list _ _ _) q = Perm.refl _
stored-kept h (update _) q = Perm.refl _
stored-kept h (update_status _) q = Perm.refl _
stored-kept h (create_job _) q = absurd q
stored-kept h (dry_run_create_job _) q = Perm.refl _
stored-kept h (update_job _) q = Perm.refl _
stored-kept h (delete_job _) q = absurd q

storing-Serves : Serves storing library request "u-1" sample_hash (pos 3) (λ h. sample) stored
unfolding stored contains json_hash
storing-Serves = record {
  read = λ h. refl;
  same_uid = λ h. refl;
  same_generation = λ h. refl;
  same_template = λ h. refl;
  seen = λ h. refl;
  alive = λ h. refl;
  owned = λ h. refl;
  listed = λ h. refl;
  created = λ h job {made} e. Perm.refl _;
  refused = λ h job {e} p. cc p;
  kept = stored-kept;
}

old_job-IsConsistent : IsConsistent sample_hash (pos 3) (views (stored []))
unfolding stored must_atoi atoi lookup
old_job-IsConsistent = record {
  readable = λ v m.
      Or.elim (test_prop (view_readable v)) (mem-cons.0 m) (λ e. rw e refl)
        (λ m'. absurd (not-mem-nil m'));
  same_hash = λ v m above. (eq_iff (view_hash v) sample_hash).0 (
      Or.elim (test_prop (str_eq (view_hash v) sample_hash)) (mem-cons.0 m)
        (λ e. absurd (omega (arith, rw e at above))) (λ m'. absurd (not-mem-nil m')));
}

reconcile-refines_example :
    MachineStep sample_hash
      (pos 3)
      (views (stored []))
      (views (stored (reconcile storing library request []).1))
reconcile-refines_example =
    reconcile-refines storing library library-IsLibrary request "u-1" sample_hash (pos 3)
      (λ h. sample) stored storing-Serves (omega arith) [] old_job-IsConsistent.readable

Runs-bounded_example :
    length (stored (reconcile storing library request (reconcile storing library request []).1).1)
    ≤ suc (length (stored []))
Runs-bounded_example =
    Runs-bounded storing library library-IsLibrary request "u-1" sample_hash (pos 3) (λ h. sample)
      stored storing-Serves (omega arith) {h = []}
      {h' = (reconcile storing library request (reconcile storing library request []).1).1}
      (run [] (run _ (ended _))) old_job-IsConsistent
