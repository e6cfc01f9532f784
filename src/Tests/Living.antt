-- ===== src/Tests/Living.antt =====
-- A server that stores a ReactiveJob and its jobs, one of them from before, and the runs that follow.
use mathlib.Core.List.{Mem, Perm, mem-cons, not-mem-nil, exists_of_mem-map}
use mathlib.Core.Logic.{∥∥₁_elim, ∥∥₁_prop}
use text.Mathlib.TextEquality.{IsScalar-prop}
use mathlib.Core.List.Perm
use mathlib.Core.Logic.Or
use reactivejob_operator.Prelude.{
  ℕ, ◌≡◌, refl, List, [], ◌∷◌, map, arith, sym, subst, eq_iff, ap, ◌∙◌, str_eq, Bool-cases, inl,
  inr, if◌then◌else◌,
}
use reactivejob_operator.Strconv.{atoi}
use reactivejob_operator.Api.Meta.{lookup}
use reactivejob_operator.Api.Types.{Job, ReactiveJob}
use reactivejob_operator.Kube.Server.{
  Server, Call, History, done, get, list, update, update_status, create_job, dry_run_create_job,
  update_job, delete_job,
}
use reactivejob_operator.Controller.Hash.{json_hash, must_atoi}
use reactivejob_operator.Controller.Reconcile.{reconcile}
use reactivejob_operator.Controller.Cluster.{IsQuiet}
use reactivejob_operator.Controller.Life.{
  Known, known, Stores, IsElsewhere, IsServed, IsOld, known_prop, Rounds, ended, run, other,
  IsAlike, Writes,
}
use reactivejob_operator.Controller.Life.Lasting.{Rounds-IsServed}
use reactivejob_operator.Tests.Sample.{
  Content, library, library-IsLibrary, sample, server, request, sample_hash, old_job,
}

-- As a user creates it: without a state and without the operator's finalizer.
abbrev pub new_one : ReactiveJob Content
new_one = record sample {
  meta = record (sample.meta) { finalizers = [] };
  status = record (sample.status) { state = "" };
}

unfoldable pub object : History Content → ReactiveJob Content
object [] = new_one
object (get _ ∷ h) = object h
object (list _ _ _ ∷ h) = object h
object (update r ∷ h) = record r { status = (object h).status }
object (update_status r ∷ h) = let o = object h in record o { status = r.status }
object (create_job job ∷ h) = object h
object (dry_run_create_job _ ∷ h) = object h
object (update_job _ ∷ h) = object h
object (delete_job _ ∷ h) = object h

-- A server stores the finalizers of the job that it is given.
unfoldable pub written : Job Content → Job Content → Job Content
written job x =
    if str_eq job.meta.name x.meta.name
    then record x { meta = record (x.meta) { finalizers = job.meta.finalizers } }
    else x

-- The jobs, where these are there from before.
unfoldable pub jobs : List (Job Content) → History Content → List (Job Content)
jobs start [] = start
jobs start (get _ ∷ h) = jobs start h
jobs start (list _ _ _ ∷ h) = jobs start h
jobs start (update _ ∷ h) = jobs start h
jobs start (update_status _ ∷ h) = jobs start h
jobs start (create_job job ∷ h) = job ∷ jobs start h
jobs start (dry_run_create_job _ ∷ h) = jobs start h
jobs start (update_job job ∷ h) = map (written job) (jobs start h)
jobs start (delete_job _ ∷ h) = jobs start h

abbrev pub storing : List (Job Content) → Server Content
storing start = record (server sample []) {
  get = λ h request. done (object h);
  list = λ h namespace key value. done (jobs start h);
  update = λ h r. done (object (update r ∷ h));
  update_status = λ h r. done (object (update_status r ∷ h));
}

object-untouched :
    (h : History Content) (call : Call Content) → IsElsewhere call → object (call ∷ h) ≡ object h
unfolding object
object-untouched h (get _) e = refl
object-untouched h (list _ _ _) e = refl
object-untouched h (update _) e = absurd e
object-untouched h (update_status _) e = absurd e
object-untouched h (create_job _) e = refl
object-untouched h (dry_run_create_job _) e = refl
object-untouched h (update_job _) e = refl
object-untouched h (delete_job _) e = refl

written-known : (job x : Job Content) → known (written job x) ≡ known x
unfolding written
written-known job x = elim (Bool-cases (str_eq job.meta.name x.meta.name)) [
  | inl same ↦ rw same refl
  | inr differs ↦ rw differs refl
]

map-written :
    (job : Job Content) (l : List (Job Content)) → map known (map (written job) l) ≡ map known l
map-written job [] = refl
map-written job (x ∷ l) = cc (written-known job x, map-written job l)

written-same :
    (job y : Job Content)
    → job.meta.name ≡ y.meta.name
    → (written job y).meta.finalizers ≡ job.meta.finalizers
unfolding written
written-same job y same = rw ((eq_iff _ _).1 same) refl

written-other : (job y : Job Content) → ¬ (job.meta.name ≡ y.meta.name) → written job y ≡ y
unfolding written
written-other job y differ = elim (Bool-cases (str_eq job.meta.name y.meta.name)) [
  | inl same ↦ absurd (differ ((eq_iff _ _).0 same))
  | inr differs ↦ rw differs refl
]

name-written : (job y : Job Content) → (written job y).meta.name ≡ y.meta.name
name-written job y = ap (λ v. v.0) (written-known job y)

jobs-rewritten :
    (start : List (Job Content)) (h : History Content) (job x : Job Content)
    → Mem x (jobs start (update_job job ∷ h))
    → job.meta.name ≡ x.meta.name
    → x.meta.finalizers ≡ job.meta.finalizers
unfolding jobs
jobs-rewritten start h job x m same =
    ∥∥₁_elim (exists_of_mem-map m) (hlevel IsScalar-prop) (λ (y, _, e).
      ap (λ k. k.meta.finalizers) (sym e)
      ∙ written-same job y (same ∙ ap (λ k. k.meta.name) (sym e) ∙ name-written job y))

jobs-carried :
    (start : List (Job Content)) (h : History Content) (call : Call Content) (x : Job Content)
    → IsQuiet call
    → ¬ Writes call x.meta.name
    → Mem x (jobs start (call ∷ h))
    → ∥ ((y : Job Content) × Mem y (jobs start h) × IsAlike y x) ∥₁
unfolding jobs
jobs-carried start h (get _) x q n m = ∣ (x, m, (refl, refl)) ∣₁
jobs-carried start h (list _ _ _) x q n m = ∣ (x, m, (refl, refl)) ∣₁
jobs-carried start h (update _) x q n m = ∣ (x, m, (refl, refl)) ∣₁
jobs-carried start h (update_status _) x q n m = ∣ (x, m, (refl, refl)) ∣₁
jobs-carried start h (create_job _) x q n m = absurd q
jobs-carried start h (dry_run_create_job _) x q n m = ∣ (x, m, (refl, refl)) ∣₁
jobs-carried start h (update_job job) x q n m =
    ∥∥₁_elim (exists_of_mem-map m) ∥∥₁_prop (λ (y, my, e).
      let same =
        written-other job y (λ s. n (s ∙ sym (name-written job y) ∙ ap (λ k. k.meta.name) e)) in
      ∣ (
        y,
        my,
        (ap (λ k. k.meta.name) (sym same ∙ e), ap (λ k. k.meta.finalizers) (sym same ∙ e)),
      ) ∣₁)
jobs-carried start h (delete_job _) x q n m = absurd q

jobs-kept :
    (start : List (Job Content)) (h : History Content) (call : Call Content)
    → IsQuiet call
    → Perm (map known (jobs start (call ∷ h))) (map known (jobs start h))
unfolding jobs
jobs-kept start h (get _) q = Perm.refl _
jobs-kept start h (list _ _ _) q = Perm.refl _
jobs-kept start h (update _) q = Perm.refl _
jobs-kept start h (update_status _) q = Perm.refl _
jobs-kept start h (create_job _) q = absurd q
jobs-kept start h (dry_run_create_job _) q = Perm.refl _
jobs-kept start h (update_job job) q =
    subst (λ l. Perm l (map known (jobs start h))) (sym (map-written job (jobs start h)))
      (Perm.refl _)
jobs-kept start h (delete_job _) q = absurd q

pub storing-Stores :
    (start : List (Job Content)) → Stores (storing start) request object (jobs start)
unfolding object jobs
storing-Stores start = record {
  read = λ h. refl;
  listed = λ h. refl;
  untouched = object-untouched;
  updated = λ h r e. (refl, e, refl, refl);
  status_updated = λ h r. (refl, refl, refl);
  created = λ h job. (job, refl, refl, Perm.refl _);
  stored_job = λ h job. job;
  accepts = λ h job. refl;
  kept = jobs-kept start;
  rewritten = jobs-rewritten start;
  carried = jobs-carried start;
}

abbrev alone : List (Job Content)
alone = old_job ∷ []

old_job_alone : (v : Known) → Mem v (known old_job ∷ []) → v ≡ known old_job
old_job_alone v m = Or.elim known_prop (mem-cons.0 m) (λ e. e) (λ m'. absurd (not-mem-nil m'))

old_job-IsOld :
    (v : Known)
    → Mem v (known old_job ∷ [])
    → IsOld new_one.meta.generation sample_hash (known old_job ∷ []) v
unfolding must_atoi atoi lookup
old_job-IsOld v m =
    subst (IsOld new_one.meta.generation sample_hash (known old_job ∷ [])) (sym (old_job_alone v m))
      (refl, (λ above. omega (arith, above)), (λ latest e. cc ((eq_iff "00" sample_hash).1 e)))

-- Three runs, with a call of another client after the first.
abbrev first : History Content
first = (reconcile (storing alone) library request []).1

abbrev third : History Content
third =
    (reconcile (storing alone) library request
      (reconcile (storing alone) library request (update_job old_job ∷ first)).1).1

Rounds-IsServed_example :
    (only : Known) × ((n : ℕ) (h : History Content)
      → Rounds (storing alone) library request n third h
      → IsServed
          (storing alone)
          library
          request
          object
          (jobs alone)
          new_one
          sample_hash
          (known old_job ∷ [])
          h
          only)
unfolding jobs json_hash object
Rounds-IsServed_example =
    Rounds-IsServed (storing alone) library library-IsLibrary request object (jobs alone)
      (storing-Stores alone) new_one sample_hash (known old_job ∷ []) old_job-IsOld (omega arith)
      refl refl {h = []} {h' = third}
      (run [] (other (update_job old_job) first tt tt (run _ (run _ (ended third))))) refl
      (Perm.refl _)
