-- ===== src/Controller/Life/Served.antt =====
-- The runs for a ReactiveJob that has its job.
use mathlib.Core.List.Perm
use mathlib.Core.List.{Mem, Perm}
use reactivejob_operator.Prelude.{
  zero, String, ◌≡◌, refl, ap, sym, ◌∙◌, subst, true, false, List, ◌∷◌, str_eq,
}
use reactivejob_operator.Api.Meta.{NamespacedName, is_zero, map_get}
use reactivejob_operator.Api.Types.{Job, ReactiveJob}
use reactivejob_operator.Api.Condition.{set_state}
use reactivejob_operator.Kube.Server.{Server, History, get, update_status}
use reactivejob_operator.Kube.Library.{Library, IsLibrary, ok}
use reactivejob_operator.Webhook.{default}
use reactivejob_operator.Controller.Hash.{json_hash}
use reactivejob_operator.Controller.Objects.{finalizer, annotation_controller_hash}
use reactivejob_operator.Controller.Reconcile.{acknowledged, reconcile}
use reactivejob_operator.Controller.Runs.{looked_up}
use reactivejob_operator.Controller.Runs.Settle.{
  releases, then_calls, settled_object, reconcile-settles,
}
use reactivejob_operator.Controller.Runs.Status.{
  IsState, is_new, is_processing, is_deletion_blocked, is_deleting, is_ready, is_error,
  report-IsState,
}
use reactivejob_operator.Controller.Life.{
  Known, known, identity, Stores, IsPrepared, IsServed, IsOld, Rounds, ended,
}
use reactivejob_operator.Controller.Life.Current.{sorted_current}
use reactivejob_operator.Controller.Life.Released.{releases-clean}
use reactivejob_operator.Controller.Life.Reads.{
  object-releases, jobs-releases, object-looked, jobs-read, jobs-looked, listed-read, same_alive,
  same_hash,
}

-- A state of the enumeration is not empty.
IsState-seen : {state : String} → IsState state → str_eq state "" ≡ false
IsState-seen is_new = refl
IsState-seen is_processing = refl
IsState-seen is_deletion_blocked = refl
IsState-seen is_deleting = refl
IsState-seen is_ready = refl
IsState-seen is_error = refl

module _ {E : Type 0} (server : Server E) (lib : Library E) (laws : IsLibrary lib)
    (request : NamespacedName) (object : History E → ReactiveJob E)
    (jobs : History E → List (Job E)) (stores : Stores server request object jobs)
    (original : ReactiveJob E) (hash : String) (others : List Known)
    (old : (v : Known) → Mem v others → IsOld original.meta.generation hash others v)
    (alive : is_zero original.meta.deletion_timestamp ≡ true)
    (hashed : json_hash lib original.spec.job_template ≡ ok hash) where
  abbrev Prepared : History E → Known → Type 0
  Prepared = IsPrepared lib object jobs original hash others

  abbrev Served : History E → Known → Type 0
  Served = IsServed server lib request object jobs original hash others

  -- The calls of such a run.
  abbrev served_calls : History E → Job E → List (Job E) → History E
  served_calls h job rest =
      update_status
        (settled_object server lib stores.stored_job stores.accepts request (object h) job rest h)
      ∷ then_calls (looked_up request (object h) h) (releases lib rest)

  calls-Prepared :
      (h : History E) (only : Known)
      → Prepared h only
      → (job : Job E) × (rest : List (Job E)) × (known job ≡ only)
        × Mem job (jobs (get request ∷ h))
        × Perm (job ∷ rest) (jobs (get request ∷ h))
        × ((reconcile server lib request h).1 ≡ served_calls h job rest)
  calls-Prepared h only prepared =
      let o = object h in
      let (job, rest, sorted, e, here, perm) =
        sorted_current lib laws original.meta.generation hash others old only prepared.numbered
          (jobs (get request ∷ h))
          (Perm.trans (jobs-read server request object jobs stores h) prepared.one_more) in
      (
        job,
        rest,
        e,
        here,
        perm,
        ap (λ r. r.1)
            (reconcile-settles server lib stores.stored_job stores.accepts request o h job rest hash
              (stores.read h) prepared.seen (listed-read server request object jobs stores h) sorted
              (same_alive lib original o hash prepared.same alive) prepared.owned
              (same_hash lib original o hash prepared.same hashed)
              (ap (λ k. map_get k.1 annotation_controller_hash) e ∙ prepared.hashed)),
      )

  served_calls-Served :
      (h : History E) (only : Known) (job : Job E) (rest : List (Job E))
      → Prepared h only
      → known job ≡ only
      → Mem job (jobs (get request ∷ h))
      → Perm (job ∷ rest) (jobs (get request ∷ h))
      → (reconcile server lib request h).1 ≡ served_calls h job rest
      → Served (served_calls h job rest) only
  unfolding set_state acknowledged default
  served_calls-Served h only job rest prepared e here perm calls =
      let looked = looked_up request (object h) h in
      let released = then_calls looked (releases lib rest) in
      let found =
        object-releases server lib request object jobs stores rest looked
        ∙ object-looked server request object jobs stores h in
      let (same, status, finalizers) = stores.status_updated released _ in
      record {
        prepared = record {
          same = same ∙ ap identity found ∙ prepared.same;
          seen =
              ap (λ s. str_eq s.state "") status ∙ IsState-seen (report-IsState job.conditions).0;
          owned =
              ap (λ l. lib.contains l finalizer)
                (finalizers ∙ ap (λ (r : ReactiveJob E). r.meta.finalizers) found)
              ∙ prepared.owned;
          one_more = Perm.trans (stores.kept released (update_status _) tt) (
              Perm.trans (jobs-releases server lib request object jobs stores rest looked)
                (Perm.trans (jobs-looked server request object jobs stores h) prepared.one_more));
          hashed = prepared.hashed;
          numbered = prepared.numbered;
        };
        named = ap (λ s. s.current_job_name) status ∙ ap (λ k. k.0) e;
        observed = ap (λ s. s.observed_generation) status ∙ ap (λ i. i.2) prepared.same;
        before = h;
        ran =
            subst (λ h'. Rounds server lib request zero (reconcile server lib request h).1 h') calls
              (ended _);
        job = job;
        is_only = e;
        is_listed = here;
        shown = ap (λ s. s.state) status;
        released = λ x m other_one.
            releases-clean server lib laws request object jobs stores h job rest _ perm x
              (subst (λ h'. Mem x (jobs h')) calls m)
              (λ same_name. other_one (same_name ∙ ap (λ k. k.0) e));
      }

  -- A run for a ReactiveJob that has its job.
  pub reconcile-Served :
      (h : History E) (only : Known)
      → Prepared h only
      → Served (reconcile server lib request h).1 only
  reconcile-Served h only prepared =
      let (job, rest, e, here, perm, calls) = calls-Prepared h only prepared in
      subst (λ h'. Served h' only) (sym calls)
        (served_calls-Served h only job rest prepared e here perm calls)
