-- ===== src/Controller/Drain/Ends.antt =====
-- The deletion of a ReactiveJob ends after two runs.
use mathlib.Core.List.{
  Mem, Perm, mem-cons, mem-cons_self, mem-cons_of_mem, not-mem-nil, mem-map_of_mem,
  exists_of_mem-map,
}
use mathlib.Core.List.Perm
use mathlib.Core.Logic.Or
use mathlib.Core.Logic.{∥∥₁_elim}
use reactivejob_operator.Prelude.{
  String, ◌≡◌, ◌≢◌, refl, ap, sym, ◌∙◌, subst, ◌⊎◌, inl, inr, List, [], ◌∷◌, ◌++◌, All,
}
use reactivejob_operator.Api.Meta.{NamespacedName}
use reactivejob_operator.Api.Types.{Job, ReactiveJob}
use reactivejob_operator.Kube.Server.{
  Server, Call, History, done, get, list, update, update_status, create_job, dry_run_create_job,
  update_job, delete_job,
}
use reactivejob_operator.Kube.Library.{Library, IsLibrary, Outcome, ok}
use reactivejob_operator.Controller.Objects.{label_controller_uid, older}
use reactivejob_operator.Controller.Newest.{newest_first}
use reactivejob_operator.Controller.Reconcile.{reconcile}
use reactivejob_operator.Controller.Safety.{found_jobs}
use reactivejob_operator.Controller.Safety.Terminating.{
  TerminatingCall, reconcile-terminating_calls,
}
use reactivejob_operator.Controller.Runs.{looked_up}
use reactivejob_operator.Controller.Runs.Delete.{IsDrained, reconcile-lets_go, reconcile-drains}
use reactivejob_operator.Controller.Drain.{names, MakesNoJob, Drains, TakesOff}

module _ {A : Type 0} where
  empty_of : (l : List A) → ((x : A) → Mem x l → ⊥) → l ≡ []
  empty_of [] none_in = refl
  empty_of (x ∷ l) none_in = absurd (none_in x mem-cons_self)

  -- What holds of all is not refuted of a member.
  among : (P : A → Type 0) (l : List A) → All P l → (x : A) → Mem x l → (P x → ⊥) → ⊥
  among P [] all x m lives = not-mem-nil m
  among P (y ∷ l) (holds, others) x m lives =
      Or.elim (λ a b. absurd a) (mem-cons.0 m) (λ e. lives (subst P (sym e) holds))
        (λ later. among P l others x later lives)

later-IsDrained :
    {E : Type 0} (lib : Library E) (call : Call E) (h : History E) (l : List (Job E))
    → All (IsDrained lib h) l
    → All (IsDrained lib (call ∷ h)) l
later-IsDrained lib call h [] all = tt
later-IsDrained lib call h (k ∷ l) ((released, deleted), others) = (
  (
    λ has. mem-cons_of_mem _ (released has),
    λ alive. ((deleted alive).0, mem-cons_of_mem _ (deleted alive).1, (deleted alive).2),
  ),
  later-IsDrained lib call h l others,
)

module _ {E : Type 0} {server : Server E} {lib : Library E} (laws : IsLibrary lib)
    {request : NamespacedName} {uid : String} {object : History E → ReactiveJob E}
    {jobs : History E → List (Job E)} (drains : Drains server lib request uid object jobs) where
  -- Over calls that create no job.
  back :
      (calls h : History E)
      → All MakesNoJob calls
      → (n : String) → Mem n (names (jobs (calls ++ h)))
      → Mem n (names (jobs h))
  back [] h none_made n m = m
  back (call ∷ calls) h (quiet, others) n m =
      back calls h others n (drains.none_new (calls ++ h) call quiet n m)

  terminating-MakesNoJob :
      (r : ReactiveJob E) (namespace : String) (found : Outcome (List (Job E))) (calls : History E)
      → All (TerminatingCall server lib r namespace found) calls
      → All MakesNoJob calls
  terminating-MakesNoJob r namespace found [] all = tt
  terminating-MakesNoJob r namespace found (call ∷ calls) (holds, others) =
      (quiet call holds, terminating-MakesNoJob r namespace found calls others)
    where
      quiet : (c : Call E) → TerminatingCall server lib r namespace found c → MakesNoJob c
      quiet (get _) p = tt
      quiet (list _ _ _) p = tt
      quiet (update _) p = tt
      quiet (update_status _) p = tt
      quiet (create_job _) p = p
      quiet (dry_run_create_job _) p = tt
      quiet (update_job _) p = tt
      quiet (delete_job _) p = tt

  listed_at :
      (h : History E)
      → server.list (get request ∷ h) request.namespace label_controller_uid (object h).meta.uid
        ≡ done (jobs (get request ∷ h))
  listed_at h = rw (drains.same_uid h) (drains.listed (get request ∷ h))

  -- With no job left.
  empty-TakesOff :
      (h : History E) → jobs (get request ∷ h) ≡ [] → TakesOff server lib request (object h) h
  empty-TakesOff h none_left =
      let (sorted, e, perm, _) = newest_first lib laws [] (λ x m. absurd (not-mem-nil m)) in
      reconcile-lets_go server lib request (object h) h (drains.read h) (drains.seen h)
        (listed_at h ∙ ap done none_left) (e ∙ ap ok (Perm.eq-nil perm)) (drains.dying h)
        (drains.none_foreign h) (drains.own h) (drains.accepts_update _ _)

  -- Where every job that was listed was asked to go and none was made, none is listed by the next run.
  gone_at :
      (calls h : History E)
      → All MakesNoJob calls
      → ((k : Job E) → Mem k (jobs h) → (IsDrained lib (calls ++ h) k → ⊥) → ⊥)
      → (x : Job E) → Mem x (jobs (get request ∷ calls ++ h))
      → ⊥
  gone_at calls h quiet drained x m =
      let still = mem-map_of_mem (λ k. k.meta.name) m in
      ∥∥₁_elim (exists_of_mem-map (back (get request ∷ calls) h (tt, quiet) x.meta.name still))
        (λ a b. absurd a)
        (λ (k, listed_k, same). drained k listed_k (λ asked.
          drains.gone h calls k listed_k asked
            (subst (λ n. Mem n (names (jobs (get request ∷ calls ++ h)))) (sym same) still)))

  -- The run with jobs left, from its history on.
  module _ (stored : History E → Job E → Job E)
      (accepts : (h : History E) (k : Job E) → server.update_job h k ≡ done (stored h k))
      (keeps_name : (h : History E) (k : Job E) → (stored h k).meta.name ≡ k.meta.name)
      (keeps_time : (h : History E) (k : Job E)
        → (stored h k).meta.deletion_timestamp ≡ k.meta.deletion_timestamp)
      (deletes : (h : History E) (k : Job E) → server.delete_job h k ≡ done tt) where
    -- Every job that the run listed was asked to go.
    asked_to_go :
        (h : History E) (job : Job E) (old : List (Job E))
        → lib.sort_by older (jobs (get request ∷ h)) ≡ ok (job ∷ old)
        → All (IsDrained lib (reconcile server lib request h).1) (job ∷ old)
    asked_to_go h job old e =
        let r = object h in
        let (calls, run, all, _) =
          reconcile-drains server lib stored accepts keeps_name keeps_time deletes request r h job
            old (drains.read h) (drains.seen h) (listed_at h) e (drains.dying h)
            (drains.none_foreign h) in
        subst (λ g. All (IsDrained lib g) (job ∷ old)) (sym (ap (λ x. x.1) run))
          (later-IsDrained lib (update_status _) (calls ++ looked_up request r h) (job ∷ old) all)

    none_left :
        (h : History E) (sorted : List (Job E))
        → lib.sort_by older (jobs (get request ∷ h)) ≡ ok sorted
        → Perm sorted (jobs (get request ∷ h))
        → sorted ≢ []
        → jobs (get request ∷ (reconcile server lib request h).1) ≡ []
    none_left h [] e perm full = absurd (full refl)
    none_left h (job ∷ old) e perm full =
        let r = object h in
        let (calls, added, all) =
          reconcile-terminating_calls server lib request r h (drains.read h) (drains.dying h) in
        let drained =
          subst (λ g. All (IsDrained lib g) (job ∷ old)) added (asked_to_go h job old e) in
        subst (λ g. jobs (get request ∷ g) ≡ []) (sym added)
          (empty_of (jobs (get request ∷ calls ++ get request ∷ h)) (λ x m.
            gone_at calls (get request ∷ h)
              (terminating-MakesNoJob r request.namespace (found_jobs server lib request r h) calls
                all)
              (λ k mk lives.
                among (IsDrained lib (calls ++ get request ∷ h)) (job ∷ old) drained k
                  ((Perm.mem_iff perm).1 mk) lives)
              x m))

  -- Let the server do what Drains says, and accept the updates and deletions of jobs, where an update keeps
  -- the job's name and deletion timestamp. Then the deletion of the ReactiveJob ends within two runs that
  -- follow each other: the first, or else the second, takes the operator's finalizer off the object.
  pub reconcile-ends :
      (stored : History E → Job E → Job E)
      (accepts : (h : History E) (k : Job E) → server.update_job h k ≡ done (stored h k))
      (keeps_name : (h : History E) (k : Job E) → (stored h k).meta.name ≡ k.meta.name)
      (keeps_time : (h : History E) (k : Job E)
        → (stored h k).meta.deletion_timestamp ≡ k.meta.deletion_timestamp)
      (deletes : (h : History E) (k : Job E) → server.delete_job h k ≡ done tt) (h : History E)
      → TakesOff server lib request (object h) h
        ⊎ TakesOff server lib request
            (object (reconcile server lib request h).1)
            (reconcile server lib request h).1
  reconcile-ends stored accepts keeps_name keeps_time deletes h =
      by_cases (jobs (get request ∷ h)) refl
    where
      by_cases :
          (l : List (Job E))
          → jobs (get request ∷ h) ≡ l
          → TakesOff server lib request (object h) h
            ⊎ TakesOff server lib request
                (object (reconcile server lib request h).1)
                (reconcile server lib request h).1
      by_cases [] e = inl (empty-TakesOff h e)
      by_cases (job ∷ others) e =
          let (sorted, sorts, perm, _) =
            newest_first lib laws (jobs (get request ∷ h)) (drains.readable (get request ∷ h)) in
          inr (
            empty-TakesOff (reconcile server lib request h).1 (
              none_left stored accepts keeps_name keeps_time deletes h sorted sorts perm
                (λ none_listed. not-mem-nil (
                  subst (λ l. Mem job l) none_listed
                    ((Perm.mem_iff perm).1 (subst (λ l. Mem job l) (sym e) mem-cons_self))))))
