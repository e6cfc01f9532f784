-- ===== src/Controller/Cluster/Refines.antt =====
-- One run of `Reconcile` is one step of the machine.
use mathlib.Core.List.{Mem, Perm, mem-cons_self, mem-map_of_mem, exists_of_mem-map}
use mathlib.Core.List.Perm
use mathlib.Core.Logic.{∥∥₁_elim}
use native.Mathlib.Bridge.{le_prop}
use reactivejob_operator.Prelude.{
  String, ◌≡◌, refl, ap, sym, ◌∙◌, subst, true, List, [], ◌∷◌, ◌++◌, str_eq, eq_iff, All,
  Bool-cases, inl, inr, ◌⊎◌,
}
use reactivejob_operator.Prelude.Int.{ℤ, ◌≤ℤ◌}
use reactivejob_operator.Strconv.RoundTrip.{InRange}
use reactivejob_operator.Api.Meta.{NamespacedName, StringMap, map_get}
use reactivejob_operator.Api.Types.{Job, ReactiveJob}
use reactivejob_operator.Kube.Server.{
  Server, ApiError, History, Reply, done, failed, get, list, update_status,
}
use reactivejob_operator.Kube.Library.{Library, IsLibrary, ok}
use reactivejob_operator.Webhook.{default}
use reactivejob_operator.Controller.Monad.{Frame}
use reactivejob_operator.Controller.Objects.{
  label_controller_uid, annotation_controller_hash, annotation_controller_generation, older,
  new_job,
}
use reactivejob_operator.Controller.Hash.{must_atoi}
use reactivejob_operator.Controller.Emits.{Emits, Emits-bind}
use reactivejob_operator.Controller.Calls.{Emits-release_jobs, Emits-report_current}
use reactivejob_operator.Controller.Newest.{newest_first, generation_number, is_readable}
use reactivejob_operator.Controller.NewJob.{new_job-found}
use reactivejob_operator.Controller.Steps.{create_or_report}
use reactivejob_operator.Controller.Reconcile.{acknowledged, reconcile}
use reactivejob_operator.Controller.Safety.{finish-Adds}
use reactivejob_operator.Controller.Runs.{
  looked_up, listing, finished, reconcile-listed, reconcile_jobs-present,
}
use reactivejob_operator.Controller.Runs.Create.{NeedsJob, reconcile_present-owned}
use reactivejob_operator.Controller.Runs.Create.{reconcile-creates}
use reactivejob_operator.Controller.Runs.Adopt.{reconcile-create_fails}
use reactivejob_operator.Controller.Safety.Present.{hash-new_job}
use reactivejob_operator.Controller.Newest.{number_of, is_number}
use reactivejob_operator.Controller.Cluster.{views, IsQuiet, Serves}
use reactivejob_operator.Controller.Cluster.Machine.{
  MachineStep, stays, adds, Lacks, nothing, outdated, view_generation, view_readable,
}

module _ {E : Type 0} (server : Server E) (lib : Library E) where
  -- A job needs to be created, or the newest one has the hash.
  NeedsJob-cases :
      (jobs : List (Job E)) (hash : String)
      → NeedsJob jobs hash
        ⊎ ((current : Job E) × (old : List (Job E)) × (jobs ≡ current ∷ old)
            × (map_get current.meta.annotations annotation_controller_hash ≡ hash))
  NeedsJob-cases [] hash = inl tt
  NeedsJob-cases (current ∷ old) hash =
      elim (Bool-cases
        (str_eq (map_get current.meta.annotations annotation_controller_hash) hash)) [
          | inl same ↦ inr (current, old, refl, (eq_iff _ _).0 same)
          | inr other ↦ inl (λ e. cc (sym other ∙ (eq_iff _ _).1 e))
        ]

  -- Reporting the current job makes quiet calls only, whatever the server answers.
  Emits-current :
      (namespace hash : String) (current : Job E) (old : List (Job E)) (f : Frame E)
      → map_get current.meta.annotations annotation_controller_hash ≡ hash
      → Emits IsQuiet (create_or_report server lib namespace hash (current ∷ old)) f
  unfolding create_or_report
  Emits-current namespace hash current old f same = rw ((eq_iff _ _).1 same) (
      Emits-bind _ _ f (Emits-release_jobs server lib old f (λ k m. tt))
        (λ _ _. Emits-report_current server lib current _))

  Reply-cases :
      {A : Type 0} (reply : Reply A)
      → ((a : A) × (reply ≡ done a)) ⊎ ((e : ApiError) × (reply ≡ failed e))
  Reply-cases (done a) = inl (a, refl)
  Reply-cases (failed e) = inr (e, refl)

  -- Where the newest of the listed jobs lacks the hash, so do the annotations of the stored ones.
  NeedsJob-Lacks :
      (hash : String) (items sorted : List (Job E)) (vs : List StringMap)
      → Perm (views items) vs
      → Perm sorted items
      → ((current : Job E) (old : List (Job E))
          → sorted ≡ current ∷ old
          → (x : Job E) → Mem x items
          → generation_number x ≤ℤ generation_number current)
      → NeedsJob sorted hash
      → Lacks hash vs
  NeedsJob-Lacks hash items [] vs viewed perm top needed =
      nothing vs
        (sym (Perm.nil-eq (Perm.trans (Perm.map (λ job. job.meta.annotations) perm) viewed)))
  NeedsJob-Lacks hash items (current ∷ old) vs viewed perm top needed =
      let here : Mem current items = (Perm.mem_iff perm).0 mem-cons_self in
      outdated vs current.meta.annotations ((Perm.mem_iff viewed).0 (mem-map_of_mem _ here))
        (λ u m. ∥∥₁_elim (exists_of_mem-map ((Perm.mem_iff viewed).1 m)) le_prop (λ (x, mx, e).
          subst (λ v. view_generation v ≤ℤ generation_number current) e
            (top current old refl x mx)))
        needed

module _ {E : Type 0} (server : Server E) (lib : Library E) (laws : IsLibrary lib)
    (request : NamespacedName) (uid hash : String) (generation : ℤ)
    (object : History E → ReactiveJob E) (jobs : History E → List (Job E))
    (serves : Serves server lib request uid hash generation object jobs)
    (fits : InRange generation) where
  quiet-Perm :
      (calls h : History E) → All IsQuiet calls → Perm (views (jobs (calls ++ h))) (views (jobs h))
  quiet-Perm [] h all = Perm.refl _
  quiet-Perm (call ∷ calls) h (quiet, all) =
      Perm.trans (serves.kept (calls ++ h) call quiet) (quiet-Perm calls h all)

  module _ (h : History E) where
    abbrev items : List (Job E)
    items = jobs (get request ∷ h)

    abbrev new : Job E
    new = new_job lib request.namespace (acknowledged (object h)) hash

    listed_here :
        server.list (get request ∷ h) request.namespace label_controller_uid (object h).meta.uid
        ≡ done items
    listed_here =
        ap (server.list (get request ∷ h) request.namespace label_controller_uid)
          (serves.same_uid h)
        ∙ serves.listed (get request ∷ h)

    items-views : Perm (views items) (views (jobs h))
    items-views = serves.kept h (get request) tt

    looked-views : Perm (views (jobs (looked_up request (object h) h))) (views (jobs h))
    looked-views = quiet-Perm (list _ _ _ ∷ get request ∷ []) h (tt, (tt, tt))

    items-readable :
        ((v : StringMap) → Mem v (views (jobs h)) → view_readable v ≡ true)
        → (x : Job E) → Mem x items
        → is_readable x ≡ true
    items-readable readable x m =
        readable x.meta.annotations ((Perm.mem_iff items-views).0 (mem-map_of_mem _ m))

    new-generation :
        must_atoi (map_get new.meta.annotations annotation_controller_generation) ≡ ok generation
    unfolding acknowledged default
    new-generation =
        subst
          (λ g. must_atoi (map_get new.meta.annotations annotation_controller_generation) ≡ ok g)
          (serves.same_generation h)
          (new_job-found lib request.namespace hash (acknowledged (object h))
            (subst InRange (sym (serves.same_generation h)) fits)).0

    -- A run that needs a job adds one, or nothing where the server refuses it.
    creates-MachineStep :
        (sorted : List (Job E))
        → lib.sort_by older items ≡ ok sorted
        → Lacks hash (views (jobs h))
        → NeedsJob sorted hash
        → MachineStep hash generation
            (views (jobs h))
            (views (jobs (reconcile server lib request h).1))
    creates-MachineStep sorted e lacks needed =
        elim (Reply-cases server lib (server.create_job (looked_up request (object h) h) new)) [
          | inl (made, done_) ↦
              adds _ _ new.meta.annotations lacks
                (hash-new_job server lib request.namespace (acknowledged (object h)) hash)
                (ap number_of new-generation) (ap is_number new-generation)
                (rw
                  (reconcile-creates server lib request (object h) h sorted hash (serves.read h)
                    (serves.seen h) listed_here e (serves.alive h) (serves.owned h)
                    (serves.same_template h) needed done_)
                  (Perm.trans (serves.kept _ (update_status _) tt)
                    (Perm.trans (serves.created _ new done_) (Perm.cons _ looked-views))))
          | inr (why, failed_) ↦ stays _ _ (
              rw
                (reconcile-create_fails server lib request (object h) h sorted hash (serves.read h)
                  (serves.seen h) listed_here e (serves.alive h) (serves.owned h)
                  (serves.same_template h) needed failed_)
                (Perm.trans (serves.kept _ (update_status _) tt)
                  (Perm.trans (serves.refused _ new failed_) looked-views)))
        ]

    -- A run whose newest job has the hash adds nothing, whatever the server answers.
    settles-MachineStep :
        (current : Job E) (old : List (Job E))
        → lib.sort_by older items ≡ ok (current ∷ old)
        → map_get current.meta.annotations annotation_controller_hash ≡ hash
        → MachineStep hash generation
            (views (jobs h))
            (views (jobs (reconcile server lib request h).1))
    unfolding acknowledged default
    settles-MachineStep current old e same =
        let f = listing request (object h) h in
        let ran : reconcile server lib request h
            ≡ finished server lib
                (create_or_report server lib request.namespace hash (current ∷ old) f) =
          reconcile-listed server lib request (object h) h (serves.read h) (serves.seen h)
            listed_here (current ∷ old) e
          ∙ ap (finished server lib) (
              reconcile_jobs-present server lib request.namespace (current ∷ old) f (serves.alive h)
              ∙ reconcile_present-owned server lib request.namespace hash (current ∷ old) f
                  (serves.owned h) (serves.same_template h)) in
        let (calls, added, all) =
          finish-Adds server lib
            (create_or_report server lib request.namespace hash (current ∷ old)) f (λ _. tt)
            (Emits-current server lib request.namespace hash current old f same) in
        stays _ _ (
          subst (λ h'. Perm (views (jobs h')) (views (jobs h))) (sym (ap (λ r. r.1) ran ∙ added))
            (Perm.trans (quiet-Perm calls _ all) looked-views))

    -- One run is one step of the machine, if every stored job can be read.
    pub reconcile-refines :
        ((v : StringMap) → Mem v (views (jobs h)) → view_readable v ≡ true)
        → MachineStep hash generation
            (views (jobs h))
            (views (jobs (reconcile server lib request h).1))
    reconcile-refines readable =
        let (sorted, e, perm, top) = newest_first lib laws items (items-readable readable) in
        elim (NeedsJob-cases server lib sorted hash) [
          | inl needed ↦
              creates-MachineStep sorted e
                (NeedsJob-Lacks server lib hash items sorted _ items-views perm top needed) needed
          | inr (current, old, split, same) ↦ settles-MachineStep current old (e ∙ ap ok split) same
        ]
