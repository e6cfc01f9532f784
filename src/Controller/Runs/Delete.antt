-- ===== src/Controller/Runs/Delete.antt =====
-- The runs for a ReactiveJob that is being deleted.
use mathlib.Core.List.{Mem, Memᴰ, mem-cons_self, mem-cons_of_mem, mem-append_right}
use mathlib.Core.List.{append_assoc}
use mathlib.Core.Bool.{false≢true}
use reactivejob_operator.Prelude.{
  ◌*◌, true, false, ◌≡◌, refl, ap, sym, ◌∙◌, subst, List, [], ◌∷◌, ◌++◌, str_eq, All, All-append,
  Bool-cases, inl, inr,
}
use reactivejob_operator.Api.Meta.{NamespacedName, is_zero}
use reactivejob_operator.Api.Types.{Job, ReactiveJob, state_deleting}
use reactivejob_operator.Api.Condition.{set_state}
use reactivejob_operator.Kube.Server.{
  Server, Call, History, done, get, update, create_job, dry_run_create_job, update_job, delete_job,
  update_status,
}
use reactivejob_operator.Kube.Library.{Library, ok}
use reactivejob_operator.Webhook.{default}
use reactivejob_operator.Controller.Monad.{Frame, pure, ◌>>=◌, >>=-ok}
use reactivejob_operator.Controller.Objects.{
  finalizer, label_controller_uid, no_result, older, release, with_finalizers, requeue_in, second,
}
use reactivejob_operator.Controller.Steps.{
  set_state_now, clear_finalizer, update_reactive_job, skip_status, release_job, delete_released,
  delete_jobs, reconcile_deleting, reconcile_terminating,
}
use reactivejob_operator.Controller.Reconcile.{finish, acknowledged, aggregated, reconcile}
use reactivejob_operator.Controller.Runs.{
  looked_up, listing, finished, reconcile-listed, reconcile_jobs-terminating,
}

module _ {E : Type 0} (server : Server E) (lib : Library E) where
  -- For a ReactiveJob that is being deleted and has no foreign finalizer: if no job is left and the
  -- server accepts the update, the run takes the operator's finalizer off the object and ends with no
  -- status update and no further run.
  pub reconcile-lets_go :
      (request : NamespacedName) (r : ReactiveJob E) (h : History E) {items : List (Job E)}
      {stored : ReactiveJob E}
      → server.get h request ≡ done r
      → str_eq r.status.state "" ≡ false
      → server.list (get request ∷ h) request.namespace label_controller_uid r.meta.uid ≡ done items
      → lib.sort_by older items ≡ ok []
      → is_zero r.meta.deletion_timestamp ≡ false
      → lib.remove r.meta.finalizers finalizer ≡ []
      → lib.contains r.meta.finalizers finalizer ≡ true
      → server.update
          (looked_up request r h)
          (with_finalizers (lib.remove_finalizer r.meta.finalizers finalizer) (acknowledged r))
        ≡ done stored
      → reconcile server lib request h ≡ (
        ok no_result,
        update (with_finalizers (lib.remove_finalizer r.meta.finalizers finalizer) (acknowledged r))
            ∷ looked_up request r h,
      )
  unfolding acknowledged default
  reconcile-lets_go request r h read seen listed sorted dying none_foreign own accepted =
      let f = listing request r h in
      reconcile-listed server lib request r h read seen listed [] sorted
      ∙ ap (finished server lib)
          (reconcile_jobs-terminating server lib request.namespace [] f dying)
      ∙ unfold reconcile_terminating reconcile_deleting clear_finalizer update_reactive_job
          skip_status finish ◌>>=◌ in
        rw (none_foreign, own, accepted) refl

-- What the deletion must have asked of the server for a job: the removal of the operator's finalizer,
-- and the deletion unless it is under way.
abbrev pub IsDrained : {E : Type 0} → Library E → History E → Job E → Type 0
IsDrained {E = E} lib h k =
    (lib.contains k.meta.finalizers finalizer ≡ true → Mem (update_job (release lib k)) h)
    × (is_zero k.meta.deletion_timestamp ≡ true
        → (j : Job E) × Mem (delete_job j) h × (j.meta.name ≡ k.meta.name))

-- A call that the deletion makes for one of the jobs: the release of it, or the deletion of one of its name
-- that is not being deleted.
abbrev pub DrainCall : {E : Type 0} → Library E → List (Job E) → Call E → Type 0
DrainCall {E = E} lib jobs (update_job k) = (j : Job E) × Memᴰ j jobs × (k ≡ release lib j)
DrainCall {E = E} lib jobs (delete_job k) =
    (j : Job E) × Memᴰ j jobs
    × (k.meta.name ≡ j.meta.name)
    × (is_zero j.meta.deletion_timestamp ≡ true)
DrainCall lib jobs _ = ⊥

-- The calls made for some of the jobs are calls for the jobs.
DrainCall-wider :
    {E : Type 0} (lib : Library E) (jobs all : List (Job E))
    → ((j : Job E) → Memᴰ j jobs → Memᴰ j all)
    → (call : Call E) → DrainCall lib jobs call
    → DrainCall lib all call
DrainCall-wider lib jobs all within (get _) h = h
DrainCall-wider lib jobs all within (Call.list _ _ _) h = h
DrainCall-wider lib jobs all within (update _) h = h
DrainCall-wider lib jobs all within (update_status _) h = h
DrainCall-wider lib jobs all within (create_job _) h = h
DrainCall-wider lib jobs all within (dry_run_create_job _) h = h
DrainCall-wider lib jobs all within (update_job k) (j, m, e) = (j, within j m, e)
DrainCall-wider lib jobs all within (delete_job k) (j, m, e, alive) = (j, within j m, e, alive)

All-wider :
    {E : Type 0} (lib : Library E) (jobs all : List (Job E))
    → ((j : Job E) → Memᴰ j jobs → Memᴰ j all)
    → (calls : History E) → All (DrainCall lib jobs) calls
    → All (DrainCall lib all) calls
All-wider lib jobs all within [] h = tt
All-wider lib jobs all within (call ∷ calls) (own, h) =
    (DrainCall-wider lib jobs all within call own, All-wider lib jobs all within calls h)

module _ {E : Type 0} (server : Server E) (lib : Library E) (stored : History E → Job E → Job E)
    (accepts : (h : History E) (k : Job E) → server.update_job h k ≡ done (stored h k))
    (keeps_name : (h : History E) (k : Job E) → (stored h k).meta.name ≡ k.meta.name)
    (keeps_time : (h : History E) (k : Job E)
      → (stored h k).meta.deletion_timestamp ≡ k.meta.deletion_timestamp)
    (deletes : (h : History E) (k : Job E) → server.delete_job h k ≡ done tt) where
  -- The object that the status update is sent.
  abbrev pub deleting_object : History E → ReactiveJob E → ReactiveJob E
  deleting_object h r =
      set_state (server.now h) (acknowledged r) state_deleting
        "waiting for deletion of dependent jobs"

  -- One round of the loop.
  drain_one :
      (job : Job E) (f : Frame E)
      → (calls : History E) × ((release_job server lib job >>= λ j. delete_released server lib j) f
          ≡ (ok tt, record f { history = calls ++ f.history }))
        × IsDrained lib (calls ++ f.history) job
        × All (DrainCall lib (job ∷ [])) calls
  unfolding release_job delete_released ◌>>=◌
  drain_one job f = elim (Bool-cases (lib.contains job.meta.finalizers finalizer)) [
    | inl has ↦
        let j = stored f.history (release lib job) in
        let same : is_zero j.meta.deletion_timestamp ≡ is_zero job.meta.deletion_timestamp =
          ap is_zero (keeps_time f.history (release lib job)) in
        elim (Bool-cases (is_zero job.meta.deletion_timestamp)) [
          | inl alive ↦ (
            delete_job j ∷ update_job (release lib job) ∷ [],
            rw (has, accepts, same, alive, deletes) refl,
            (
              (λ _. mem-cons_of_mem _ mem-cons_self),
              (λ _. (j, mem-cons_self, keeps_name f.history (release lib job))),
            ),
            (
              (job, Memᴰ.head refl, keeps_name f.history (release lib job), alive),
              ((job, Memᴰ.head refl, refl), tt),
            ),
          )
          | inr dying ↦ (
            update_job (release lib job) ∷ [],
            rw (has, accepts, same, dying) refl,
            ((λ _. mem-cons_self), (λ e. absurd (false≢true (sym dying ∙ e)))),
            ((job, Memᴰ.head refl, refl), tt),
          )
        ]
    | inr hasnt ↦ elim (Bool-cases (is_zero job.meta.deletion_timestamp)) [
      | inl alive ↦ (
        delete_job job ∷ [],
        rw (hasnt, alive, deletes) refl,
        ((λ e. absurd (false≢true (sym hasnt ∙ e))), (λ _. (job, mem-cons_self, refl))),
        ((job, Memᴰ.head refl, refl, alive), tt),
      )
      | inr dying ↦ (
        [],
        rw (hasnt, dying) refl,
        ((λ e. absurd (false≢true (sym hasnt ∙ e))), (λ e. absurd (false≢true (sym dying ∙ e)))),
        tt,
      )
    ]
  ]

  IsDrained-append :
      (calls h : History E) (k : Job E) → IsDrained lib h k → IsDrained lib (calls ++ h) k
  IsDrained-append calls h k d = (
    λ e. mem-append_right calls (d.0 e),
    λ e. ((d.1 e).0, mem-append_right calls (d.1 e).1, (d.1 e).2),
  )

  alone : {j job : Job E} {jobs : List (Job E)} → Memᴰ j (job ∷ []) → Memᴰ j (job ∷ jobs)
  alone (Memᴰ.head e) = Memᴰ.head e
  alone (Memᴰ.tail m) = elim m [ ]

  -- Where the server accepts updates and deletions of jobs, the loop over the jobs ends with no error,
  -- asks for the release and the deletion of every one of them, and makes no other call.
  pub delete_jobs_drain :
      (jobs : List (Job E)) (f : Frame E)
      → (calls : History E) × (delete_jobs server lib jobs f
          ≡ (ok tt, record f { history = calls ++ f.history }))
        × All (IsDrained lib (calls ++ f.history)) jobs
        × All (DrainCall lib jobs) calls
  unfolding delete_jobs pure
  delete_jobs_drain [] f = ([], refl, tt, tt)
  delete_jobs_drain (job ∷ jobs) f =
      let (first, e, drained, own) = drain_one job f in
      let g : Frame E = record f { history = first ++ f.history } in
      let (rest, e', all, theirs) = delete_jobs_drain jobs g in
      let regroup : rest ++ (first ++ f.history) ≡ (rest ++ first) ++ f.history =
        sym (append_assoc rest first f.history) in
      (
        rest ++ first,
        >>=-ok _ (λ _. delete_jobs server lib jobs) f g tt e
            ∙ e'
            ∙ ap (λ h. (ok tt, record f { history = h })) regroup,
        subst (λ h. All (IsDrained lib h) (job ∷ jobs)) regroup
            (IsDrained-append rest (first ++ f.history) job drained, all),
        All-append (DrainCall lib (job ∷ jobs)) rest first
            (All-wider lib (job ∷ []) (job ∷ jobs) (λ j m. alone m) first own)
            (All-wider lib jobs (job ∷ jobs) (λ j m. Memᴰ.tail m) rest theirs),
      )

  terminating-drained :
      (job : Job E) (jobs : List (Job E)) (f f' : Frame E)
      → delete_jobs server lib (job ∷ jobs) f ≡ (ok tt, f')
      → reconcile_terminating server lib [] (job ∷ jobs) f ≡ (
        ok (requeue_in (10 * second)),
        record f' {
          reactive_job =
              set_state
                (server.now f'.history)
                f'.reactive_job
                state_deleting
                "waiting for deletion of dependent jobs";
        },
      )
  unfolding reconcile_terminating reconcile_deleting set_state_now ◌>>=◌
  terminating-drained job jobs f f' e = rw e refl

  -- For a ReactiveJob that is being deleted and has no foreign finalizer: where jobs are left and the
  -- server accepts updates and deletions of jobs, the run asks for the release and the deletion of every
  -- job, makes no other call between the listing and the status update, none that writes the object
  -- included, reports Deleting and asks for another run in ten seconds if the status update is accepted.
  pub reconcile-drains :
      (request : NamespacedName) (r : ReactiveJob E) (h : History E) {items : List (Job E)}
      (job : Job E) (jobs : List (Job E))
      → server.get h request ≡ done r
      → str_eq r.status.state "" ≡ false
      → server.list (get request ∷ h) request.namespace label_controller_uid r.meta.uid ≡ done items
      → lib.sort_by older items ≡ ok (job ∷ jobs)
      → is_zero r.meta.deletion_timestamp ≡ false
      → lib.remove r.meta.finalizers finalizer ≡ []
      → (calls : History E) × (reconcile server lib request h ≡ (
        aggregated (ok (requeue_in (10 * second))) (
            server.update_status
              (calls ++ looked_up request r h)
              (deleting_object (calls ++ looked_up request r h) r)),
        update_status (deleting_object (calls ++ looked_up request r h) r)
            ∷ (calls ++ looked_up request r h),
      ))
        × All (IsDrained lib (calls ++ looked_up request r h)) (job ∷ jobs)
        × All (DrainCall lib (job ∷ jobs)) calls
  unfolding acknowledged default finish
  reconcile-drains request r h job jobs read seen listed sorted dying none_foreign =
      let f = listing request r h in
      let (calls, e, all, made) = delete_jobs_drain (job ∷ jobs) f in
      (
        calls,
        reconcile-listed server lib request r h read seen listed (job ∷ jobs) sorted
            ∙ ap (finished server lib) (
                reconcile_jobs-terminating server lib request.namespace (job ∷ jobs) f dying
                ∙ ap (λ l. reconcile_terminating server lib l (job ∷ jobs) f) none_foreign
                ∙ terminating-drained job jobs f _ e),
        all,
        made,
      )
