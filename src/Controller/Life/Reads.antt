-- ===== src/Controller/Life/Reads.antt =====
-- What a run finds when it reads the ReactiveJob and lists its jobs.
use mathlib.Core.List.{Perm}
use mathlib.Core.List.Perm
use reactivejob_operator.Prelude.{
  String, ◌≡◌, refl, ap, ◌∙◌, subst, true, List, [], ◌∷◌, map, Bool-cases, inl, inr,
}
use reactivejob_operator.Api.Meta.{NamespacedName, is_zero}
use reactivejob_operator.Api.Types.{Job, ReactiveJob}
use reactivejob_operator.Kube.Server.{Server, History, done, get, list, update_job}
use reactivejob_operator.Kube.Library.{Library, ok}
use reactivejob_operator.Controller.Hash.{json_hash}
use reactivejob_operator.Controller.Objects.{label_controller_uid, finalizer, release}
use reactivejob_operator.Controller.Life.{known, identity, Stores}
use reactivejob_operator.Controller.Runs.{looked_up}
use reactivejob_operator.Controller.Runs.Settle.{releases, then_calls}

module _ {E : Type 0} (server : Server E) (request : NamespacedName)
    (object : History E → ReactiveJob E) (jobs : History E → List (Job E))
    (stores : Stores server request object jobs) (h : History E) where
  pub object-read : object (get request ∷ h) ≡ object h
  object-read = stores.untouched h (get request) tt

  pub object-looked : object (looked_up request (object h) h) ≡ object h
  object-looked = stores.untouched _ (list _ _ _) tt ∙ object-read

  pub jobs-read : Perm (map known (jobs (get request ∷ h))) (map known (jobs h))
  jobs-read = stores.kept h (get request) tt

  pub jobs-looked : Perm (map known (jobs (looked_up request (object h) h))) (map known (jobs h))
  jobs-looked = Perm.trans (stores.kept _ (list _ _ _) tt) jobs-read

  pub listed-read :
      server.list (get request ∷ h) request.namespace label_controller_uid (object h).meta.uid
      ≡ done (jobs (get request ∷ h))
  listed-read =
      subst
        (λ (r : ReactiveJob E).
          server.list (get request ∷ h) request.namespace label_controller_uid r.meta.uid
          ≡ done (jobs (get request ∷ h)))
        object-read (stores.listed (get request ∷ h))

module _ {E : Type 0} (server : Server E) (lib : Library E) (request : NamespacedName)
    (object : History E → ReactiveJob E) (jobs : History E → List (Job E))
    (stores : Stores server request object jobs) where
  -- Releasing jobs changes neither the ReactiveJob nor what is known of the jobs.
  pub object-releases :
      (old : List (Job E)) (h : History E) → object (then_calls h (releases lib old)) ≡ object h
  unfolding releases
  object-releases [] h = refl
  object-releases (job ∷ old) h = elim (Bool-cases (lib.contains job.meta.finalizers finalizer)) [
    | inl has ↦ rw has (
        object-releases old (update_job (release lib job) ∷ h)
        ∙ stores.untouched h (update_job (release lib job)) tt)
    | inr hasnt ↦ rw hasnt (object-releases old h)
  ]

  pub jobs-releases :
      (old : List (Job E)) (h : History E)
      → Perm (map known (jobs (then_calls h (releases lib old)))) (map known (jobs h))
  unfolding releases
  jobs-releases [] h = Perm.refl _
  jobs-releases (job ∷ old) h = elim (Bool-cases (lib.contains job.meta.finalizers finalizer)) [
    | inl has ↦ rw has (
        Perm.trans (jobs-releases old (update_job (release lib job) ∷ h))
          (stores.kept h (update_job (release lib job)) tt))
    | inr hasnt ↦ rw hasnt (jobs-releases old h)
  ]

module _ {E : Type 0} (lib : Library E) (original r : ReactiveJob E) (hash : String)
    (same : identity r ≡ identity original) where
  pub same_alive :
      is_zero original.meta.deletion_timestamp ≡ true → is_zero r.meta.deletion_timestamp ≡ true
  same_alive alive = ap (λ i. is_zero i.3) same ∙ alive

  pub same_hash :
      json_hash lib original.spec.job_template ≡ ok hash
      → json_hash lib r.spec.job_template ≡ ok hash
  same_hash hashed = ap (λ i. json_hash lib i.4.job_template) same ∙ hashed
