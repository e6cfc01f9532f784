-- ===== src/Controller/Life/Created.antt =====
-- What holds after the creation of a job.
use mathlib.Core.List.{Perm}
use mathlib.Core.List.Perm
use reactivejob_operator.Prelude.{String, ◌≡◌, ap, sym, ◌∙◌, subst, true, List, ◌∷◌, map, str_eq}
use reactivejob_operator.Strconv.RoundTrip.{InRange}
use reactivejob_operator.Api.Meta.{NamespacedName, map_get}
use reactivejob_operator.Api.Types.{Job, ReactiveJob, state_processing}
use reactivejob_operator.Kube.Server.{Server, History, update_status, create_job}
use reactivejob_operator.Kube.Library.{Library, ok}
use reactivejob_operator.Controller.Hash.{must_atoi}
use reactivejob_operator.Controller.Objects.{
  finalizer, annotation_controller_hash, annotation_controller_generation, new_job,
}
use reactivejob_operator.Controller.NewJob.{new_job-found}
use reactivejob_operator.Controller.Safety.Present.{hash-new_job}
use reactivejob_operator.Controller.Life.{Known, known, identity, Stores, IsSame, IsPrepared}

module _ {E : Type 0} (server : Server E) (lib : Library E) (request : NamespacedName)
    (object : History E → ReactiveJob E) (jobs : History E → List (Job E))
    (stores : Stores server request object jobs) (original : ReactiveJob E) (hash : String)
    (others : List Known) (fits : InRange original.meta.generation) where
  -- What follows the creation of a job, once the finalizer is there.
  pub created-Prepared :
      (h : History E) (r s : ReactiveJob E)
      → identity r ≡ identity original
      → s.status.state ≡ state_processing
      → IsSame object original h
      → lib.contains (object h).meta.finalizers finalizer ≡ true
      → Perm (map known (jobs h)) others
      → (only : Known) × IsPrepared lib object jobs original hash others
          (update_status s ∷ create_job (new_job lib request.namespace r hash) ∷ h)
          only
  created-Prepared h r s same_r state same owned before =
      let job = new_job lib request.namespace r hash in
      let (made, accepted, annotations, stored) = stores.created h job in
      let (same', status, finalizers) = stores.status_updated (create_job job ∷ h) s in
      let kept = stores.untouched h (create_job job) tt in
      (
        known made,
        record {
          same = same' ∙ ap identity kept ∙ same;
          seen = ap (λ t. str_eq t.state "") status ∙ ap (λ t. str_eq t "") state;
          owned =
              ap (λ l. lib.contains l finalizer)
                (finalizers ∙ ap (λ (o : ReactiveJob E). o.meta.finalizers) kept)
              ∙ owned;
          one_more =
              Perm.trans (stores.kept _ (update_status s) tt)
                (Perm.trans stored (Perm.cons (known made) before));
          hashed =
              ap (λ m. map_get m annotation_controller_hash) annotations
              ∙ hash-new_job server lib request.namespace r hash;
          numbered =
              ap (λ m. must_atoi (map_get m annotation_controller_generation)) annotations
              ∙ (new_job-found lib request.namespace hash r
                  (subst (λ i. InRange i.2) (sym same_r) fits)).0
              ∙ ap (λ i. ok i.2) same_r;
        },
      )
