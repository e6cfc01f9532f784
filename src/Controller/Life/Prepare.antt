-- ===== src/Controller/Life/Prepare.antt =====
-- The runs until a job for a new template is there.
use mathlib.Core.List.{Mem, Perm}
use mathlib.Core.List.Perm
use mathlib.Core.Logic.Or
use reactivejob_operator.Prelude.{
  String, ◌≡◌, refl, ap, sym, ◌∙◌, subst, true, false, List, ◌∷◌, map, str_eq, Bool-cases, inl, inr,
}
use reactivejob_operator.Strconv.RoundTrip.{InRange}
use reactivejob_operator.Api.Meta.{NamespacedName, is_zero}
use reactivejob_operator.Api.Types.{Job, ReactiveJob}
use reactivejob_operator.Api.Condition.{set_state}
use reactivejob_operator.Kube.Server.{Server, History, get, update, update_status}
use reactivejob_operator.Kube.Library.{Library, IsLibrary, ok}
use reactivejob_operator.Webhook.{default}
use reactivejob_operator.Controller.Hash.{json_hash}
use reactivejob_operator.Controller.Objects.{finalizer, older, new_job, shared_template}
use reactivejob_operator.Controller.Reconcile.{acknowledged, reconcile}
use reactivejob_operator.Controller.Runs.{looked_up}
use reactivejob_operator.Controller.Runs.Create.{NeedsJob, created_object, reconcile-creates}
use reactivejob_operator.Controller.Runs.Adopt.{
  new_object, with_finalizer, adopted_object, reconcile-first_seen, reconcile-adopts,
}
use reactivejob_operator.Controller.Life.{Known, known, identity, Stores, IsSame, IsPrepared, IsOld}
use reactivejob_operator.Controller.Life.Current.{sorted-NeedsJob}
use reactivejob_operator.Controller.Life.Reads.{
  object-looked, jobs-read, jobs-looked, listed-read, same_alive, same_hash,
}
use reactivejob_operator.Controller.Life.Created.{created-Prepared}

module _ {E : Type 0} (server : Server E) (lib : Library E) (laws : IsLibrary lib)
    (request : NamespacedName) (object : History E → ReactiveJob E)
    (jobs : History E → List (Job E)) (stores : Stores server request object jobs)
    (original : ReactiveJob E) (hash : String) (others : List Known)
    (old : (v : Known) → Mem v others → IsOld original.meta.generation hash others v)
    (fits : InRange original.meta.generation)
    (alive : is_zero original.meta.deletion_timestamp ≡ true)
    (hashed : json_hash lib original.spec.job_template ≡ ok hash) where
  -- The ReactiveJob was seen, and there is no job for it but the others.
  pub record IsNoticed (h : History E) : Type 0 where
    pub same : IsSame object original h
    pub seen : str_eq (object h).status.state "" ≡ false
    pub stored : Perm (map known (jobs h)) others

  pub reconcile-IsNoticed :
      (h : History E)
      → IsSame object original h
      → str_eq (object h).status.state "" ≡ true
      → Perm (map known (jobs h)) others
      → IsNoticed (reconcile server lib request h).1
  unfolding set_state
  reconcile-IsNoticed h same unseen stored =
      let found = stores.untouched h (get request) tt in
      let s = new_object server lib request (object h) h in
      let (same', status, _) = stores.status_updated (get request ∷ h) s in
      subst IsNoticed
        (sym (
          ap (λ r. r.1)
            (reconcile-first_seen server lib request (object h) h (stores.read h) unseen)))
        (record {
          same = same' ∙ ap identity found ∙ same;
          seen = ap (λ t. str_eq t.state "") status;
          stored =
              Perm.trans (stores.kept (get request ∷ h) (update_status s) tt)
                (Perm.trans (jobs-read server request object jobs stores h) stored);
        })

  sorted_here :
      (h : History E)
      → IsNoticed h
      → (sorted : List (Job E)) × (lib.sort_by older (jobs (get request ∷ h)) ≡ ok sorted)
        × NeedsJob sorted hash
  sorted_here h noticed =
      sorted-NeedsJob lib laws original.meta.generation hash others old (jobs (get request ∷ h))
        (Perm.trans (jobs-read server request object jobs stores h) noticed.stored)

  -- The second run, where the ReactiveJob has the operator's finalizer already.
  reconcile-owned :
      (h : History E)
      → IsNoticed h
      → lib.contains (object h).meta.finalizers finalizer ≡ true
      → (only : Known) × IsPrepared lib object jobs original hash others
          (reconcile server lib request h).1
          only
  unfolding set_state acknowledged default shared_template
  reconcile-owned h noticed owned =
      let o = object h in
      let looked = looked_up request o h in
      let found = object-looked server request object jobs stores h in
      let (jobs_sorted, sorted, needed) = sorted_here h noticed in
      let (made, accepted, _, _) =
        stores.created looked (new_job lib request.namespace (acknowledged o) hash) in
      let calls =
        reconcile-creates server lib request o h jobs_sorted hash (stores.read h) noticed.seen
          (listed-read server request object jobs stores h) sorted
          (same_alive lib original o hash noticed.same alive) owned
          (same_hash lib original o hash noticed.same hashed) needed accepted in
      subst (λ h'. (only : Known) × IsPrepared lib object jobs original hash others h' only)
        (sym (ap (λ r. r.1) calls))
        (created-Prepared server lib request object jobs stores original hash others fits looked
          (acknowledged o) (created_object server lib request o hash h) noticed.same refl
          (ap identity found ∙ noticed.same)
          (ap (λ (r : ReactiveJob E). lib.contains r.meta.finalizers finalizer) found ∙ owned)
          (Perm.trans (jobs-looked server request object jobs stores h) noticed.stored))

  -- The second run, where it sets the finalizer first.
  reconcile-unowned :
      (h : History E)
      → IsNoticed h
      → lib.contains (object h).meta.finalizers finalizer ≡ false
      → (only : Known) × IsPrepared lib object jobs original hash others
          (reconcile server lib request h).1
          only
  unfolding set_state acknowledged default shared_template
  reconcile-unowned h noticed unowned =
      let o = object h in
      let looked = looked_up request o h in
      let found = object-looked server request object jobs stores h in
      let asked = with_finalizer server lib (acknowledged o) in
      let (accepted, same, _, finalizers) = stores.updated looked asked (sym (ap identity found)) in
      let same' = same ∙ ap identity found ∙ noticed.same in
      let stored = object (update asked ∷ looked) in
      let (jobs_sorted, sorted, needed) = sorted_here h noticed in
      let (made, created, _, _) =
        stores.created (update asked ∷ looked) (new_job lib request.namespace stored hash) in
      let calls =
        reconcile-adopts server lib request o stored h jobs_sorted hash (stores.read h) noticed.seen
          (listed-read server request object jobs stores h) sorted
          (same_alive lib original o hash noticed.same alive) unowned accepted
          (same_hash lib original stored hash same' hashed) needed created in
      subst (λ h'. (only : Known) × IsPrepared lib object jobs original hash others h' only)
        (sym (ap (λ r. r.1) calls.0))
        (created-Prepared server lib request object jobs stores original hash others fits
          (update asked ∷ looked) stored (adopted_object server lib request o stored hash h) same'
          refl same'
          (ap (λ l. lib.contains l finalizer) finalizers
            ∙ (laws.contains_iff _ _).1 ((laws.mem-add_finalizer _ _ _).1 (Or.inr refl)))
          (Perm.trans (stores.kept looked (update asked) tt)
            (Perm.trans (jobs-looked server request object jobs stores h) noticed.stored)))

  pub creating-run :
      (h : History E)
      → IsNoticed h
      → (only : Known) × IsPrepared lib object jobs original hash others
          (reconcile server lib request h).1
          only
  creating-run h noticed = elim (Bool-cases (lib.contains (object h).meta.finalizers finalizer)) [
    | inl owned ↦ reconcile-owned h noticed owned
    | inr unowned ↦ reconcile-unowned h noticed unowned
  ]
