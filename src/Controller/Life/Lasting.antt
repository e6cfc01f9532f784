-- ===== src/Controller/Life/Lasting.antt =====
-- What lasts once a job for a new template is there, whatever calls others make between the runs.
use mathlib.Core.List.{Mem, Perm}
use mathlib.Core.List.Perm
use reactivejob_operator.Prelude.{
  ℕ, suc, String, ◌≡◌, ap, ◌∙◌, true, List, ◌∷◌, map, str_eq, Bool-cases, inl, inr,
}
use reactivejob_operator.Strconv.RoundTrip.{InRange}
use reactivejob_operator.Api.Meta.{NamespacedName, is_zero}
use reactivejob_operator.Api.Types.{Job, ReactiveJob}
use reactivejob_operator.Kube.Server.{Server, Call, History}
use reactivejob_operator.Kube.Library.{Library, IsLibrary, ok}
use reactivejob_operator.Controller.Hash.{json_hash}
use reactivejob_operator.Controller.Objects.{finalizer}
use reactivejob_operator.Controller.Cluster.{IsQuiet}
use reactivejob_operator.Controller.Life.{
  Known, known, identity, IsElsewhere, Stores, IsSame, IsPrepared, IsServed, IsOld, Rounds, ended,
  run, other,
}
use reactivejob_operator.Controller.Life.Served.{reconcile-Served}
use reactivejob_operator.Controller.Life.Prepare.{IsNoticed, reconcile-IsNoticed, creating-run}

-- A further call of others at the end.
later :
    {E : Type 0} {server : Server E} {lib : Library E} {request : NamespacedName} {n : ℕ}
    {h h' : History E} (call : Call E)
    → IsQuiet call
    → IsElsewhere call
    → Rounds server lib request n h h'
    → Rounds server lib request n h (call ∷ h')
later call quiet elsewhere (ended h) = other call h quiet elsewhere (ended _)
later call quiet elsewhere (run h rest) = run h (later call quiet elsewhere rest)
later call quiet elsewhere (other call' h quiet' elsewhere' rest) =
    other call' h quiet' elsewhere' (later call quiet elsewhere rest)

module _ {E : Type 0} (server : Server E) (lib : Library E) (laws : IsLibrary lib)
    (request : NamespacedName) (object : History E → ReactiveJob E)
    (jobs : History E → List (Job E)) (stores : Stores server request object jobs)
    (original : ReactiveJob E) (hash : String) (others : List Known)
    (old : (v : Known) → Mem v others → IsOld original.meta.generation hash others v)
    (fits : InRange original.meta.generation)
    (alive : is_zero original.meta.deletion_timestamp ≡ true)
    (hashed : json_hash lib original.spec.job_template ≡ ok hash) where
  abbrev Prepared : History E → Known → Type 0
  Prepared = IsPrepared lib object jobs original hash others

  abbrev Served : History E → Known → Type 0
  Served = IsServed server lib request object jobs original hash others

  abbrev Noticed : History E → Type 0
  Noticed =
      IsNoticed server lib laws request object jobs stores original hash others old fits alive
        hashed

  other-Prepared :
      (call : Call E) (h : History E) (only : Known)
      → IsQuiet call
      → IsElsewhere call
      → Prepared h only
      → Prepared (call ∷ h) only
  other-Prepared call h only quiet elsewhere prepared =
      let kept = stores.untouched h call elsewhere in
      record {
        same = ap identity kept ∙ prepared.same;
        seen = ap (λ (r : ReactiveJob E). str_eq r.status.state "") kept ∙ prepared.seen;
        owned =
            ap (λ (r : ReactiveJob E). lib.contains r.meta.finalizers finalizer) kept
            ∙ prepared.owned;
        one_more = Perm.trans (stores.kept h call quiet) prepared.one_more;
        hashed = prepared.hashed;
        numbered = prepared.numbered;
      }

  other-Served :
      (call : Call E) (h : History E) (only : Known)
      → IsQuiet call
      → IsElsewhere call
      → Served h only
      → Served (call ∷ h) only
  other-Served call h only quiet elsewhere served =
      let kept = stores.untouched h call elsewhere in
      record {
        prepared = other-Prepared call h only quiet elsewhere served.prepared;
        named = ap (λ (r : ReactiveJob E). r.status.current_job_name) kept ∙ served.named;
        observed = ap (λ (r : ReactiveJob E). r.status.observed_generation) kept ∙ served.observed;
        before = served.before;
        ran = later call quiet elsewhere served.ran;
        job = served.job;
        is_only = served.is_only;
        is_listed = served.is_listed;
        released = served.released;
        shown = ap (λ (r : ReactiveJob E). r.status.state) kept ∙ served.shown;
      }

  -- A ReactiveJob that is served stays so.
  pub Rounds-Served :
      {n : ℕ} {h h' : History E} (only : Known)
      → Rounds server lib request n h h'
      → Served h only
      → Served h' only
  Rounds-Served only (ended h) served = served
  Rounds-Served only (run h rest) served = Rounds-Served only rest (
      reconcile-Served server lib laws request object jobs stores original hash others old alive
        hashed h only served.prepared)
  Rounds-Served only (other call h quiet elsewhere rest) served =
      Rounds-Served only rest (other-Served call h only quiet elsewhere served)

  -- One run serves it.
  Rounds-Prepared :
      {n : ℕ} {h h' : History E} (only : Known)
      → Rounds server lib request (suc n) h h'
      → Prepared h only
      → Served h' only
  Rounds-Prepared only (run h rest) prepared = Rounds-Served only rest (
      reconcile-Served server lib laws request object jobs stores original hash others old alive
        hashed h only prepared)
  Rounds-Prepared only (other call h quiet elsewhere rest) prepared =
      Rounds-Prepared only rest (other-Prepared call h only quiet elsewhere prepared)

  -- Two runs create the job and serve it.
  Rounds-Noticed :
      {n : ℕ} {h h' : History E}
      → Rounds server lib request (suc (suc n)) h h'
      → Noticed h
      → (only : Known) × Served h' only
  Rounds-Noticed (run h rest) noticed =
      let (only, prepared) =
        creating-run server lib laws request object jobs stores original hash others old fits alive
          hashed h noticed in
      (only, Rounds-Prepared only rest prepared)
  Rounds-Noticed (other call h quiet elsewhere rest) noticed =
      let kept = stores.untouched h call elsewhere in
      Rounds-Noticed rest (record {
        same = ap identity kept ∙ noticed.same;
        seen = ap (λ (r : ReactiveJob E). str_eq r.status.state "") kept ∙ noticed.seen;
        stored = Perm.trans (stores.kept h call quiet) noticed.stored;
      })

  -- Three runs do so whether or not the ReactiveJob was seen before.
  pub Rounds-unserved :
      {n : ℕ} {h h' : History E}
      → Rounds server lib request (suc (suc (suc n))) h h'
      → IsSame object original h
      → Perm (map known (jobs h)) others
      → (only : Known) × Served h' only
  Rounds-unserved (run h rest) same stored = elim (Bool-cases (str_eq (object h).status.state "")) [
    | inl unseen ↦ Rounds-Noticed rest (
        reconcile-IsNoticed server lib laws request object jobs stores original hash others old fits
          alive hashed h same unseen stored)
    | inr seen ↦ Rounds-Noticed (run h rest) (record { same = same; seen = seen; stored = stored })
  ]
  Rounds-unserved (other call h quiet elsewhere rest) same stored =
      Rounds-unserved rest (ap identity (stores.untouched h call elsewhere) ∙ same)
        (Perm.trans (stores.kept h call quiet) stored)

  -- Let a ReactiveJob be stored that is not being deleted, at a server that stores what it is sent. Let its
  -- generation be an int64, and let each job that is there, if any, be of an earlier generation that can
  -- be read, and those of the latest of these generations be for another template. Let three runs
  -- follow, and any number of further runs, with any calls of others between them that neither write to the ReactiveJob nor create or delete jobs. Then
  -- there is exactly one more job, the same after each of the further runs, made for the generation and
  -- the template; the ReactiveJob has the operator's finalizer, and its status names that job, observes
  -- the generation and has the state that the job's conditions gave when the last run listed it; and the
  -- last run has left the operator's finalizer on no other job.
  pub Rounds-IsServed :
      {h h' : History E}
      → Rounds server lib request 3 h h'
      → IsSame object original h
      → Perm (map known (jobs h)) others
      → (only : Known) × ((n : ℕ) (h'' : History E)
          → Rounds server lib request n h' h''
          → Served h'' only)
  Rounds-IsServed rounds same stored =
      let (only, served) = Rounds-unserved rounds same stored in
      (only, λ n h'' further. Rounds-Served only further served)
