-- ===== src/Controller/Life.antt =====
-- The life of a ReactiveJob from its creation or a change of its template on: runs one after the other,
-- against a server that stores the ReactiveJob and its jobs.
pub mod Reads
pub mod Current
pub mod Released
pub mod Served
pub mod Created
pub mod Prepare
pub mod Lasting
pub mod Lifetime
use mathlib.Core.List.{Perm, Permᴰ}
use mathlib.Core.List.{Mem}
use mathlib.Core.List.Perm
use mathlib.Core.Logic.{∥∥₁_elim}
use text.Mathlib.TextEquality.{IsScalar-prop}
use reactivejob_operator.Prelude.{
  ℕ, zero, suc, String, ◌≡◌, List, [], ◌∷◌, ap, ◌∙◌, Option, Bool, true, false, str_eq, map, ◌≢◌,
}
use reactivejob_operator.Prelude.Int.{ℤ, ◌≤ℤ◌}
use reactivejob_operator.Api.Meta.{StringMap, Time, NamespacedName, map_get}
use reactivejob_operator.Api.Types.{Job, ReactiveJob, ReactiveJobSpec}
use reactivejob_operator.Kube.Server.{
  Server, Call, History, done, get, list, update, update_status, create_job, dry_run_create_job,
  update_job, delete_job,
}
use reactivejob_operator.Kube.Library.{Library, Outcome, ok}
use reactivejob_operator.Controller.Hash.{must_atoi, json_hash}
use reactivejob_operator.Controller.Objects.{
  finalizer, label_controller_uid, annotation_controller_generation, annotation_controller_hash,
  report,
}
use reactivejob_operator.Controller.Reconcile.{reconcile}
use reactivejob_operator.Controller.Newest.{is_number, number_of}
use reactivejob_operator.Controller.Cluster.{IsQuiet}

-- What of a job nobody but the operator changes: its name, and its annotations.
abbrev pub Known : Type 0
Known = String × StringMap

-- What of a ReactiveJob neither a new finalizer nor a new status changes.
abbrev pub Identity : Type 0 → Type 0
Identity E = String × String × ℤ × Option Time × ReactiveJobSpec E

module _ {E : Type 0} where
  abbrev pub known : Job E → Known
  known job = (job.meta.name, job.meta.annotations)

  abbrev pub identity : ReactiveJob E → Identity E
  identity r = (r.meta.name, r.meta.uid, r.meta.generation, r.meta.deletion_timestamp, r.spec)

  -- The calls that do not write to the ReactiveJob.
  abbrev pub IsElsewhere : Call E → Type 0
  IsElsewhere (update _) = ⊥
  IsElsewhere (update_status _) = ⊥
  IsElsewhere _ = Unit

  -- The two are one job, as far as its name and its finalizers tell.
  abbrev pub IsAlike : Job E → Job E → Type 0
  IsAlike y x = (y.meta.name ≡ x.meta.name) × (y.meta.finalizers ≡ x.meta.finalizers)

  -- The call writes the job of the name.
  abbrev pub Writes : Call E → String → Type 0
  Writes (update_job job) name = job.meta.name ≡ name
  Writes _ name = ⊥

  -- A server with a status subresource that stores one ReactiveJob and its jobs: the ReactiveJob changes
  -- only by the calls that write to it, and nobody but the operator creates or deletes its jobs, or
  -- renames or annotates them; conditions of jobs may change at any time.
  pub record Stores (server : Server E) (request : NamespacedName)
      (object : History E → ReactiveJob E) (jobs : History E → List (Job E)) : Type 0 where
    pub read : (h : History E) → server.get h request ≡ done (object h)
    pub listed :
        (h : History E)
        → server.list h request.namespace label_controller_uid (object h).meta.uid ≡ done (jobs h)
    pub untouched :
        (h : History E) (call : Call E) → IsElsewhere call → object (call ∷ h) ≡ object h
    -- an update stores the finalizers and leaves the status
    pub updated :
        (h : History E) (r : ReactiveJob E)
        → identity r ≡ identity (object h)
        → (server.update h r ≡ done (object (update r ∷ h)))
          × (identity (object (update r ∷ h)) ≡ identity (object h))
          × ((object (update r ∷ h)).status ≡ (object h).status)
          × ((object (update r ∷ h)).meta.finalizers ≡ r.meta.finalizers)
    -- a status update stores the status alone, whatever the rest of the object is
    pub status_updated :
        (h : History E) (r : ReactiveJob E)
        → (identity (object (update_status r ∷ h)) ≡ identity (object h))
          × ((object (update_status r ∷ h)).status ≡ r.status)
          × ((object (update_status r ∷ h)).meta.finalizers ≡ (object h).meta.finalizers)
    -- a job that is created is stored with its annotations, under a name that the server gives
    pub created :
        (h : History E) (job : Job E)
        → (made : Job E) × (server.create_job h job ≡ done made)
          × (made.meta.annotations ≡ job.meta.annotations)
          × Perm (map known (jobs (create_job job ∷ h))) (known made ∷ map known (jobs h))
    pub stored_job : History E → Job E → Job E
    pub accepts : (h : History E) (job : Job E) → server.update_job h job ≡ done (stored_job h job)
    pub kept :
        (h : History E) (call : Call E)
        → IsQuiet call
        → Perm (map known (jobs (call ∷ h))) (map known (jobs h))
    -- the finalizers of a job are those that were written last
    pub rewritten :
        (h : History E) (job x : Job E)
        → Mem x (jobs (update_job job ∷ h))
        → job.meta.name ≡ x.meta.name
        → x.meta.finalizers ≡ job.meta.finalizers
    pub carried :
        (h : History E) (call : Call E) (x : Job E)
        → IsQuiet call
        → ¬ Writes call x.meta.name
        → Mem x (jobs (call ∷ h))
        → ∥ ((y : Job E) × Mem y (jobs h) × IsAlike y x) ∥₁

-- A number of runs, one after the other, with calls of anybody before, between and after them that
-- neither write to the ReactiveJob nor create or delete jobs.
pub data Rounds {E : Type 0} (server : Server E) (lib : Library E) (request : NamespacedName)
    : ℕ → History E → History E → Type 0 where
  ended : (h : History E) → Rounds server lib request zero h h
  run :
      {n : ℕ} (h : History E) {h' : History E}
      → Rounds server lib request n (reconcile server lib request h).1 h'
      → Rounds server lib request (suc n) h h'
  other :
      {n : ℕ} (call : Call E) (h : History E) {h' : History E}
      → IsQuiet call
      → IsElsewhere call
      → Rounds server lib request n (call ∷ h) h'
      → Rounds server lib request n h h'

module _ {E : Type 0} (object : History E → ReactiveJob E) (original : ReactiveJob E) where
  -- The ReactiveJob is as it was created, but for its status and its finalizers.
  abbrev pub IsSame : History E → Type 0
  IsSame h = identity (object h) ≡ identity original

-- What the annotations of a job say of its template and of its generation.
abbrev pub known_hash : Known → String
known_hash v = map_get v.1 annotation_controller_hash

abbrev pub known_generation : Known → Outcome ℤ
known_generation v = must_atoi (map_get v.1 annotation_controller_generation)

-- No job of the list has a later generation.
abbrev pub IsLatest : List Known → Known → Type 0
IsLatest others v =
    (u : Known) → Mem u others → number_of (known_generation u) ≤ℤ number_of (known_generation v)

-- A job of an earlier generation than the template; if none of the others is later, for another template.
abbrev pub IsOld : ℤ → String → List Known → Known → Type 0
IsOld generation hash others v =
    (is_number (known_generation v) ≡ true)
    × ¬ (generation ≤ℤ number_of (known_generation v))
    × (IsLatest others v → known_hash v ≢ hash)

module _ {E : Type 0} (lib : Library E) (object : History E → ReactiveJob E)
    (jobs : History E → List (Job E)) (original : ReactiveJob E) (hash : String)
    (others : List Known) where
  -- The ReactiveJob was seen, has the operator's finalizer, and beside the others there is one job,
  -- made for its generation and its template.
  pub record IsPrepared (h : History E) (only : Known) : Type 0 where
    pub same : IsSame object original h
    pub seen : str_eq (object h).status.state "" ≡ false
    pub owned : lib.contains (object h).meta.finalizers finalizer ≡ true
    pub one_more : Perm (map known (jobs h)) (only ∷ others)
    pub hashed : known_hash only ≡ hash
    pub numbered : known_generation only ≡ ok original.meta.generation

-- The status, left by a run, names the job, observes the generation, and shows what the conditions of the
-- job said when that run listed it; and that run has released the other jobs.
pub record IsServed {E : Type 0} (server : Server E) (lib : Library E) (request : NamespacedName)
    (object : History E → ReactiveJob E) (jobs : History E → List (Job E))
    (original : ReactiveJob E) (hash : String) (others : List Known) (h : History E) (only : Known)
    : Type 0 where
  pub prepared : IsPrepared lib object jobs original hash others h only
  pub named : (object h).status.current_job_name ≡ only.0
  pub observed : (object h).status.observed_generation ≡ original.meta.generation
  pub before : History E
  -- the last run, with nothing but calls of others after it
  pub ran : Rounds server lib request zero (reconcile server lib request before).1 h
  pub job : Job E
  pub is_only : known job ≡ only
  pub is_listed : Mem job (jobs (get request ∷ before))
  pub shown : (object h).status.state ≡ (report job.conditions).state
  -- the operator's finalizer is on no other job any more
  pub released :
      (x : Job E)
      → Mem x (jobs (reconcile server lib request before).1)
      → x.meta.name ≢ only.0
      → lib.contains x.meta.finalizers finalizer ≡ false

pub known_prop : {a b : Known} → IsProp (a ≡ b)
known_prop = hlevel IsScalar-prop
