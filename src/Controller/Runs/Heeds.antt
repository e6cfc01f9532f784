-- ===== src/Controller/Runs/Heeds.antt =====
-- What the steps of a run do when the server refuses a call: they stop there with its error.
pub mod Tells
use mathlib.Core.Option
use reactivejob_operator.Prelude.{
  String, Bool, true, false, ◌≡◌, ◌≢◌, refl, ◌⊎◌, inl, inr, Option, none, some, List, [], ◌∷◌,
  if◌then◌else◌,
}
use reactivejob_operator.Api.Types.{Job, ReactiveJob}
use reactivejob_operator.Kube.Server.{
  Server, ApiError, Call, History, Reply, done, failed, get, list, update, update_status,
  create_job, dry_run_create_job, update_job, delete_job,
}
use reactivejob_operator.Kube.Library.{
  Library, IsLibrary, Error, api, wrap, Outcome, ok, err, panic,
}
use reactivejob_operator.Controller.Monad.{
  Frame, Exec, ◌>>=◌, continue, pure, modify_job, perform, or_wrap, get_job, lift,
}
use reactivejob_operator.Controller.Hash.{json_hash-fine}
use reactivejob_operator.Controller.Objects.{older}
use reactivejob_operator.Controller.Runs.Rules.{Rules, Has-reconcile_body}
use reactivejob_operator.Controller.Steps.{
  set_state_now, update_reactive_job, ensure_finalizer, clear_finalizer, create_from_template,
  release_job, release_jobs, report_current, create_or_report, reconcile_present, delete_released,
  delete_jobs, skip_status, reconcile_deleting, deletion_blocked, reconcile_terminating,
}
use reactivejob_operator.Controller.Reconcile.{
  first_seen, list_jobs, reconcile_jobs, reconcile_body,
}

abbrev pub error_of : {A : Type 0} → Reply A → Option ApiError
error_of (done a) = none
error_of (failed e) = some e

module _ {E : Type 0} (server : Server E) where
  -- The error with which the server answers a call after these calls, if it refuses it.
  abbrev pub refusal : History E → Call E → Option ApiError
  refusal h (get request) = error_of (server.get h request)
  refusal h (list namespace key value) = error_of (server.list h namespace key value)
  refusal h (update r) = error_of (server.update h r)
  refusal h (update_status r) = error_of (server.update_status h r)
  refusal h (create_job job) = error_of (server.create_job h job)
  refusal h (dry_run_create_job job) = error_of (server.dry_run_create_job h job)
  refusal h (update_job job) = error_of (server.update_job h job)
  refusal h (delete_job job) = error_of (server.delete_job h job)

  -- From the first history to the second the server accepted every call.
  pub data Accepted (h : History E) : History E → Type 0 where
    nothing : Accepted h h
    then_call :
        {h' : History E} (call : Call E)
        → Accepted h h'
        → refusal h' call ≡ none
        → Accepted h (call ∷ h')

  -- The message that goes with the refusal of a call.
  abbrev pub Wraps : Call E → String → Type 0
  Wraps (get _) message = ⊥
  Wraps (list _ _ _) message = message ≡ "failed to list dependent job resources"
  Wraps (update _) message =
      (message ≡ "error setting finalizer") ⊎ (message ≡ "error clearing finalizer")
  Wraps (update_status _) message = ⊥
  Wraps (create_job _) message = message ≡ "failed to create dependent job"
  Wraps (dry_run_create_job _) message = ⊥
  Wraps (update_job _) message = message ≡ "error removing finalizer from previous dependent job"
  Wraps (delete_job _) message = message ≡ "failed to delete dependent job resources"

  -- The last call, and no other, was refused, and the error is that refusal with its message.
  abbrev pub Refused : History E → Error → History E → Type 0
  Refused h e h' =
      (call : Call E) × (before : History E) × (why : ApiError) × (message : String) × (h'
        ≡ call ∷ before)
      × Accepted h before
      × (refusal before call ≡ some why)
      × Wraps call message
      × (e ≡ wrap message (api why))

  abbrev pub Heeded : {A : Type 0} → History E → Outcome A → History E → Type 0
  Heeded h (ok _) h' = Accepted h h'
  Heeded h (err e) h' = Refused h e h'
  Heeded h panic h' = Accepted h h'

  -- The run stops at the first refusal.
  abbrev pub Heeds : {A : Type 0} → Exec E A → Type 0
  Heeds m = (f : Frame E) → Heeded f.history (m f).0 (m f).1.history

  pub Accepted-trans : {h h' h'' : History E} → Accepted h h' → Accepted h' h'' → Accepted h h''
  Accepted-trans p nothing = p
  Accepted-trans p (then_call call q e) = then_call call (Accepted-trans p q) e

  pub Heeded-after :
      {A : Type 0} (r : Outcome A) (h h' h'' : History E)
      → Accepted h h'
      → Heeded h' r h''
      → Heeded h r h''
  Heeded-after (ok a) h h' h'' p q = Accepted-trans p q
  Heeded-after (err e) h h' h'' p (call, before, why, message, last, q, refused, wraps, same) =
      (call, before, why, message, last, Accepted-trans p q, refused, wraps, same)
  Heeded-after panic h h' h'' p q = Accepted-trans p q

  pub Heeds-bind :
      {A B : Type 0} (m : Exec E A) (k : A → Exec E B)
      → Heeds m
      → ((a : A) → Heeds (k a))
      → Heeds (m >>= k)
  unfolding ◌>>=◌
  Heeds-bind m k first rest f = go (m f).0 (m f).1 (first f)
    where
      go :
          (r : Outcome _) (g : Frame E)
          → Heeded f.history r g.history
          → Heeded f.history (continue r k g).0 (continue r k g).1.history
      go (ok a) g q = Heeded-after (k a g).0 f.history g.history (k a g).1.history q (rest a g)
      go (err x) g q = q
      go panic g q = q

  pub Heeds-perform :
      {A : Type 0} (call : Call E) (answer : History E → Reply A) (message : String)
      → ((h : History E) → refusal h call ≡ error_of (answer h))
      → Wraps call message
      → Heeds (perform call answer message)
  unfolding perform
  Heeds-perform {A} call answer message same wraps f = go (answer f.history) (same f.history)
    where
      go :
          (reply : Reply A)
          → refusal f.history call ≡ error_of reply
          → Heeded f.history (or_wrap reply message) (call ∷ f.history)
      go (done a) e = then_call call nothing e
      go (failed why) e = (call, f.history, why, message, refl, nothing, e, wraps, refl)

  pub Heeds-pure : {A : Type 0} (a : A) → Heeds (pure a)
  unfolding pure
  Heeds-pure a f = nothing

  -- A step that fails only by a panic, if at all.
  pub Heeds-lift : {A : Type 0} (r : Outcome A) → ((e : Error) → r ≢ err e) → Heeds (lift r)
  unfolding lift
  Heeds-lift (ok a) fine f = nothing
  Heeds-lift (err e) fine f = absurd (fine e refl)
  Heeds-lift panic fine f = nothing

  pub Heeds-get_job : Heeds get_job
  unfolding get_job
  Heeds-get_job f = nothing

  pub Heeds-modify_job : (g : ReactiveJob E → ReactiveJob E) → Heeds (modify_job g)
  unfolding modify_job
  Heeds-modify_job g f = nothing

  module _ (lib : Library E) where
    Heeds-set_state_now : (state message : String) → Heeds (set_state_now server lib state message)
    unfolding set_state_now modify_job
    Heeds-set_state_now state message f = nothing

    Heeds-update_reactive_job :
        (message : String)
        → (message ≡ "error setting finalizer") ⊎ (message ≡ "error clearing finalizer")
        → Heeds (update_reactive_job server lib message)
    unfolding update_reactive_job
    Heeds-update_reactive_job message either = Heeds-bind _ _ Heeds-get_job (λ r.
        Heeds-bind _ _ (Heeds-perform (update r) _ message (λ h. refl) either)
          (λ stored. Heeds-modify_job _))

    Heeds-Rules :
        ((l : List (Job E)) (e : Error) → lib.sort_by older l ≢ err e)
        → Rules server lib (λ A m. Heeds m)
    Heeds-Rules fine = record {
      bind = λ A B m k. Heeds-bind m k;
      returns = λ A. Heeds-pure;
      reads = Heeds-get_job;
      states = Heeds-set_state_now;
      finalizes = λ l. Heeds-modify_job _;
      shares = λ hash. Heeds-modify_job _;
      names = λ name. Heeds-modify_job _;
      updates = Heeds-update_reactive_job;
      lists = λ namespace uid. Heeds-perform _ _ _ (λ h. refl) refl;
      sorts = λ items. Heeds-lift _ (fine items);
      hashes = λ template. Heeds-lift _ (json_hash-fine lib template);
      creates = λ job. Heeds-perform _ _ _ (λ h. refl) refl;
      rewrites = λ job. Heeds-perform _ _ _ (λ h. refl) refl;
      deletes = λ job. Heeds-perform _ _ _ (λ h. refl) refl;
    }

    pub Heeds-reconcile_body :
        IsLibrary lib → (namespace : String) → Heeds (reconcile_body server lib namespace)
    unfolding skip_status
    Heeds-reconcile_body laws namespace =
        Has-reconcile_body server lib (Heeds-Rules (laws.sort_fine older)) (λ f. nothing) namespace
