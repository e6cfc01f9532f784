-- ===== src/Controller/Runs/Keeps.antt =====
-- Properties of the state of a run that its steps keep, whatever the server answers.
use reactivejob_operator.Prelude.{String, true, ◌≡◌, refl, List, ◌∷◌}
use reactivejob_operator.Api.Meta.{Time}
use reactivejob_operator.Api.Types.{ReactiveJob}
use reactivejob_operator.Api.Condition.{set_state}
use reactivejob_operator.Kube.Server.{Server, Call, Reply, History, done, failed, update}
use reactivejob_operator.Kube.Library.{Library, Outcome, ok, err, panic}
use reactivejob_operator.Controller.Monad.{
  Frame, Exec, ◌>>=◌, continue, pure, modify_job, perform, or_wrap, get_job, lift,
}
use reactivejob_operator.Controller.Objects.{with_finalizers, shared_template}
use reactivejob_operator.Controller.Steps.{set_state_now, update_reactive_job, skip_status}
use reactivejob_operator.Controller.Runs.Rules.{Rules, named, Has-reconcile_body}
use reactivejob_operator.Controller.Reconcile.{reconcile_body}

-- What the operator does in a run, and what the server hands back for an update, leaves the property; but
-- for the flag that skips the status update.
pub record IsKept {E : Type 0} (server : Server E) (P : Frame E → Type 0) : Type 0 where
  pub called : (f : Frame E) (call : Call E) → P f → P (record f { history = call ∷ f.history })
  pub stored :
      (f : Frame E) (s : ReactiveJob E)
      → P f
      → server.update f.history f.reactive_job ≡ done s
      → P (record f { reactive_job = s; history = update f.reactive_job ∷ f.history })
  pub with_state :
      (f : Frame E) (now : Time) (state message : String)
      → P f
      → P (record f { reactive_job = set_state now f.reactive_job state message })
  pub with_finalizers :
      (f : Frame E) (l : List String)
      → P f
      → P (record f { reactive_job = with_finalizers l f.reactive_job })
  pub with_template :
      (f : Frame E) (hash : String)
      → P f
      → P (record f { reactive_job = shared_template f.reactive_job hash })
  pub with_name :
      (f : Frame E) (name : String)
      → P f
      → P (record f { reactive_job = named f.reactive_job name })

module _ {E : Type 0} (server : Server E) (lib : Library E) (P : Frame E → Type 0)
    (kept : IsKept server P) where
  abbrev pub Keeps : {A : Type 0} → Exec E A → Type 0
  Keeps m = (f : Frame E) → P f → P (m f).1

  Keeps-bind :
      {A B : Type 0} (m : Exec E A) (k : A → Exec E B)
      → Keeps m
      → ((a : A) → Keeps (k a))
      → Keeps (m >>= k)
  unfolding ◌>>=◌
  Keeps-bind m k first rest f p = go (m f).0 (m f).1 (first f p)
    where
      go : (r : Outcome _) (g : Frame E) → P g → P (continue r k g).1
      go (ok a) g q = rest a g q
      go (err x) g q = q
      go panic g q = q

  Keeps-set_state_now : (state message : String) → Keeps (set_state_now server lib state message)
  unfolding set_state_now modify_job
  Keeps-set_state_now state message f p = kept.with_state f _ state message p

  Keeps-update_reactive_job : (message : String) → Keeps (update_reactive_job server lib message)
  unfolding update_reactive_job ◌>>=◌
  Keeps-update_reactive_job message f p = go (server.update f.history f.reactive_job) refl
    where
      go :
          (reply : Reply (ReactiveJob E))
          → server.update f.history f.reactive_job ≡ reply
          → P
              (continue
                (or_wrap reply message)
                (λ stored g. (ok tt, record g { reactive_job = stored }))
                (record f { history = update f.reactive_job ∷ f.history })).1
      go (done s) e = kept.stored f s p e
      go (failed why) e = kept.called f _ p

  -- Steps that leave the object as it is.
  Keeps-perform :
      {A : Type 0} (call : Call E) (answer : History E → Reply A) (message : String)
      → Keeps (perform call answer message)
  unfolding perform
  Keeps-perform call answer message f p = kept.called f call p

  Keeps-pure : {A : Type 0} (a : A) → Keeps (pure a)
  unfolding pure
  Keeps-pure a f p = p

  Keeps-lift : {A : Type 0} (r : Outcome A) → Keeps (lift r)
  unfolding lift
  Keeps-lift r f p = p

  Keeps-get_job : Keeps get_job
  unfolding get_job
  Keeps-get_job f p = p

  Keeps-modify_job :
      (g : ReactiveJob E → ReactiveJob E)
      → ((f : Frame E) → P f → P (record f { reactive_job = g f.reactive_job }))
      → Keeps (modify_job g)
  unfolding modify_job
  Keeps-modify_job g keeps f p = keeps f p

  -- Has-reconcile_body and the like then hold of what is kept.
  pub Keeps-Rules : Rules server lib (λ A m. Keeps m)
  Keeps-Rules = record {
    bind = λ A B m k. Keeps-bind m k;
    returns = λ A. Keeps-pure;
    reads = Keeps-get_job;
    states = Keeps-set_state_now;
    finalizes = λ l. Keeps-modify_job _ (λ f. kept.with_finalizers f (l f.reactive_job));
    shares = λ hash. Keeps-modify_job _ (λ f. kept.with_template f hash);
    names = λ name. Keeps-modify_job _ (λ f. kept.with_name f name);
    updates = λ message _. Keeps-update_reactive_job message;
    lists = λ namespace uid. Keeps-perform _ _ _;
    sorts = λ items. Keeps-lift _;
    hashes = λ template. Keeps-lift _;
    creates = λ job. Keeps-perform _ _ _;
    rewrites = λ job. Keeps-perform _ _ _;
    deletes = λ job. Keeps-perform _ _ _;
  }

  -- Where the flag does not matter either, the whole body keeps the property.
  pub Keeps-reconcile_body :
      ((f : Frame E) → P f → P (record f { skip_status_update = true }))
      → (namespace : String) → Keeps (reconcile_body server lib namespace)
  unfolding skip_status
  Keeps-reconcile_body skips namespace = Has-reconcile_body server lib Keeps-Rules skips namespace
