-- ===== src/Controller/Runs/Conditions.antt =====
-- What any run does to the conditions in the status of its object.
use reactivejob_operator.Prelude.{◌≤◌, ◌≡◌, refl, ap, sym, ◌∙◌, ◌⊎◌, List, ◌∷◌, arith, subst}
use reactivejob_operator.Api.Meta.{NamespacedName}
use reactivejob_operator.Api.Types.{ReactiveJob, ReactiveJobCondition, condition_type_ready}
use reactivejob_operator.Api.Condition.Laws.{
  IsWellFormed, others, set_state_lem, set_state-IsWellFormed, count_type,
}
use reactivejob_operator.Kube.Server.{Server, History, done, get, update_status}
use reactivejob_operator.Kube.Library.{Library, Outcome, ok, err, panic}
use reactivejob_operator.Controller.Monad.{Frame}
use reactivejob_operator.Controller.Objects.{ReconcileResult, shared_template}
use reactivejob_operator.Controller.Reconcile.{reported, acknowledged, start, reconcile}
use reactivejob_operator.Webhook.{default}
use reactivejob_operator.Controller.Safety.{found_jobs}
use reactivejob_operator.Controller.Runs.Flag.{LetsGo}
use reactivejob_operator.Controller.Runs.Ending.{body_end, reconcile-sent}
use reactivejob_operator.Controller.Runs.Keeps.{IsKept, Keeps-reconcile_body}

module _ {E : Type 0} where
  -- At most one Ready condition, and these other ones in their order.
  abbrev pub HasOthers : List ReactiveJobCondition → ReactiveJob E → Type 0
  HasOthers cs r = IsWellFormed r × (others condition_type_ready r.status.conditions ≡ cs)

  -- The last call is a status update of an object with the property.
  abbrev pub SendsWith : (ReactiveJob E → Type 0) → History E → Type 0
  SendsWith P h = (s : ReactiveJob E) × (before : History E) × (h ≡ update_status s ∷ before) × P s

-- A property of the object that a run keeps as it keeps one of its state.
pub record IsObjectKept {E : Type 0} (server : Server E) (P : ReactiveJob E → Type 0) : Type 0 where
  pub kept : IsKept server (λ f. P f.reactive_job)
  pub with_generation : (r : ReactiveJob E) → P r → P (acknowledged r)

module _ {E : Type 0} (server : Server E) (lib : Library E) (P : ReactiveJob E → Type 0)
    (laws : IsObjectKept server P) where
  reported-kept :
      (outcome : Outcome ReconcileResult) (f : Frame E)
      → P f.reactive_job
      → P (reported server lib outcome f)
  reported-kept (ok result) f p = p
  reported-kept (err e) f p = laws.kept.with_state f _ _ _ p
  reported-kept panic f p = p

  -- A property that a run keeps holds of the object in its status update.
  pub reconcile-SendsWith :
      (request : NamespacedName) (r : ReactiveJob E) (h : History E)
      → server.get h request ≡ done r
      → P r
      → SendsWith P (reconcile server lib request h).1
        ⊎ LetsGo (found_jobs server lib request r h) (reconcile server lib request h).0 r
  unfolding start
  reconcile-SendsWith request r h e p =
      let (outcome, f) = body_end server lib request r h in
      reconcile-sent server lib (λ ended. SendsWith P ended.1) request r h e
        (λ _. (
          reported server lib outcome f,
          f.history,
          refl,
          reported-kept outcome f (
              Keeps-reconcile_body server lib (λ g. P g.reactive_job) laws.kept (λ g q. q)
                request.namespace (start r (get request ∷ h)) (laws.with_generation r p)),
        ))

module _ {E : Type 0} (server : Server E) (r : ReactiveJob E) where
  HasOthers-IsObjectKept :
      IsWellFormed r
      → ((h : History E) (s s' : ReactiveJob E)
          → server.update h s ≡ done s'
          → s'.status.conditions ≡ r.status.conditions)
      → IsObjectKept server (HasOthers (others condition_type_ready r.status.conditions))
  unfolding shared_template acknowledged default
  HasOthers-IsObjectKept formed returned = record {
    kept = record {
      called = λ f call p. p;
      stored = λ f s p e.
          let same = returned f.history f.reactive_job s e in
          (
            subst (λ cs. count_type condition_type_ready cs ≤ 1) (sym same) formed,
            ap (others condition_type_ready) same,
          );
      with_state = λ f now state message p.
          let (_, _, kept, _, _, _, _, _) = set_state_lem now f.reactive_job state message in
          let one = set_state-IsWellFormed now f.reactive_job state message p.0 in
          (omega (arith, one), kept ∙ p.1);
      with_finalizers = λ f l p. p;
      with_template = λ f hash p. p;
      with_name = λ f name p. p;
    };
    with_generation = λ s p. p;
  }

module _ {E : Type 0} (server : Server E) (lib : Library E) where
  -- Let the server return the object with at most one Ready condition, and let an update of it return the
  -- conditions that it was read with, as the status subresource makes it. Then the last call of the
  -- run is a status update with at most one Ready condition, and with the conditions of other types as
  -- they were read; or else the object has a deletion timestamp, the listing found no job, and the run
  -- returns the empty result without an error.
  pub reconcile-HasOthers :
      (request : NamespacedName) (r : ReactiveJob E) (h : History E)
      → server.get h request ≡ done r
      → IsWellFormed r
      → ((h : History E) (s s' : ReactiveJob E)
          → server.update h s ≡ done s'
          → s'.status.conditions ≡ r.status.conditions)
      → SendsWith
          (HasOthers (others condition_type_ready r.status.conditions))
          (reconcile server lib request h).1
        ⊎ LetsGo (found_jobs server lib request r h) (reconcile server lib request h).0 r
  reconcile-HasOthers request r h read formed returned =
      reconcile-SendsWith server lib _ (HasOthers-IsObjectKept server r formed returned) request r h
        read (formed, refl)
