-- ===== src/Controller/Runs/Ending.antt =====
-- How a run that finds its object ends: by its status update, or by letting the object go.
use reactivejob_operator.Prelude.{
  true, false, ◌≡◌, ap, sym, ◌∙◌, ◌⊎◌, inl, inr, List, ◌∷◌, arith, Bool-cases, subst, if◌then◌else◌,
}
use reactivejob_operator.Api.Meta.{NamespacedName}
use reactivejob_operator.Api.Types.{Job, ReactiveJob}
use reactivejob_operator.Kube.Server.{Server, History, done, get, update_status}
use reactivejob_operator.Kube.Library.{Library, Outcome}
use reactivejob_operator.Webhook.{default}
use reactivejob_operator.Controller.Monad.{Frame}
use reactivejob_operator.Controller.Objects.{ReconcileResult}
use reactivejob_operator.Controller.Reconcile.{
  reconcile_body, reported, aggregated, finish, acknowledged, start, after_get, reconcile,
}
use reactivejob_operator.Controller.Safety.{found_jobs}
use reactivejob_operator.Controller.Runs.Flag.{LetsGo, body-flag}

module _ {E : Type 0} (server : Server E) (lib : Library E) where
  -- The end of a run that sends its status.
  abbrev pub sent : Outcome ReconcileResult → Frame E → Outcome ReconcileResult × History E
  sent outcome f = (
    aggregated outcome (server.update_status f.history (reported server lib outcome f)),
    update_status (reported server lib outcome f) ∷ f.history,
  )

  -- The two ends of the deferred function.
  pub finish-sends :
      (outcome : Outcome ReconcileResult) (f : Frame E)
      → f.skip_status_update ≡ false
      → finish server lib outcome f ≡ sent outcome f
  unfolding finish
  finish-sends outcome f kept = ap (λ b. if b then (outcome, f.history) else sent outcome f) kept

  finish-skips :
      (outcome : Outcome ReconcileResult) (f : Frame E)
      → f.skip_status_update ≡ true
      → (finish server lib outcome f).0 ≡ outcome
  unfolding finish
  finish-skips outcome f skips = ground arith

  -- The state in which the body of a run ends.
  abbrev pub body_end :
      NamespacedName → ReactiveJob E → History E → Outcome ReconcileResult × Frame E
  body_end request r h = reconcile_body server lib request.namespace (start r (get request ∷ h))

  module _ (Q : Outcome ReconcileResult × History E → Type 0) where
    finish-LetsGo :
        (found : Outcome (List (Job E))) (r : ReactiveJob E) (outcome : Outcome ReconcileResult)
        (f : Frame E)
        → (f.skip_status_update ≡ false → Q (sent outcome f))
        → (f.skip_status_update ≡ false) ⊎ LetsGo found outcome r
        → Q (finish server lib outcome f) ⊎ LetsGo found (finish server lib outcome f).0 r
    finish-LetsGo found r outcome f sends (inl kept) =
        inl (subst Q (sym (finish-sends outcome f kept)) (sends kept))
    finish-LetsGo found r outcome f sends (inr (dying, none_left, result)) =
        elim (Bool-cases f.skip_status_update) [
          | inl skips ↦ inr (dying, none_left, finish-skips outcome f skips ∙ result)
          | inr kept ↦ inl (subst Q (sym (finish-sends outcome f kept)) (sends kept))
        ]

    got :
        (request : NamespacedName) (r : ReactiveJob E) (h : History E)
        → ((body_end request r h).1.skip_status_update ≡ false
            → Q (sent (body_end request r h).0 (body_end request r h).1))
        → Q (after_get server lib request (done r) (get request ∷ h))
          ⊎ LetsGo
              (found_jobs server lib request r h)
              (after_get server lib request (done r) (get request ∷ h)).0
              r
    unfolding after_get start acknowledged default
    got request r h sends =
        finish-LetsGo _ r _ _ sends
          (body-flag server lib request.namespace (start r (get request ∷ h)))

    -- What holds of each end that sends the status holds of a run that does not let its object go.
    pub reconcile-sent :
        (request : NamespacedName) (r : ReactiveJob E) (h : History E)
        → server.get h request ≡ done r
        → ((body_end request r h).1.skip_status_update ≡ false
            → Q (sent (body_end request r h).0 (body_end request r h).1))
        → Q (reconcile server lib request h)
          ⊎ LetsGo (found_jobs server lib request r h) (reconcile server lib request h).0 r
    unfolding reconcile
    reconcile-sent request r h e sends =
        subst
          (λ reply.
            Q (after_get server lib request reply (get request ∷ h))
            ⊎ LetsGo (found_jobs server lib request r h)
                (after_get server lib request reply (get request ∷ h)).0 r)
          (sym e) (got request r h sends)
