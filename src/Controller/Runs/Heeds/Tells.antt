-- ===== src/Controller/Runs/Heeds/Tells.antt =====
-- What the error of a run tells of its calls, and what a run without one does.
use mathlib.Core.Bool.{false≢true}
use reactivejob_operator.Prelude.{
  Bool, true, false, ◌≡◌, refl, ap, sym, ◌∙◌, subst, ◌⊎◌, inl, inr, none, some, ◌∷◌, Bool-cases,
  if◌then◌else◌,
}
use reactivejob_operator.Api.Meta.{NamespacedName}
use reactivejob_operator.Api.Types.{ReactiveJob}
use reactivejob_operator.Kube.Server.{
  Server, ApiError, History, Reply, done, failed, get, update_status,
}
use reactivejob_operator.Kube.Library.{
  Library, IsLibrary, Error, api, wrap, aggregate_one, aggregate, Outcome, ok, err, panic,
}
use reactivejob_operator.Controller.Monad.{Frame}
use reactivejob_operator.Controller.Objects.{ReconcileResult, no_result}
use reactivejob_operator.Controller.Reconcile.{
  reported, aggregated, finish, start, after_get, reconcile,
}
use reactivejob_operator.Controller.Runs.Flag.{body-flag}
use reactivejob_operator.Controller.Runs.Ending.{sent, finish-sends, body_end}
use reactivejob_operator.Controller.Runs.Heeds.{
  error_of, refusal, Accepted, nothing, then_call, Refused, Heeded, Heeded-after,
  Heeds-reconcile_body,
}

module _ {E : Type 0} (server : Server E) (lib : Library E) (request : NamespacedName)
    (h : History E) where
  -- The object was not read, for this reason, and nothing else was called.
  abbrev pub Unread : Bool → ApiError → History E → Type 0
  Unread not_found why h' =
      (server.get h request ≡ failed why) × (why.not_found ≡ not_found) × (h' ≡ get request ∷ h)

  -- The refusals that an error comes from, where a status was sent after these calls.
  abbrev pub ComesFrom : Error → ReactiveJob E → History E → Type 0
  ComesFrom e r before =
      (Refused server h e before × (refusal server before (update_status r) ≡ none))
      ⊎ ((first : Error) × (why : ApiError) × (e ≡ aggregate first (api why))
          × Refused server h first before
          × (refusal server before (update_status r) ≡ some why))
      ⊎ ((why : ApiError) × (e ≡ aggregate_one (api why))
          × Accepted server h before
          × (refusal server before (update_status r) ≡ some why))

  abbrev pub Tells : Outcome ReconcileResult × History E → Type 0
  Tells (ok result, h') =
      Accepted server h h' ⊎ ((result ≡ no_result) × (why : ApiError) × Unread true why h')
  Tells (err e, h') =
      ((why : ApiError) × (e ≡ wrap "unexpected get error" (api why)) × Unread false why h')
      ⊎ ((r : ReactiveJob E) × (before : History E) × (h' ≡ update_status r ∷ before)
          × ComesFrom e r before)
  Tells (panic, h') =
      (r : ReactiveJob E) × (before : History E) × (h' ≡ update_status r ∷ before)
      × Accepted server h before

  sent-Tells :
      (outcome : Outcome ReconcileResult) (r : ReactiveJob E) (before : History E)
      → Heeded server h outcome before
      → (reply : Reply (ReactiveJob E)) → refusal server before (update_status r) ≡ error_of reply
      → Tells (aggregated outcome reply, update_status r ∷ before)
  sent-Tells (ok result) r before heeded (done _) e = inl (then_call (update_status r) heeded e)
  sent-Tells (ok result) r before heeded (failed why) e =
      inr (r, before, refl, inr (inr (why, refl, heeded, e)))
  sent-Tells (err x) r before heeded (done _) e = inr (r, before, refl, inl (heeded, e))
  sent-Tells (err x) r before heeded (failed why) e =
      inr (r, before, refl, inr (inl (x, why, refl, heeded, e)))
  sent-Tells panic r before heeded (done _) e = (r, before, refl, heeded)
  sent-Tells panic r before heeded (failed why) e = (r, before, refl, heeded)

  finish-kept :
      (outcome : Outcome ReconcileResult) (f : Frame E)
      → f.skip_status_update ≡ true
      → finish server lib outcome f ≡ (outcome, f.history)
  unfolding finish
  finish-kept outcome f skips =
      ap (λ b. if b then (outcome, f.history) else sent server lib outcome f) skips

  finish-Tells :
      (outcome : Outcome ReconcileResult) (f : Frame E)
      → Heeded server h outcome f.history
      → (f.skip_status_update ≡ false) ⊎ (outcome ≡ ok no_result)
      → Tells (finish server lib outcome f)
  finish-Tells outcome f heeded ends = elim (Bool-cases f.skip_status_update) [
    | inr kept ↦
        subst Tells (sym (finish-sends server lib outcome f kept))
          (sent-Tells outcome (reported server lib outcome f) f.history heeded _ refl)
    | inl skips ↦
        let result : outcome ≡ ok no_result = elim ends [
          | inl kept ↦ absurd (false≢true (sym kept ∙ skips))
          | inr e ↦ e
        ] in
        subst Tells (sym (finish-kept outcome f skips ∙ ap (λ o. (o, f.history)) result))
          (inl (subst (λ o. Heeded server h o f.history) result heeded))
  ]

  got-Tells :
      (laws : IsLibrary lib)
      → (reply : Reply (ReactiveJob E)) → server.get h request ≡ reply
      → Tells (after_get server lib request reply (get request ∷ h))
  unfolding after_get start
  got-Tells laws (failed why) read =
      let end : Bool → Outcome ReconcileResult × History E = λ b.
        if b
        then (ok no_result, get request ∷ h)
        else (err (wrap "unexpected get error" (api why)), get request ∷ h) in
      elim (Bool-cases why.not_found) [
        | inl missing ↦
            subst (λ b. Tells (end b)) (sym missing) (inr (refl, why, (read, missing, refl)))
        | inr other ↦ subst (λ b. Tells (end b)) (sym other) (inl (why, refl, (read, other, refl)))
      ]
  got-Tells laws (done r) read =
      let (outcome, f) = body_end server lib request r h in
      finish-Tells outcome f
        (Heeded-after server outcome h (get request ∷ h) f.history
          (then_call (get request) nothing (ap error_of read))
          (Heeds-reconcile_body server lib laws request.namespace (start r (get request ∷ h))))
        (elim (body-flag server lib request.namespace (start r (get request ∷ h))) [
          | inl kept ↦ inl kept
          | inr (_, _, e) ↦ inr e
        ])

  -- If a run ends without an error, then the server accepted every call of
  -- it, or it refused the read with a not-found error, after which nothing was called and the result
  -- is empty. If it ends with an error, then the error is the refusal of the read with its message, after
  -- which nothing was called; or a status was sent last, and the error is the refusal, with its message,
  -- of the call before, or the aggregate of that with the refusal of the status, or that of the status
  -- alone; and the server accepted every other call. If it panics, then a status was sent last, and
  -- the server accepted every other call.
  pub reconcile-Tells : (laws : IsLibrary lib) → Tells (reconcile server lib request h)
  unfolding reconcile
  reconcile-Tells laws = got-Tells laws (server.get h request) refl
