-- ===== src/Controller/Life/Released.antt =====
-- The older jobs lose the operator's finalizer in a run that reports the current one.
use mathlib.Core.List.{Mem, Perm, mem-cons, not-mem-nil}
use mathlib.Core.List.Perm
use mathlib.Core.Logic.{∥∥₁_elim, ∥∥₁_prop}
use mathlib.Core.Logic.Or
use mathlib.Core.Bool.{false≢true}
use reactivejob_operator.Prelude.{
  String, ◌≡◌, ◌≢◌, refl, ap, sym, ◌∙◌, subst, true, false, List, [], ◌∷◌, Bool-cases, inl, inr,
  str_eq, eq_iff,
}
use reactivejob_operator.Api.Meta.{NamespacedName}
use reactivejob_operator.Api.Types.{Job, ReactiveJob}
use reactivejob_operator.Kube.Server.{Server, History, get, list, update_job, update_status}
use reactivejob_operator.Kube.Library.{Library, IsLibrary}
use reactivejob_operator.Controller.Objects.{finalizer, release}
use reactivejob_operator.Controller.Life.{IsAlike, Stores}
use reactivejob_operator.Controller.Runs.{looked_up}
use reactivejob_operator.Controller.Runs.Settle.{releases, then_calls}

module _ {E : Type 0} (server : Server E) (lib : Library E) (laws : IsLibrary lib)
    (request : NamespacedName) (object : History E → ReactiveJob E)
    (jobs : History E → List (Job E)) (stores : Stores server request object jobs) where
  abbrev HasFinalizer : Job E → Type 0
  HasFinalizer x = lib.contains x.meta.finalizers finalizer ≡ true

  -- Each stored job but the one of a name that has the finalizer is still in the list.
  abbrev IsPending : String → List (Job E) → History E → Type 0
  IsPending current rest h =
      (x : Job E)
      → Mem x (jobs h)
      → x.meta.name ≢ current
      → HasFinalizer x
      → ∥ ((k : Job E) × Mem k rest × IsAlike k x) ∥₁

  release-clean : (job : Job E) → ¬ HasFinalizer (release lib job)
  release-clean job has =
      ((laws.mem-remove_finalizer _ _ _).0 ((laws.contains_iff _ _).0 has)).1 refl

  -- A job of the list that is not the one written is in the rest of it.
  in_rest :
      (job x : Job E) (rest : List (Job E))
      → ¬ IsAlike job x
      → ((k : Job E) × Mem k (job ∷ rest) × IsAlike k x)
      → ∥ ((k : Job E) × Mem k rest × IsAlike k x) ∥₁
  in_rest job x rest unlike (k, m, alike) =
      Or.elim ∥∥₁_prop (mem-cons.0 m) (λ e. absurd (unlike (subst (λ j. IsAlike j x) e alike)))
        (λ m'. ∣ (k, m', alike) ∣₁)

  IsPending-kept :
      (current : String) (job : Job E) (rest : List (Job E)) (h : History E)
      → lib.contains job.meta.finalizers finalizer ≡ false
      → IsPending current (job ∷ rest) h
      → IsPending current rest h
  IsPending-kept current job rest h clean pending x m other has =
      ∥∥₁_elim (pending x m other has) ∥∥₁_prop (
        in_rest job x rest
          (λ (_, same). false≢true (sym clean ∙ ap (λ l. lib.contains l finalizer) same ∙ has)))

  IsPending-released :
      (current : String) (job : Job E) (rest : List (Job E)) (h : History E)
      → IsPending current (job ∷ rest) h
      → IsPending current rest (update_job (release lib job) ∷ h)
  IsPending-released current job rest h pending x m other has =
      elim (Bool-cases (str_eq job.meta.name x.meta.name)) [
        | inl same ↦ absurd (
            release-clean job (
              ap (λ l. lib.contains l finalizer)
                (sym (stores.rewritten h (release lib job) x m ((eq_iff _ _).0 same)))
              ∙ has))
        | inr differs ↦
            let differ : job.meta.name ≢ x.meta.name =
              λ e. false≢true (sym differs ∙ (eq_iff _ _).1 e) in
            ∥∥₁_elim (stores.carried h (update_job (release lib job)) x tt differ m) ∥∥₁_prop
              (λ (y, my, same).
                ∥∥₁_elim
                  (pending y my (λ e. other (sym same.0 ∙ e))
                    (ap (λ l. lib.contains l finalizer) same.1 ∙ has))
                  ∥∥₁_prop
                  (λ (k, mk, alike).
                    in_rest job x rest (λ a. differ a.0)
                      (k, mk, (alike.0 ∙ same.0, alike.1 ∙ same.1))))
      ]

  IsPending-releases :
      (current : String) (rest : List (Job E)) (h : History E)
      → IsPending current rest h
      → IsPending current [] (then_calls h (releases lib rest))
  unfolding releases
  IsPending-releases current [] h pending = pending
  IsPending-releases current (job ∷ rest) h pending =
      elim (Bool-cases (lib.contains job.meta.finalizers finalizer)) [
        | inl has ↦ rw has (
            IsPending-releases current rest (update_job (release lib job) ∷ h)
              (IsPending-released current job rest h pending))
        | inr hasnt ↦
            rw hasnt
              (IsPending-releases current rest h (IsPending-kept current job rest h hasnt pending))
      ]

  -- What was listed is pending at first.
  IsPending-looked :
      (h : History E) (job : Job E) (rest : List (Job E))
      → Perm (job ∷ rest) (jobs (get request ∷ h))
      → IsPending job.meta.name rest (looked_up request (object h) h)
  IsPending-looked h job rest perm x m other has =
      ∥∥₁_elim (stores.carried (get request ∷ h) (list _ _ _) x tt (λ w. w) m) ∥∥₁_prop
        (λ (y, my, same).
          in_rest job x rest (λ a. other (sym a.0)) (y, (Perm.mem_iff perm).1 my, same))

  -- After the releases and the status update no other job has the finalizer.
  pub releases-clean :
      (h : History E) (job : Job E) (rest : List (Job E)) (s : ReactiveJob E)
      → Perm (job ∷ rest) (jobs (get request ∷ h))
      → (x : Job E)
      → Mem x
          (jobs (update_status s ∷ then_calls (looked_up request (object h) h) (releases lib rest)))
      → x.meta.name ≢ job.meta.name
      → lib.contains x.meta.finalizers finalizer ≡ false
  releases-clean h job rest s perm x m other =
      elim (Bool-cases (lib.contains x.meta.finalizers finalizer)) [
        | inr clean ↦ clean
        | inl has ↦
            let pending =
              IsPending-releases job.meta.name rest _ (IsPending-looked h job rest perm) in
            absurd (
              ∥∥₁_elim (stores.carried _ (update_status s) x tt (λ w. w) m) (λ a b. absurd a)
                (λ (y, my, same).
                  ∥∥₁_elim
                    (pending y my (λ e. other (sym same.0 ∙ e))
                      (ap (λ l. lib.contains l finalizer) same.1 ∙ has))
                    (λ a b. absurd a) (λ (k, mk, alike). not-mem-nil mk)))
      ]
