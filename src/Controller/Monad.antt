-- ===== src/Controller/Monad.antt =====
-- A run of `Reconcile`: state, errors and panics. What was written before an error stays written.
use reactivejob_operator.Prelude.{String, Bool, ◌∷◌, ◌≡◌, refl}
use reactivejob_operator.Api.Types.{ReactiveJob}
use reactivejob_operator.Kube.Server.{Call, History, Reply, done, failed}
use reactivejob_operator.Kube.Library.{api, wrap, Outcome, ok, err, panic}

pub record Frame (E : Type 0) : Type 0 where
  pub reactive_job : ReactiveJob E
  pub skip_status_update : Bool
  pub history : History E

abbrev pub Exec : Type 0 → Type 0 → Type 0
Exec E A = Frame E → Outcome A × Frame E

-- `if err := call; err != nil { return ctrl.Result{}, errors.Wrap(err, message) }`
abbrev pub or_wrap : {A : Type 0} → Reply A → String → Outcome A
or_wrap (done a) message = ok a
or_wrap (failed e) message = err (wrap message (api e))

module _ {E A : Type 0} where
  unfoldable pub pure : A → Exec E A
  pure a f = (ok a, f)

  -- A client call is recorded, and its error wrapped.
  unfoldable pub perform : Call E → (History E → Reply A) → String → Exec E A
  perform call answer message f =
      (or_wrap (answer f.history) message, record f { history = call ∷ f.history })

module _ {E : Type 0} where
  unfoldable pub modify_job : (ReactiveJob E → ReactiveJob E) → Exec E (Unit {0})
  modify_job g f = (ok tt, record f { reactive_job = g f.reactive_job })

  unfoldable pub get_job : Exec E (ReactiveJob E)
  get_job f = (ok f.reactive_job, f)

module _ {E A : Type 0} where
  unfoldable pub lift : Outcome A → Exec E A
  lift r f = (r, f)

module _ {E A B : Type 0} where
  abbrev pub continue : Outcome A → (A → Exec E B) → Exec E B
  continue (ok a) k f = k a f
  continue (err e) k f = (err e, f)
  continue panic k f = (panic, f)

  infixl 5 ◌>>=◌
  -- Opening this opens the runs above too.
  unfoldable pub ◌>>=◌ : Exec E A → (A → Exec E B) → Exec E B
  unfolding pure perform modify_job get_job lift
  ◌>>=◌ m k f = let (r, f') = m f in continue r k f'

module _ {E B : Type 0} where
  infixl 5 ◌>>◌
  abbrev pub ◌>>◌ : Exec E (Unit {0}) → Exec E B → Exec E B
  m >> k = m >>= λ _. k

module _ {E A B : Type 0} where
  -- Where the first run returns a value, the rest goes on from the state that it left.
  pub >>=-ok :
      (m : Exec E A) (k : A → Exec E B) (f f' : Frame E) (a : A)
      → m f ≡ (ok a, f')
      → (m >>= k) f ≡ k a f'
  unfolding ◌>>=◌
  >>=-ok m k f f' a e = rw e refl
