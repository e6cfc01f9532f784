-- ===== src/Controller/Emits.antt =====
-- The calls that a run adds to the history, with one rule for each way to build a run.
use mathlib.Core.List.{append_assoc}
use reactivejob_operator.Prelude.{
  String, Bool, true, false, ◌≡◌, refl, ap, sym, ◌∙◌, [], ◌∷◌, ◌++◌, All, All-append, if◌then◌else◌,
}
use reactivejob_operator.Api.Types.{ReactiveJob}
use reactivejob_operator.Kube.Server.{Call, History, Reply}
use reactivejob_operator.Kube.Library.{Outcome, ok, err, panic}
use reactivejob_operator.Controller.Monad.{
  Frame, Exec, pure, perform, continue, ◌>>=◌, modify_job, get_job, lift, ◌>>◌,
}

-- From `f`, the run `m` adds calls of which `P` holds, and nothing else happens to the history.
pub record Emits {E A : Type 0} (P : Call E → Type 0) (m : Exec E A) (f : Frame E) : Type 0 where
  pub calls : History E
  pub added : (m f).1.history ≡ calls ++ f.history
  pub all : All P calls

module _ {E A : Type 0} {P : Call E → Type 0} where
  pub Emits-pure : (a : A) (f : Frame E) → Emits P (pure a) f
  unfolding pure
  Emits-pure a f = record { calls = []; added = refl; all = tt }

  pub Emits-lift : (r : Outcome A) (f : Frame E) → Emits P (lift r) f
  unfolding lift
  Emits-lift r f = record { calls = []; added = refl; all = tt }

  pub Emits-perform :
      (call : Call E) (answer : History E → Reply A) (message : String) (f : Frame E)
      → P call
      → Emits P (perform call answer message) f
  unfolding perform
  Emits-perform call answer message f p = record { calls = call ∷ []; added = refl; all = (p, tt) }

  pub Emits-if :
      (b : Bool) (m n : Exec E A) (f : Frame E)
      → (b ≡ true → Emits P m f)
      → (b ≡ false → Emits P n f)
      → Emits P (if b then m else n) f
  Emits-if true m n f km kn = km refl
  Emits-if false m n f km kn = kn refl

module _ {E A B : Type 0} {P : Call E → Type 0} where
  Emits-continue :
      (r : Outcome A) (k : A → Exec E B) (f : Frame E)
      → ((a : A) → r ≡ ok a → Emits P (k a) f)
      → Emits P (continue r k) f
  Emits-continue (ok a) k f h = record {
    calls = (h a refl).calls;
    added = (h a refl).added;
    all = (h a refl).all;
  }
  Emits-continue (err e) k f h = record { calls = []; added = refl; all = tt }
  Emits-continue panic k f h = record { calls = []; added = refl; all = tt }

  -- The rest may use the value that the first run returned and the state that it left.
  pub Emits-bind :
      (m : Exec E A) (k : A → Exec E B) (f : Frame E)
      → Emits P m f
      → ((a : A) → (m f).0 ≡ ok a → Emits P (k a) (m f).1)
      → Emits P (m >>= k) f
  unfolding ◌>>=◌
  Emits-bind m k f first rest =
      let r = Emits-continue (m f).0 k (m f).1 rest in
      record {
        calls = r.calls ++ first.calls;
        added =
            r.added
            ∙ ap (λ h. r.calls ++ h) first.added
            ∙ sym (append_assoc r.calls first.calls f.history);
        all = All-append P r.calls first.calls first.all r.all;
      }

module _ {E : Type 0} {P : Call E → Type 0} where
  pub Emits-modify_job :
      (g : ReactiveJob E → ReactiveJob E) (f : Frame E) → Emits P (modify_job g) f
  unfolding modify_job
  Emits-modify_job g f = record { calls = []; added = refl; all = tt }

module _ {E B : Type 0} {P : Call E → Type 0} where
  pub Emits-get_job :
      (k : ReactiveJob E → Exec E B) (f : Frame E)
      → Emits P (k f.reactive_job) f
      → Emits P (get_job >>= k) f
  unfolding ◌>>=◌
  Emits-get_job k f e = record { calls = e.calls; added = e.added; all = e.all }

  pub Emits-modify :
      (g : ReactiveJob E → ReactiveJob E) (k : Exec E B) (f : Frame E)
      → Emits P k (record f { reactive_job = g f.reactive_job })
      → Emits P (modify_job g >> k) f
  unfolding ◌>>=◌
  Emits-modify g k f e = record { calls = e.calls; added = e.added; all = e.all }
