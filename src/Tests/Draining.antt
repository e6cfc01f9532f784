-- ===== src/Tests/Draining.antt =====
-- A server that carries out the deletion of its one job, and the end of the deletion against it.
use mathlib.Core.List.{Mem, mem-cons, not-mem-nil}
use mathlib.Core.Logic.Or
use mathlib.Core.Bool.{false≢true}
use reactivejob_operator.Prelude.{
  String, ◌≡◌, refl, ap, sym, ◌∙◌, subst, ◌⊎◌, inl, inr, Bool, Bool-cases, true, false, List, [],
  ◌∷◌, ◌++◌, if◌then◌else◌,
}
use reactivejob_operator.Api.Meta.{is_zero, lookup}
use reactivejob_operator.Api.Types.{Job}
use reactivejob_operator.Kube.Server.{Server, Call, History, done, get, delete_job}
use reactivejob_operator.Strconv.{atoi}
use reactivejob_operator.Controller.Hash.{must_atoi}
use reactivejob_operator.Controller.Reconcile.{reconcile}
use reactivejob_operator.Controller.Newest.{is_readable}
use reactivejob_operator.Controller.Drain.{names, Drains, TakesOff}
use reactivejob_operator.Controller.Drain.Ends.{reconcile-ends}
use reactivejob_operator.Tests.Strings.{contains, remove, test_prop}
use reactivejob_operator.Tests.Sample.{
  Content, library, library-IsLibrary, dying, old_job, server, request,
}

is_delete : Call Content → Bool
is_delete (delete_job _) = true
is_delete _ = false

remaining : History Content → List (Job Content)
remaining [] = old_job ∷ []
remaining (call ∷ h) = let rest = remaining h in if is_delete call then [] else rest

abbrev draining : Server Content
draining = record (server dying []) { list = λ h namespace key value. done (remaining h) }

remaining-deleted :
    (call : Call Content) (h : History Content) → is_delete call ≡ true → remaining (call ∷ h) ≡ []
unfolding remaining
remaining-deleted call h e = rw e refl

remaining-kept :
    (call : Call Content) (h : History Content)
    → is_delete call ≡ false
    → remaining (call ∷ h) ≡ remaining h
unfolding remaining
remaining-kept call h e = rw e refl

none_appears :
    (h : History Content) (call : Call Content) (n : String)
    → Mem n (names (remaining (call ∷ h)))
    → Mem n (names (remaining h))
none_appears h call n m = elim (Bool-cases (is_delete call)) [
  | inl e ↦ absurd (not-mem-nil (subst (λ l. Mem n (names l)) (remaining-deleted call h e) m))
  | inr e ↦ subst (λ l. Mem n (names l)) (remaining-kept call h e) m
]

listed-old :
    (P : Job Content → Type 0) (h : History Content) (k : Job Content)
    → ((a b : P k) → a ≡ b)
    → P old_job
    → Mem k (remaining h)
    → P k
listed-old P [] k prop p m =
    unfold remaining in
    Or.elim prop (mem-cons.0 m) (λ e. subst P (sym e) p) (λ later. absurd (not-mem-nil later))
listed-old P (call ∷ h) k prop p m = elim (Bool-cases (is_delete call)) [
  | inl e ↦ absurd (not-mem-nil (subst (λ l. Mem k l) (remaining-deleted call h e) m))
  | inr e ↦ listed-old P h k prop p (subst (λ l. Mem k l) (remaining-kept call h e) m)
]

deleted-gone :
    (h : History Content) (j : Job Content) (n : String)
    → Mem (delete_job j) h
    → Mem n (names (remaining h))
    → ⊥
deleted-gone [] j n d m = not-mem-nil d
deleted-gone (call ∷ h) j n d m = elim (Bool-cases (is_delete call)) [
  | inl e ↦ not-mem-nil (subst (λ l. Mem n (names l)) (remaining-deleted call h e) m)
  | inr e ↦
      Or.elim (λ a b. absurd a) (mem-cons.0 d)
        (λ same. false≢true (sym e ∙ ap is_delete (sym same) ∙ unfold is_delete in refl))
        (λ later.
          deleted-gone h j n later (subst (λ l. Mem n (names l)) (remaining-kept call h e) m))
]

draining-Drains : Drains draining library request "u-1" (λ h. dying) remaining
unfolding remove contains lookup must_atoi atoi
draining-Drains = record {
  read = λ h. refl;
  same_uid = λ h. refl;
  seen = λ h. refl;
  dying = λ h. refl;
  none_foreign = λ h. refl;
  own = λ h. refl;
  accepted = λ h r. r;
  accepts_update = λ h r. refl;
  listed = λ h. refl;
  readable = λ h k m. listed-old (λ j. is_readable j ≡ true) h k (test_prop _) refl m;
  none_new = λ h call quiet n m. none_appears h call n m;
  gone = λ h calls k m asked still.
      let (j, d, same) =
        asked.1
          (listed-old (λ j. is_zero j.meta.deletion_timestamp ≡ true) h k (test_prop _) refl m) in
      deleted-gone (calls ++ h) j k.meta.name d
        (none_appears (calls ++ h) (get request) k.meta.name still);
}

reconcile-ends_example :
    TakesOff draining library request dying []
    ⊎ TakesOff draining library request dying (reconcile draining library request []).1
reconcile-ends_example =
    reconcile-ends library-IsLibrary draining-Drains (λ h k. k) (λ h k. refl) (λ h k. refl)
      (λ h k. refl) (λ h k. refl) []
