-- ===== src/Tests/Watching.antt =====
-- Predicates and handlers as controller-runtime documents them, and the events that they let through.
use mathlib.Core.List.{
  Mem, mem-cons, mem-cons_self, mem-cons_of_mem, not-mem-nil, mem-append, Mem-prop,
}
use mathlib.Core.Logic.Or
use mathlib.Core.Logic.{∥∥₁_prop, ∥∥₁_map, ∥∥₁_elim}
use mathlib.Core.Bool.{false≢true}
use reactivejob_operator.Prelude.{
  ◌≡◌, refl, ap, ◌↔◌, Bool, true, false, ◌&&◌, ◌||◌, not, Option, none, some, List, [], ◌∷◌, ◌++◌,
  str_eq, ◌==◌, eq_iff, if◌then◌else◌, arith, subst,
}
use reactivejob_operator.Prelude.Int.{ℤ, pos, negsuc}
use reactivejob_operator.Api.Meta.{Entries, StringMap, map_get}
use reactivejob_operator.Api.Types.{Job}
use reactivejob_operator.Controller.Watch.{
  Watching, IsWatching, created, updated, deleted, generic, subject, subjects, has_key, request_for,
  Controller, Predicate, Requirement, setup_with_manager,
}
use reactivejob_operator.Controller.Watch.Events.{Notices, setup_with_manager-Notices}
use reactivejob_operator.Controller.Watch.Jobs.{Follows, setup_with_manager-Follows}
use reactivejob_operator.Tests.Sample.{Content}

unfoldable same_generation : ℤ → ℤ → Bool
same_generation (pos a) (pos b) = a == b
same_generation (negsuc a) (negsuc b) = a == b
same_generation (pos a) (negsuc b) = false
same_generation (negsuc a) (pos b) = false

same_generation_iff : (a b : ℤ) → (same_generation a b ≡ true) ↔ (a ≡ b)
unfolding same_generation
same_generation_iff a b = grind arith

unfoldable same_entries : Entries → Entries → Bool
same_entries [] [] = true
same_entries [] (_ ∷ _) = false
same_entries (_ ∷ _) [] = false
same_entries ((k, v) ∷ a) ((j, w) ∷ b) = str_eq k j && (str_eq v w && same_entries a b)

same_entries_iff : (a b : Entries) → (same_entries a b ≡ true) ↔ (a ≡ b)
unfolding same_entries
same_entries_iff [] [] = (λ _. refl, λ _. refl)
same_entries_iff [] (x ∷ b) = (λ e. cc e, λ e. cc e)
same_entries_iff (x ∷ a) [] = (λ e. cc e, λ e. cc e)
same_entries_iff ((k, v) ∷ a) ((j, w) ∷ b) =
    let rest = same_entries_iff a b in grind (arith, rest, eq_iff k j, eq_iff v w)

abbrev same_map : StringMap → StringMap → Bool
same_map none none = true
same_map none (some _) = false
same_map (some _) none = false
same_map (some a) (some b) = same_entries a b

same_map_iff : (a b : StringMap) → (same_map a b ≡ true) ↔ (a ≡ b)
same_map_iff none none = (λ _. refl, λ _. refl)
same_map_iff none (some b) = (λ e. cc e, λ e. cc e)
same_map_iff (some a) none = (λ e. cc e, λ e. cc e)
same_map_iff (some a) (some b) = let same = same_entries_iff a b in grind arith

module _ {A B : Type 0} where
  flat : (A → List B) → List A → List B
  flat f [] = []
  flat f (x ∷ xs) = f x ++ flat f xs

  mem-flat :
      (f : A → List B) (xs : List A) (b : B)
      → Mem b (flat f xs) ↔ ∥ ((x : A) × Mem x xs × Mem b (f x)) ∥₁
  unfolding flat
  mem-flat f [] b = (
    λ m. absurd (not-mem-nil m),
    λ t. ∥∥₁_elim t Mem-prop (λ (x, m, here). absurd (not-mem-nil m)),
  )
  mem-flat f (x ∷ xs) b =
      let (there, back) = mem-flat f xs b in
      (
        λ m.
            Or.elim ∥∥₁_prop (mem-append.0 m) (λ here. ∣ (x, mem-cons_self, here) ∣₁)
              (λ later. ∥∥₁_map (there later) (λ (y, m', found). (y, mem-cons_of_mem x m', found))),
        λ t. ∥∥₁_elim t Mem-prop (λ (y, m, found).
            Or.elim Mem-prop (mem-cons.0 m)
              (λ e. mem-append.1 (Or.inl (subst (λ z. Mem b (f z)) e found)))
              (λ m'. mem-append.1 (Or.inr (back ∣ (y, m', found) ∣₁)))),
      )

abbrev or_true : {A : Type 0} → (A → A → Bool) → Predicate A
or_true p (updated old new) = p old new
or_true p (created x) = true
or_true p (deleted x) = true
or_true p (generic x) = true

-- Only the operator `Exists` is made, and of one requirement.
abbrev selector : List Requirement → Option (Predicate (Job Content))
selector (requirement ∷ []) = some (λ e. has_key requirement.key (subject e).meta.labels)
selector _ = none

abbrev watching : Watching Content
watching = record {
  generation_changed =
      or_true (λ old new. not (same_generation old.meta.generation new.meta.generation));
  annotation_changed =
      or_true (λ old new. not (same_map old.meta.annotations new.meta.annotations));
  or = λ p q e. p e || q e;
  label_selector = selector;
  for_requests = λ p e. if p e then request_for (subject e).meta ∷ [] else [];
  watch_requests = λ f p e. if p e then flat f (subjects e) else [];
}

not_iff : {A : Type 0} {b : Bool} → (b ≡ true) ↔ A → (not b ≡ true) ↔ ¬ A
not_iff {b = true} (there, back) = (λ e. absurd (false≢true e), λ no. absurd (no (there refl)))
not_iff {b = false} (there, back) = (λ _ a. false≢true (back a), λ _. refl)

watching-IsWatching : IsWatching watching
watching-IsWatching = record {
  generation_rest = λ r. (refl, refl, refl);
  generation_iff = λ old new. not_iff (same_generation_iff _ _);
  annotation_same = λ old new e. ap not ((same_map_iff _ _).1 e);
  annotation_differs =
      λ old new k differ. (not_iff (same_map_iff _ _)).1 (λ e. differ (ap (λ m. map_get m k) e));
  or_either = λ p q e. refl;
  label_exists = (_, refl, λ e. refl);
  for_object = λ p e. refl;
  watch_mapped = λ f p e q passes. rw passes (mem-flat f (subjects e) q);
  watch_filtered = λ f p e stays. rw stays refl;
}

setup_with_manager-Notices_example :
    (c : Controller Content) × (setup_with_manager watching ≡ some c) × Notices c
setup_with_manager-Notices_example = setup_with_manager-Notices watching watching-IsWatching

setup_with_manager-Follows_example :
    (c : Controller Content) × (setup_with_manager watching ≡ some c) × Follows c
setup_with_manager-Follows_example = setup_with_manager-Follows watching watching-IsWatching
