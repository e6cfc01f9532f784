-- ===== src/Tests/Lifetimes.antt =====
-- A ReactiveJob whose template is changed, and changed back, at a server that stores it and its jobs.
use mathlib.Core.List.Perm
use reactivejob_operator.Prelude.{
  ℕ, ◌≡◌, refl, List, [], ◌∷◌, map, some, str_eq, eq_iff, if◌then◌else◌, arith,
}
use reactivejob_operator.Prelude.Int.{pos}
use reactivejob_operator.Api.Types.{ReactiveJob}
use reactivejob_operator.Kube.Server.{History, update}
use reactivejob_operator.Kube.Library.{Library, IsLibrary}
use reactivejob_operator.Controller.Hash.{json_hash}
use reactivejob_operator.Controller.Reconcile.{reconcile}
use reactivejob_operator.Controller.Life.{Known, IsServed, Rounds, ended, run}
use reactivejob_operator.Controller.Life.Lifetime.{
  Version, wanted_stamp, stamp, created, changed, Lived-IsServed,
}
use reactivejob_operator.Tests.Sample.{Content, library, library-IsLibrary, template, request}
use reactivejob_operator.Tests.Living.{new_one, object, jobs, storing, storing-Stores}

-- A library whose JSON shows one field of the template.
abbrev showing : Library Content
showing = record library {
  marshal = λ t. some (if str_eq t.meta.generate_name "" then 0x7b ∷ 0x7d ∷ [] else 0x7b ∷ []);
}

showing-IsLibrary : IsLibrary showing
showing-IsLibrary = record {
  contains_iff = library-IsLibrary.contains_iff;
  mem-remove = library-IsLibrary.mem-remove;
  mem-add_finalizer = library-IsLibrary.mem-add_finalizer;
  mem-remove_finalizer = library-IsLibrary.mem-remove_finalizer;
  sorts = library-IsLibrary.sorts;
  sort_fine = library-IsLibrary.sort_fine;
  sort_one = library-IsLibrary.sort_one;
  sort_panics = library-IsLibrary.sort_panics;
}

-- The second version, and the third one with the template of the first.
abbrev second_one : ReactiveJob Content
second_one = record new_one {
  meta = record (new_one.meta) { generation = pos 4 };
  spec = record {
    job_template = record template { meta = record (template.meta) { generate_name = "x" } };
  };
}

abbrev third_one : ReactiveJob Content
third_one = record new_one { meta = record (new_one.meta) { generation = pos 5 } }

abbrev once : History Content → History Content
once h = (reconcile (storing []) showing request h).1

abbrev thrice : History Content → History Content
thrice h = once (once (once h))

three : (h : History Content) → Rounds (storing []) showing request 3 h (thrice h)
three h = run h (run (once h) (run (once (once h)) (ended _)))

abbrev first_end : History Content
first_end = thrice []

abbrev second_end : History Content
second_end = thrice (update second_one ∷ first_end)

abbrev third_end : History Content
third_end = thrice (update third_one ∷ second_end)

abbrev versions : List (Version Content)
versions = (third_one, "7b7d") ∷ (second_one, "7b") ∷ (new_one, "7b7d") ∷ []

Lived-IsServed_example :
    (only : Known) × (others : List Known) × (map stamp (only ∷ others) ≡ map wanted_stamp versions)
    × ((n : ℕ) (h : History Content)
        → Rounds (storing []) showing request n third_end h
        → IsServed (storing []) showing request object (jobs []) third_one "7b7d" others h only)
unfolding jobs json_hash object
Lived-IsServed_example =
    Lived-IsServed (storing []) showing showing-IsLibrary request object (jobs [])
      (storing-Stores [])
      (changed second_one "7b" ((new_one, "7b7d") ∷ []) third_one "7b7d" third_one
        (changed new_one "7b7d" [] second_one "7b" second_one
          (created new_one "7b7d" (omega arith, refl, refl) refl (Perm.refl _) (three []))
          (omega arith, refl, refl) (λ above. omega (arith, above))
          (λ e. cc ((eq_iff "7b7d" "7b").1 e)) refl (three (update second_one ∷ first_end)))
        (omega arith, refl, refl) (λ above. omega (arith, above))
        (λ e. cc ((eq_iff "7b" "7b7d").1 e)) refl (three (update third_one ∷ second_end)))
