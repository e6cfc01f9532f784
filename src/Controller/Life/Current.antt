-- ===== src/Controller/Life/Current.antt =====
-- Which of the listed jobs a run takes for the current one.
use mathlib.Core.List.{
  Mem, Perm, mem-cons, mem-cons_self, mem-map_of_mem, exists_of_mem-map, not-mem-nil,
}
use mathlib.Core.List.Perm
use mathlib.Core.Logic.{∥∥₁_elim}
use mathlib.Core.Logic.Or
use native.Mathlib.Bridge.{le_prop}
use reactivejob_operator.Prelude.{String, ◌≡◌, refl, ap, sym, ◌∙◌, subst, true, List, [], ◌∷◌, map}
use reactivejob_operator.Prelude.Int.{ℤ, ◌≤ℤ◌}
use reactivejob_operator.Api.Types.{Job}
use reactivejob_operator.Kube.Library.{Library, IsLibrary, ok}
use reactivejob_operator.Controller.Objects.{older}
use reactivejob_operator.Controller.Newest.{newest_first, generation_number, number_of, is_number}
use reactivejob_operator.Controller.Runs.Create.{NeedsJob}
use reactivejob_operator.Controller.Life.{Known, known, known_generation, IsOld, known_prop}

known_readable_prop : (v : Known) → IsProp (is_number (known_generation v) ≡ true)
known_readable_prop v = hlevel

module _ {E : Type 0} (lib : Library E) (laws : IsLibrary lib) (generation : ℤ) (hash : String)
    (others : List Known) (old : (v : Known) → Mem v others → IsOld generation hash others v) where
  old-readable : (v : Known) → Mem v others → is_number (known_generation v) ≡ true
  old-readable v m = (old v m).0

  -- Without a job for the template one is needed.
  pub sorted-NeedsJob :
      (items : List (Job E))
      → Perm (map known items) others
      → (sorted : List (Job E)) × (lib.sort_by older items ≡ ok sorted) × NeedsJob sorted hash
  sorted-NeedsJob items stored =
      let there : (x : Job E) → Mem x items → Mem (known x) others =
        λ x m. (Perm.mem_iff stored).0 (mem-map_of_mem known m) in
      let (sorted, e, perm, top) =
        newest_first lib laws items (λ x m. old-readable (known x) (there x m)) in
      (sorted, e, needs sorted (λ x m. there x ((Perm.mem_iff perm).0 m)) top)
    where
      needs :
          (sorted : List (Job E))
          → ((x : Job E) → Mem x sorted → Mem (known x) others)
          → ((current : Job E) (rest : List (Job E))
              → sorted ≡ current ∷ rest
              → (x : Job E) → Mem x items
              → generation_number x ≤ℤ generation_number current)
          → NeedsJob sorted hash
      needs [] there top = tt
      needs (current ∷ rest) there top =
          (old (known current) (there current mem-cons_self)).2 (λ u m.
            ∥∥₁_elim (exists_of_mem-map ((Perm.mem_iff stored).1 m)) le_prop (λ (x, m', is_u).
              subst (λ i. i ≤ℤ generation_number current)
                (ap (λ v. number_of (known_generation v)) is_u) (top current rest refl x m')))

  module _ (only : Known) (numbered : known_generation only ≡ ok generation) where
    all-readable : (v : Known) → Mem v (only ∷ others) → is_number (known_generation v) ≡ true
    all-readable v m =
        Or.elim (known_readable_prop v) (mem-cons.0 m)
          (λ e. ap (λ u. is_number (known_generation u)) e ∙ ap is_number numbered) (old-readable v)

    -- A job that is as new as that for the template is that one.
    newest-only :
        (v : Known)
        → Mem v (only ∷ others)
        → generation ≤ℤ number_of (known_generation v)
        → v ≡ only
    newest-only v m above =
        Or.elim known_prop (mem-cons.0 m) (λ e. e) (λ m'. absurd ((old v m').1 above))

    has_first :
        (sorted items : List (Job E))
        → Perm sorted items
        → Perm (map known items) (only ∷ others)
        → (current : Job E) × (rest : List (Job E)) × (sorted ≡ current ∷ rest)
    has_first [] items perm stored =
        absurd
          (not-mem-nil ((Perm.mem_iff (Perm.trans (Perm.map known perm) stored)).1 mem-cons_self))
    has_first (current ∷ rest) items perm stored = (current, rest, refl)

    -- The first of the sorted jobs is the one for the template.
    pub sorted_current :
        (items : List (Job E))
        → Perm (map known items) (only ∷ others)
        → (current : Job E) × (rest : List (Job E)) × (lib.sort_by older items
            ≡ ok (current ∷ rest))
          × (known current ≡ only)
          × Mem current items
          × Perm (current ∷ rest) items
    sorted_current items stored =
        let there : (x : Job E) → Mem x items → Mem (known x) (only ∷ others) =
          λ x m. (Perm.mem_iff stored).0 (mem-map_of_mem known m) in
        let (sorted, e, perm, top) =
          newest_first lib laws items (λ x m. all-readable (known x) (there x m)) in
        let (current, rest, split) = has_first sorted items perm stored in
        let here : Mem current items =
          (Perm.mem_iff perm).0 (subst (Mem current) (sym split) mem-cons_self) in
        let above : generation ≤ℤ generation_number current =
          ∥∥₁_elim (exists_of_mem-map ((Perm.mem_iff stored).1 mem-cons_self)) le_prop
            (λ (x, m, is_only).
              subst (λ k. k ≤ℤ generation_number current)
                (ap (λ v. number_of (known_generation v)) is_only ∙ ap number_of numbered)
                (top current rest split x m)) in
        (
          current,
          rest,
          e ∙ ap ok split,
          newest-only (known current) (there current here) above,
          here,
          subst (λ l. Perm l items) split perm,
        )
