-- ===== src/Controller/Cluster/Machine.antt =====
-- The machine that the operator implements: for one template, with its hash and generation, a job is
-- added only where the newest one lacks the hash.
use mathlib.Core.List.{Mem, Perm, mem-cons, mem-cons_self, not-mem-nil}
use mathlib.Core.List.Perm
use mathlib.Core.Logic.{∥∥₁_elim}
use mathlib.Core.Logic.Or
use native.Mathlib.Nat.{ℕ_set}
use mathlib.Core.List.{Permᴰ}
use reactivejob_operator.Prelude.{
  suc, ◌≤◌, String, ◌≡◌, ◌≢◌, refl, ap, sym, ◌∙◌, subst, Bool, true, str_eq, eq_iff, List, [], ◌∷◌,
  length, arith,
}
use reactivejob_operator.Prelude.Int.{ℤ, ◌≤ℤ◌}
use reactivejob_operator.Api.Meta.{StringMap, map_get}
use reactivejob_operator.Controller.Hash.{must_atoi}
use reactivejob_operator.Controller.Objects.{
  annotation_controller_generation, annotation_controller_hash,
}
use reactivejob_operator.Controller.Newest.{number_of, is_number}

le_trans_ℤ : (a b c : ℤ) → a ≤ℤ b → b ≤ℤ c → a ≤ℤ c
le_trans_ℤ a b c h k = omega arith

abbrev pub view_hash : StringMap → String
view_hash v = map_get v annotation_controller_hash

abbrev pub view_generation : StringMap → ℤ
view_generation v = number_of (must_atoi (map_get v annotation_controller_generation))

abbrev pub view_readable : StringMap → Bool
view_readable v = is_number (must_atoi (map_get v annotation_controller_generation))

-- There is no job, or one of the highest generation has another hash.
pub data Lacks (hash : String) : List StringMap → Type 0 where
  nothing : (vs : List StringMap) → vs ≡ [] → Lacks hash vs
  outdated :
      (vs : List StringMap) (v : StringMap)
      → Mem v vs
      → ((u : StringMap) → Mem u vs → view_generation u ≤ℤ view_generation v)
      → view_hash v ≢ hash
      → Lacks hash vs

-- One run: nothing is added, or one job with the hash and the generation.
pub data MachineStep (hash : String) (generation : ℤ)
    : List StringMap → List StringMap → Type 0 where
  stays :
      (before after : List StringMap) → Perm after before → MachineStep hash generation before after
  adds :
      (before after : List StringMap) (new : StringMap)
      → Lacks hash before
      → view_hash new ≡ hash
      → view_generation new ≡ generation
      → view_readable new ≡ true
      → Perm after (new ∷ before)
      → MachineStep hash generation before after

length-Permᴰ : {A : Type 0} {xs ys : List A} → Permᴰ xs ys → length xs ≡ length ys
length-Permᴰ Permᴰ.nil = refl
length-Permᴰ (Permᴰ.cons e d) = ap suc (length-Permᴰ d)
length-Permᴰ (Permᴰ.swap e e') = refl
length-Permᴰ (Permᴰ.trans d d') = length-Permᴰ d ∙ length-Permᴰ d'

pub length-Perm : {A : Type 0} {xs ys : List A} → Perm xs ys → length xs ≡ length ys
length-Perm p = ∥∥₁_elim p (ℕ_set _ _) length-Permᴰ

module _ (hash : String) (generation : ℤ) where
  -- Every job can be read, and none that is as new as the template has another hash.
  pub record IsConsistent (vs : List StringMap) : Type 0 where
    pub readable : (v : StringMap) → Mem v vs → view_readable v ≡ true
    pub same_hash :
        (v : StringMap) → Mem v vs → generation ≤ℤ view_generation v → view_hash v ≡ hash

  -- There is a job that is as new as the template.
  abbrev pub IsSettled : List StringMap → Type 0
  IsSettled vs = (v : StringMap) × Mem v vs × (generation ≤ℤ view_generation v)

  readable_prop : (v : StringMap) → IsProp (view_readable v ≡ true)
  readable_prop v = hlevel

  test_prop : (s t : String) → IsProp (str_eq s t ≡ true)
  test_prop s t = hlevel

  IsConsistent-Perm : (vs us : List StringMap) → Perm us vs → IsConsistent vs → IsConsistent us
  IsConsistent-Perm vs us p c = record {
    readable = λ v m. c.readable v ((Perm.mem_iff p).0 m);
    same_hash = λ v m. c.same_hash v ((Perm.mem_iff p).0 m);
  }

  IsSettled-Perm : (vs us : List StringMap) → Perm us vs → IsSettled vs → IsSettled us
  IsSettled-Perm vs us p (v, m, above) = (v, (Perm.mem_iff p).1 m, above)

  IsConsistent-cons :
      (new : StringMap) (vs : List StringMap)
      → view_hash new ≡ hash
      → view_readable new ≡ true
      → IsConsistent vs
      → IsConsistent (new ∷ vs)
  IsConsistent-cons new vs hashed read c = record {
    readable = λ v m.
        Or.elim (readable_prop v) (mem-cons.0 m) (λ e. ap view_readable e ∙ read) (c.readable v);
    same_hash = λ v m above. (eq_iff (view_hash v) hash).0 (
        Or.elim (test_prop (view_hash v) hash) (mem-cons.0 m)
          (λ e. (eq_iff (view_hash v) hash).1 (ap view_hash e ∙ hashed))
          (λ later. (eq_iff (view_hash v) hash).1 (c.same_hash v later above)));
  }

  pub IsConsistent-step :
      {vs us : List StringMap}
      → MachineStep hash generation vs us
      → IsConsistent vs
      → IsConsistent us
  IsConsistent-step (stays before after p) c = IsConsistent-Perm before after p c
  IsConsistent-step (adds before after new lacks hashed at read p) c =
      IsConsistent-Perm (new ∷ before) after p (IsConsistent-cons new before hashed read c)

  -- A settled machine has nothing to add.
  settled_complete : (vs : List StringMap) → IsConsistent vs → IsSettled vs → ¬ Lacks hash vs
  settled_complete vs c (v, m, above) (nothing us e) = not-mem-nil (subst (λ l. Mem v l) e m)
  settled_complete vs c (v, m, above) (outdated us u mu top other) =
      let below = top v m in
      other (
        c.same_hash u mu
          (le_trans_ℤ generation (view_generation v) (view_generation u) above below))

  pub data MachineSteps : List StringMap → List StringMap → Type 0 where
    stop : (vs : List StringMap) → MachineSteps vs vs
    step :
        {vs us ws : List StringMap}
        → MachineStep hash generation vs us
        → MachineSteps us ws
        → MachineSteps vs ws

  pub settled-steps :
      {vs us : List StringMap}
      → MachineSteps vs us
      → IsConsistent vs
      → IsSettled vs
      → length us ≡ length vs
  settled-steps (stop vs) c s = refl
  settled-steps (step (stays before after p) rest) c s =
      settled-steps rest (IsConsistent-Perm before after p c) (IsSettled-Perm before after p s)
      ∙ length-Perm p
  settled-steps (step (adds before after new lacks hashed at read p) rest) c s =
      absurd (settled_complete before c s lacks)

  pub bounded-steps :
      {vs us : List StringMap} → MachineSteps vs us → IsConsistent vs → length us ≤ suc (length vs)
  bounded-steps (stop vs) c = omega arith
  bounded-steps (step (stays before after p) rest) c =
      let below = bounded-steps rest (IsConsistent-Perm before after p c) in
      omega (arith, length-Perm p, below)
  bounded-steps (step (adds before after new lacks hashed at read p) rest) c =
      let consistent = IsConsistent-step (adds before after new lacks hashed at read p) c in
      let settled : IsSettled after = (
        new,
        (Perm.mem_iff p).1 mem-cons_self,
        subst (λ g. generation ≤ℤ g) (sym at) (omega arith),
      ) in
      let same = settled-steps rest consistent settled in omega (arith, length-Perm p, same)
