-- ===== src/Controller/Life/Lifetime.antt =====
-- The life of a ReactiveJob through changes of its template, each of which lasts for some runs.
use mathlib.Core.List.{Mem, Perm, mem-cons, mem-cons_self, not-mem-nil}
use mathlib.Core.List.Perm
use mathlib.Core.Logic.Or
use reactivejob_operator.Prelude.{
  ℕ, suc, String, ◌≡◌, ◌≢◌, refl, ap, sym, ◌∙◌, subst, true, List, [], ◌∷◌, map, arith,
}
use reactivejob_operator.Prelude.Int.{ℤ, ◌≤ℤ◌}
use reactivejob_operator.Strconv.RoundTrip.{InRange}
use reactivejob_operator.Api.Meta.{NamespacedName, is_zero}
use reactivejob_operator.Api.Types.{Job, ReactiveJob}
use reactivejob_operator.Kube.Server.{Server, History, update}
use reactivejob_operator.Kube.Library.{Library, IsLibrary, Outcome, ok}
use reactivejob_operator.Controller.Hash.{json_hash}
use reactivejob_operator.Controller.Newest.{is_number, number_of}
use reactivejob_operator.Controller.Life.{
  Known, known, known_hash, known_generation, Stores, IsSame, IsServed, IsOld, Rounds,
}
use reactivejob_operator.Controller.Life.Lasting.{Rounds-unserved, Rounds-Served}

-- What a user wants at a time, and the hash of its template.
abbrev pub Version : Type 0 → Type 0
Version E = ReactiveJob E × String

-- The hash and the generation that a job for a version records, and those that a job does.
abbrev pub wanted_stamp : {E : Type 0} → Version E → String × Outcome ℤ
wanted_stamp (original, hash) = (hash, ok original.meta.generation)

abbrev pub stamp : Known → String × Outcome ℤ
stamp v = (known_hash v, known_generation v)

-- Not being deleted, with a generation that is an int64, and with the hash of its template.
abbrev pub IsVersion : {E : Type 0} → Library E → Version E → Type 0
IsVersion lib (original, hash) =
    InRange original.meta.generation
    × (is_zero original.meta.deletion_timestamp ≡ true)
    × (json_hash lib original.spec.job_template ≡ ok hash)

below_trans : (a b c : ℤ) → ¬ (b ≤ℤ a) → ¬ (c ≤ℤ b) → ¬ (c ≤ℤ a)
below_trans a b c h k = omega (arith, h, k)

module _ {E : Type 0} (server : Server E) (lib : Library E) (request : NamespacedName)
    (object : History E → ReactiveJob E) (jobs : History E → List (Job E)) where
  -- A ReactiveJob is created without jobs, and its template is changed some times; after the creation
  -- and after each change there are three runs or more, with calls of others between.
  pub data Lived : ReactiveJob E → String → List (Version E) → History E → Type 0 where
    created :
        {n : ℕ} {h h' : History E} (original : ReactiveJob E) (hash : String)
        → IsVersion lib (original, hash)
        → IsSame object original h
        → Perm (map known (jobs h)) []
        → Rounds server lib request (suc (suc (suc n))) h h'
        → Lived original hash [] h'
    changed :
        {n : ℕ} {h h' : History E} (before : ReactiveJob E) (hash_before : String)
        (past : List (Version E)) (original : ReactiveJob E) (hash : String)
        (change : ReactiveJob E)
        → Lived before hash_before past h
        → IsVersion lib (original, hash)
        → ¬ (original.meta.generation ≤ℤ before.meta.generation)
        → hash_before ≢ hash
        → IsSame object original (update change ∷ h)
        → Rounds server lib request (suc (suc (suc n))) (update change ∷ h) h'
        → Lived original hash ((before, hash_before) ∷ past) h'

-- All of them were made for earlier generations.
abbrev AreBelow : ℤ → List Known → Type 0
AreBelow generation others =
    (v : Known)
    → Mem v others
    → (is_number (known_generation v) ≡ true) × ¬ (generation ≤ℤ number_of (known_generation v))

IsOld-prop :
    (generation : ℤ) (hash : String) (others : List Known) (v : Known)
    → IsProp (IsOld generation hash others v)
IsOld-prop generation hash others v = hlevel

-- The jobs so far are old for a change of the template.
changed-IsOld :
    (generation generation' : ℤ) (hash hash' : String) (only : Known) (others : List Known)
    → AreBelow generation others
    → known_generation only ≡ ok generation
    → known_hash only ≡ hash
    → ¬ (generation' ≤ℤ generation)
    → hash ≢ hash'
    → (v : Known) → Mem v (only ∷ others)
    → IsOld generation' hash' (only ∷ others) v
changed-IsOld generation generation' hash hash' only others below numbered hashed later differs v
      m =
    Or.elim (IsOld-prop generation' hash' (only ∷ others) v) (mem-cons.0 m)
      (λ e. subst (IsOld generation' hash' (only ∷ others)) (sym e) (
        ap is_number numbered,
        (λ above. later (subst (λ k. generation' ≤ℤ k) (ap number_of numbered) above)),
        λ latest same. differs (sym hashed ∙ same),
      ))
      (λ m'.
        let (readable, less) = below v m' in
        (
          readable,
          below_trans (number_of (known_generation v)) generation generation' less later,
          λ latest same. less (
              subst (λ k. k ≤ℤ number_of (known_generation v)) (ap number_of numbered)
                (latest only mem-cons_self)),
        ))

module _ {E : Type 0} (server : Server E) (lib : Library E) (laws : IsLibrary lib)
    (request : NamespacedName) (object : History E → ReactiveJob E)
    (jobs : History E → List (Job E)) (stores : Stores server request object jobs) where
  -- There is one job for each version, in their order, and the last one is served.
  abbrev Settled : ReactiveJob E → String → List (Version E) → History E → Type 0
  Settled original hash past h =
      (only : Known) × (others : List Known) × (map stamp (only ∷ others)
        ≡ map wanted_stamp ((original, hash) ∷ past))
      × ((v : Known) → Mem v others → IsOld original.meta.generation hash others v)
      × IsServed server lib request object jobs original hash others h only

  stamps :
      (original : ReactiveJob E) (hash : String) (past : List (Version E)) (only : Known)
      (others : List Known)
      → known_hash only ≡ hash
      → known_generation only ≡ ok original.meta.generation
      → map stamp others ≡ map wanted_stamp past
      → map stamp (only ∷ others) ≡ map wanted_stamp ((original, hash) ∷ past)
  stamps original hash past only others hashed numbered same = cc (hashed, numbered, same)

  created-Settled :
      {n : ℕ} {h h' : History E} (original : ReactiveJob E) (hash : String)
      → IsVersion lib (original, hash)
      → IsSame object original h
      → Perm (map known (jobs h)) []
      → Rounds server lib request (suc (suc (suc n))) h h'
      → Settled original hash [] h'
  created-Settled original hash (fits, alive, hashed) same none_yet rounds =
      let (only, served) =
        Rounds-unserved server lib laws request object jobs stores original hash []
          (λ v m. absurd (not-mem-nil m)) fits alive hashed rounds same none_yet in
      let prepared = served.prepared in
      (
        only,
        [],
        stamps original hash [] only [] prepared.hashed prepared.numbered refl,
        (λ v m. absurd (not-mem-nil m)),
        served,
      )

  changed-Settled :
      {n : ℕ} {h h' : History E} (before : ReactiveJob E) (hash_before : String)
      (past : List (Version E)) (original : ReactiveJob E) (hash : String) (change : ReactiveJob E)
      → Settled before hash_before past h
      → IsVersion lib (original, hash)
      → ¬ (original.meta.generation ≤ℤ before.meta.generation)
      → hash_before ≢ hash
      → IsSame object original (update change ∷ h)
      → Rounds server lib request (suc (suc (suc n))) (update change ∷ h) h'
      → Settled original hash ((before, hash_before) ∷ past) h'
  changed-Settled {h = h} before hash_before past original hash change
        (last, others, same_stamps, olds, served) (fits, alive, hashed) later differs same rounds =
      let known_last = served.prepared in
      let old =
        changed-IsOld before.meta.generation original.meta.generation hash_before hash last others
          (λ v m. let (readable, less, _) = olds v m in (readable, less)) known_last.numbered
          known_last.hashed later differs in
      let (only, served') =
        Rounds-unserved server lib laws request object jobs stores original hash (last ∷ others) old
          fits alive hashed rounds same
          (Perm.trans (stores.kept h (update change) tt) known_last.one_more) in
      let prepared = served'.prepared in
      (
        only,
        last ∷ others,
        stamps original hash ((before, hash_before) ∷ past) only (last ∷ others) prepared.hashed
            prepared.numbered same_stamps,
        old,
        served',
      )

  Lived-IsVersion :
      {original : ReactiveJob E} {hash : String} {past : List (Version E)} {h : History E}
      → Lived server lib request object jobs original hash past h
      → IsVersion lib (original, hash)
  Lived-IsVersion (created original hash valid same none_yet rounds) = valid
  Lived-IsVersion
        (changed before hash_before past original hash change lived valid later differs same
          rounds) =
      valid

  Lived-Settled :
      {original : ReactiveJob E} {hash : String} {past : List (Version E)} {h : History E}
      → Lived server lib request object jobs original hash past h
      → Settled original hash past h
  Lived-Settled (created original hash valid same none_yet rounds) =
      created-Settled original hash valid same none_yet rounds
  Lived-Settled
        (changed before hash_before past original hash change lived valid later differs same
          rounds) =
      changed-Settled before hash_before past original hash change (Lived-Settled lived) valid later
        differs same rounds

  -- Let a ReactiveJob be created without jobs, at a server that stores what it is sent, and let its
  -- template be changed any number of times, each time to a later generation and to another hash than the
  -- version before has, which may be that of an earlier version. Let it not be deleted, let the generations be
  -- int64s, and let three runs or more follow the creation and each change, with any calls of others
  -- between them that neither write to the ReactiveJob nor create or delete jobs. Then after any further
  -- runs its jobs are one for each version, which record the hashes and the generations of the versions in
  -- their order, and no others. The ReactiveJob has the operator's finalizer; its status names the job of
  -- the last version, observes its generation and has the state that the job's conditions gave when
  -- the last run listed it; and that run has left the operator's finalizer on no other job.
  pub Lived-IsServed :
      {original : ReactiveJob E} {hash : String} {past : List (Version E)} {h : History E}
      → Lived server lib request object jobs original hash past h
      → (only : Known) × (others : List Known) × (map stamp (only ∷ others)
          ≡ map wanted_stamp ((original, hash) ∷ past))
        × ((n : ℕ) (h' : History E)
            → Rounds server lib request n h h'
            → IsServed server lib request object jobs original hash others h' only)
  Lived-IsServed {original} {hash} lived =
      let (only, others, same, olds, served) = Lived-Settled lived in
      let (fits, alive, hashed) = Lived-IsVersion lived in
      (
        only,
        others,
        same,
        λ n h' rounds.
            Rounds-Served server lib laws request object jobs stores original hash others olds fits
              alive hashed only rounds served,
      )
