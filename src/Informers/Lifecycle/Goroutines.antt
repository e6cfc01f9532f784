-- ===== src/Informers/Lifecycle/Goroutines.antt =====
-- The goroutines that the factory of pkg/client/informers/externalversions/factory.go starts with
-- `f.wg.Go`, and what they run.
use mathlib.Core.List.{Memᴰ}
use reactivejob_operator.Prelude.{
  ◌≤◌, String, ◌≡◌, refl, ap, some, [], ◌∷◌, str_eq, ◌++◌, List, length, Option, none, All,
  if◌then◌else◌, arith, Bool-cases, inl, inr,
}
use reactivejob_operator.Informers.Factory.{Cache, Goroutine}

module _ (cache : Cache) where
  -- The goroutines of a type.
  unfoldable pub goroutines_of : String → List (Goroutine cache) → List (Goroutine cache)
  goroutines_of t [] = []
  goroutines_of t (g ∷ gs) =
      let rest = goroutines_of t gs in if str_eq g.type t then g ∷ rest else rest

  -- The runs that goroutines make, the oldest of them first.
  unfoldable pub run_all : List (Goroutine cache) → cache.World → cache.World
  run_all [] w = w
  run_all (g ∷ gs) w = cache.go_run g.context g.informer (run_all gs w)

  -- The goroutine that a context gives the informer of a type, if the type has one.
  abbrev pub run_of : cache.Context → String → Option cache.Informer → List (Goroutine cache)
  run_of ctx t none = []
  run_of ctx t (some i) = record { type = t; context = ctx; informer = i } ∷ []

  pub goroutines_of-append :
      (t : String) (gs hs : List (Goroutine cache))
      → goroutines_of t (gs ++ hs) ≡ goroutines_of t gs ++ goroutines_of t hs
  unfolding goroutines_of
  goroutines_of-append t [] hs = refl
  goroutines_of-append t (g ∷ gs) hs = elim (Bool-cases (str_eq g.type t)) [
    | inl e ↦ rw e (ap (λ l. g ∷ l) (goroutines_of-append t gs hs))
    | inr e ↦ rw e (goroutines_of-append t gs hs)
  ]

  pub run_all-append :
      (gs hs : List (Goroutine cache)) (w : cache.World)
      → run_all (gs ++ hs) w ≡ run_all gs (run_all hs w)
  unfolding run_all
  run_all-append [] hs w = refl
  run_all-append (g ∷ gs) hs w = ap (cache.go_run g.context g.informer) (run_all-append gs hs w)

  -- Ending a goroutine leaves no type more of them.
  pub goroutines_of-ended :
      (t : String) (newer older : List (Goroutine cache)) (g : Goroutine cache)
      → length (goroutines_of t (newer ++ older)) ≤ length (goroutines_of t (newer ++ g ∷ older))
  unfolding goroutines_of
  goroutines_of-ended t [] older g = ground arith
  goroutines_of-ended t (n ∷ newer) older g = ground (arith, goroutines_of-ended t newer older g)

  -- All goroutines of the first list are in the second.
  abbrev pub IsAmong : List (Goroutine cache) → List (Goroutine cache) → Type 0
  IsAmong gs hs = All (λ g. Memᴰ g hs) gs

  pub IsAmong-refl : (gs : List (Goroutine cache)) → IsAmong gs gs
  IsAmong-refl gs = within gs (λ g m. m)
    where
      within :
          (gs : List (Goroutine cache)) {hs : List (Goroutine cache)}
          → ((g : Goroutine cache) → Memᴰ g gs → Memᴰ g hs)
          → IsAmong gs hs
      within [] h = tt
      within (g ∷ gs) h = (h g (Memᴰ.head refl), within gs (λ k m. h k (Memᴰ.tail m)))

  pub IsAmong-ended :
      (newer older hs : List (Goroutine cache)) (g : Goroutine cache)
      → IsAmong (newer ++ g ∷ older) hs
      → IsAmong (newer ++ older) hs
  IsAmong-ended [] older hs g (_, rest) = rest
  IsAmong-ended (n ∷ newer) older hs g (own, rest) = (own, IsAmong-ended newer older hs g rest)
