-- ===== src/Informers/Sync/Reports.antt =====
-- How the answer of `WaitForCacheSyncWithContext` of factory.go hangs together with `HasSynced` of the
-- informers, and when it carries an error.
use mathlib.Core.Bool.{false≢true}
use mathlib.Core.List.{Memᴰ}
use reactivejob_operator.Prelude.{
  List, String, ◌≡◌, ◌≢◌, refl, ap, sym, ◌∙◌, subst, Bool, true, false, ◌&&◌, not, Option, none,
  some, [], ◌∷◌, map, str_eq, eq_iff, if◌then◌else◌, arith, Bool-cases, inl, inr, ◌⊎◌,
}
use reactivejob_operator.Informers.Registry.{
  Registry, find, put, is_some, or_false, IsMap, find-put,
}
use reactivejob_operator.Informers.Factory.{
  Cache, Factory, is_started, started_entries, poll, wait_for_cache_sync_with_context,
}
use reactivejob_operator.Informers.Lifecycle.Starts.{Visits}
use reactivejob_operator.Informers.Sync.{started_entries-IsMap, wait_for_cache_sync-answer}

module _ (cache : Cache) where
  -- The second world comes after the first while informers are asked whether they have synced.
  pub data After : cache.World → cache.World → Type 0 where
    at_once : (w : cache.World) → After w w
    after_asking :
        (i : cache.Informer) {w v : cache.World} → After (cache.has_synced i w).1 v → After w v

  -- `cache.WaitFor` returns when all informers have synced or when the context is done; an informer that
  -- has synced stays so, and the cause of a context that is done is an error from then on.
  abbrev pub WaitsFor : Type 0
  WaitsFor =
      (ctx : cache.Context) (informers : List cache.Informer) (w : cache.World)
      → ((v : cache.World)
          → After (cache.wait_for ctx informers w) v
          → is_some (cache.cause ctx v) ≡ true)
        ⊎ ((i : cache.Informer) (v : cache.World)
            → Memᴰ i informers
            → After (cache.wait_for ctx informers w) v
            → (cache.has_synced i v).0 ≡ true)

  -- What is reported of a type: nothing of a type without an informer in the map, and else what its
  -- informer said when it was asked.
  abbrev Reported :
      Registry cache.Informer → cache.World → Option Bool → Option Bool → String → Type 0
  Reported es w before reported t =
      ((find t es ≡ none) × (reported ≡ before))
      ⊎ ((i : cache.Informer) × (v : cache.World) × (find t es ≡ some i)
          × After w v
          × (reported ≡ some (cache.has_synced i v).0))

  poll-Reported :
      (t : String) (es : Registry cache.Informer) (m : Registry Bool) (failed : Bool)
      (w : cache.World)
      → IsMap es
      → Reported es w (find t m) (find t (poll cache es m failed w).0) t
  unfolding poll find
  poll-Reported t [] m failed w distinct = inl (refl, refl)
  poll-Reported t ((r, i) ∷ es) m failed w (fresh, distinct) =
      let b = (cache.has_synced i w).0 in
      let w' = (cache.has_synced i w).1 in
      let reported = find t (poll cache es (put r b m) (if not b then true else failed) w').0 in
      elim (poll-Reported t es (put r b m) (if not b then true else failed) w' distinct) [
        | inl (absent, said) ↦ elim (Bool-cases (str_eq r t)) [
          | inl same ↦
              rw same (inr (i, w, refl, at_once w, said ∙ find-put t r b m ∙ ground (arith, same)))
          | inr other ↦ rw other (inl (absent, said ∙ find-put t r b m ∙ ground (arith, other)))
        ]
        | inr (j, v, found, after, said) ↦ elim (Bool-cases (str_eq r t)) [
          | inl same ↦
              absurd
                (absent-found (subst (λ r. find r es ≡ none) ((eq_iff r t).0 same) fresh) found)
          | inr other ↦ rw other (inr (j, v, found, after_asking i after, said))
        ]
      ]
    where
      absent-found : {o : Option cache.Informer} {j : cache.Informer} → o ≡ none → o ≡ some j → ⊥
      absent-found e e' = false≢true (sym (ap is_some e) ∙ ap is_some e')

  poll-After :
      (es : Registry cache.Informer) (m : Registry Bool) (failed : Bool) (w : cache.World)
      → After w (poll cache es m failed w).1.1
  unfolding poll
  poll-After [] m failed w = at_once w
  poll-After ((r, i) ∷ es) m failed w =
      let (b, w') = cache.has_synced i w in
      after_asking i (poll-After es (put r b m) (if not b then true else failed) w')

  started_entries-finds :
      (f : Factory cache) (t : String) (es : Registry cache.Informer)
      → find t (started_entries cache f es) ≡ (if is_started cache f t then find t es else none)
  unfolding started_entries find
  started_entries-finds f t [] = ground arith
  started_entries-finds f t ((r, i) ∷ es) = ground (arith, started_entries-finds f t es, eq_iff r t)

  find-Memᴰ :
      (t : String) (i : cache.Informer) (es : Registry cache.Informer)
      → find t es ≡ some i
      → Memᴰ i (map (λ entry. entry.1) es)
  unfolding find
  find-Memᴰ t i [] e = ground arith
  find-Memᴰ t i ((r, j) ∷ es) e = elim (Bool-cases (str_eq r t)) [
    | inl same ↦ Memᴰ.head (ground (arith, same, e))
    | inr other ↦ Memᴰ.tail (find-Memᴰ t i es (ground (arith, other, e)))
  ]

  -- The informers that are waited for, and what is said of a type: nothing where it was not started or
  -- has no informer, and else whether its informer, one of those waited for, said that it has synced
  -- when it was asked after the wait.
  abbrev pub IsReport :
      cache.Context
      → Factory cache
      → cache.World
      → List cache.Informer
      → Registry Bool
      → String
      → Type 0
  IsReport ctx f w informers synced t =
      (((is_started cache f t && is_some (find t f.informers)) ≡ false) × (find t synced ≡ none))
      ⊎ ((i : cache.Informer) × (v : cache.World) × (is_started cache f t ≡ true)
          × (find t f.informers ≡ some i)
          × Memᴰ i informers
          × After (cache.wait_for ctx informers w) v
          × (find t synced ≡ some (cache.has_synced i v).0))

  nothing :
      (on : Bool) (o : Option cache.Informer)
      → (if on then o else none) ≡ none
      → (on && is_some o) ≡ false
  nothing on o e = ground arith

  something :
      (on : Bool) (o : Option cache.Informer) (i : cache.Informer)
      → (if on then o else none) ≡ some i
      → (on ≡ true) × (o ≡ some i)
  something on o i e = ground arith

  -- If an informer that was waited for has not synced, then the context is done.
  done :
      (ctx : cache.Context) (f : Factory cache) (w : cache.World) (informers : List cache.Informer)
      (synced : Registry Bool) (t : String)
      → ((v : cache.World)
          → After (cache.wait_for ctx informers w) v
          → is_some (cache.cause ctx v) ≡ true)
        ⊎ ((i : cache.Informer) (v : cache.World)
            → Memᴰ i informers
            → After (cache.wait_for ctx informers w) v
            → (cache.has_synced i v).0 ≡ true)
      → (w' : cache.World) → After (cache.wait_for ctx informers w) w'
      → IsReport ctx f w informers synced t
      → find t synced ≡ some false
      → is_some (cache.cause ctx w') ≡ true
  done ctx f w informers synced t (inl over) w' after report bad = over w' after
  done ctx f w informers synced t (inr all) w' after (inl (_, silent)) bad =
      absurd (false≢true (ap is_some (sym silent ∙ bad)))
  done ctx f w informers synced t (inr all) w' after (inr (i, v, _, _, m, later, said)) bad =
      absurd (false≢true (ap or_false (sym bad ∙ said ∙ ap some (all i v m later))))

  -- For a map of informers with each key once, ranges that visit its keys with their values, each once,
  -- and a `cache.WaitFor` that returns when all informers it is given have synced, for good, or when the
  -- context is done: the answer reports of every started type that has an informer, and of no other,
  -- what `HasSynced` of the informer gave when it was asked after the wait for it; and it carries the
  -- cause of the context's end, which is an error, if some type is reported as not synced, and no error
  -- otherwise.
  pub wait_for_cache_sync-IsReport :
      (visits : Visits cache)
      → ((w : cache.World) (m : Registry cache.Informer) → IsMap m → IsMap (cache.order w m))
      → WaitsFor
      → (ctx : cache.Context) (f : Factory cache) (w : cache.World) → IsMap f.informers
      → let answer = wait_for_cache_sync_with_context cache ctx (f, w) in
        ((informers : List cache.Informer) × ((t : String)
            → IsReport ctx f w informers answer.0.synced t))
        × ((((t : String) × (find t answer.0.synced ≡ some false))
              × (answer.0.failure ≡ cache.cause ctx answer.1)
              × (is_some answer.0.failure ≡ true))
            ⊎ (((t : String) → find t answer.0.synced ≢ some false) × (answer.0.failure ≡ none)))
  unfolding wait_for_cache_sync_with_context
  wait_for_cache_sync-IsReport visits distinct waits ctx f w h =
      let es = started_entries cache f (cache.order w f.informers) in
      let informers = map (λ entry. entry.1) (cache.order w es) in
      let waited = cache.wait_for ctx informers w in
      let polled = poll cache (cache.order waited es) [] false waited in
      let once : IsMap (cache.order waited es) =
        distinct waited es
          (started_entries-IsMap cache f (cache.order w f.informers) (distinct w f.informers h)) in
      let finds : (t : String)
          → find t es ≡ (if is_started cache f t then find t f.informers else none) =
        λ t.
          started_entries-finds f t (cache.order w f.informers)
          ∙ ap (λ o. if is_started cache f t then o else none) (visits w f.informers t) in
      let report : (t : String) → IsReport ctx f w informers polled.0 t = λ t.
        elim (poll-Reported t (cache.order waited es) [] false waited once) [
          | inl (absent, said) ↦ inl (
            nothing (is_started cache f t) (find t f.informers)
                (sym (finds t) ∙ sym (visits waited es t) ∙ absent),
            said ∙ unfold find in refl,
          )
          | inr (i, v, found, after, said) ↦
              let found' = sym (visits waited es t) ∙ found in
              let (on, has) =
                something (is_started cache f t) (find t f.informers) i (sym (finds t) ∙ found') in
              inr (
                i,
                v,
                on,
                has,
                find-Memᴰ t i (cache.order w es) (visits w es t ∙ found'),
                after,
                said,
              )
        ] in
      (
        (informers, report),
        elim (wait_for_cache_sync-answer cache visits distinct ctx f w h).1 [
          | inl ((t, bad), e) ↦ inl (
            (t, bad),
            e,
            ap is_some e
                ∙ done ctx f w informers polled.0 t (waits ctx informers w) polled.1.1
                    (poll-After (cache.order waited es) [] false waited) (report t) bad,
          )
          | inr fine ↦ inr fine
        ],
      )
