-- ===== src/Informers/Sync.antt =====
-- What `WaitForCacheSyncWithContext` reports.
pub mod Reports
use mathlib.Core.Bool.{false≢true}
use reactivejob_operator.Prelude.{
  String, ◌≡◌, ◌≢◌, refl, ap, ◌∙◌, Bool, true, false, ◌||◌, ◌&&◌, not, none, some, [], ◌∷◌, map,
  eq_iff, eq_refl, if◌then◌else◌, arith, Bool-cases, inl, inr, ◌⊎◌,
}
use reactivejob_operator.Informers.Registry.{Registry, find, put, is_some, IsMap, find-put}
use reactivejob_operator.Informers.Factory.{
  Cache, Factory, is_started, started_entries, poll, wait_for_cache_sync_with_context,
}
use reactivejob_operator.Informers.Lifecycle.Starts.{Visits}

module _ (cache : Cache) where
  started_entries-find :
      (f : Factory cache) (t : String) (es : Registry cache.Informer)
      → is_some (find t (started_entries cache f es))
        ≡ (is_started cache f t && is_some (find t es))
  unfolding started_entries find
  started_entries-find f t [] = ground arith
  started_entries-find f t ((r, i) ∷ es) = ground (arith, started_entries-find f t es, eq_iff r t)

  -- The keys of the answer, and whether any of it is false.
  poll-keys :
      (t : String) (es : Registry cache.Informer) (m : Registry Bool) (failed : Bool)
      (w : cache.World)
      → is_some (find t (poll cache es m failed w).0) ≡ (is_some (find t m) || is_some (find t es))
  unfolding poll find
  poll-keys t [] m failed w = ground arith
  poll-keys t ((r, i) ∷ es) m failed w =
      let (b, w') = cache.has_synced i w in
      ground
        (arith, poll-keys t es (put r b m) (if not b then true else failed) w', find-put t r b m)

  poll-fine :
      (t : String) (es : Registry cache.Informer) (m : Registry Bool) (failed : Bool)
      (w : cache.World)
      → (failed ≡ false → find t m ≢ some false)
      → (poll cache es m failed w).1.0 ≡ false
      → find t (poll cache es m failed w).0 ≢ some false
  unfolding poll
  poll-fine t [] m failed w h done = h done
  poll-fine t ((r, i) ∷ es) m failed w h done =
      let (b, w') = cache.has_synced i w in
      poll-fine t es (put r b m) (if not b then true else failed) w'
        (λ e found. ground (arith, h, find-put t r b m)) done

  poll-skips :
      (t : String) (es : Registry cache.Informer) (m : Registry Bool) (failed : Bool)
      (w : cache.World)
      → find t es ≡ none
      → find t (poll cache es m failed w).0 ≡ find t m
  unfolding poll find
  poll-skips t [] m failed w h = refl
  poll-skips t ((r, i) ∷ es) m failed w h =
      let (b, w') = cache.has_synced i w in
      ground
        (arith, poll-skips t es (put r b m) (if not b then true else failed) w', find-put t r b m)

  -- What the loop keeps: if a turn failed, then some type that is not visited again has not synced.
  Blamed : Registry cache.Informer → Registry Bool → Bool → Type 0
  Blamed es m failed = failed ≡ true → (t : String) × (find t m ≡ some false) × (find t es ≡ none)

  poll-Blamed :
      (r : String) (i : cache.Informer) (es : Registry cache.Informer) (m : Registry Bool)
      (failed b : Bool)
      → find r es ≡ none
      → Blamed ((r, i) ∷ es) m failed
      → Blamed es (put r b m) (if not b then true else failed)
  unfolding Blamed find
  poll-Blamed r i es m failed false fresh h done =
      (r, find-put r r false m ∙ ground (arith, eq_refl r), fresh)
  poll-Blamed r i es m failed true fresh h done =
      let (t, e, ne) = h done in (t, ground (arith, find-put t r true m), ground arith)

  poll-failed :
      (es : Registry cache.Informer) (m : Registry Bool) (failed : Bool) (w : cache.World)
      → IsMap es
      → Blamed es m failed
      → (poll cache es m failed w).1.0 ≡ true
      → (t : String) × (find t (poll cache es m failed w).0 ≡ some false)
  unfolding poll Blamed
  poll-failed [] m failed w distinct h done = let (t, e, _) = h done in (t, e)
  poll-failed ((r, i) ∷ es) m failed w distinct h done =
      let (b, w') = cache.has_synced i w in
      poll-failed es (put r b m) (if not b then true else failed) w' distinct.1
        (poll-Blamed r i es m failed b distinct.0 h) done

  pub started_entries-IsMap :
      (f : Factory cache) (es : Registry cache.Informer)
      → IsMap es
      → IsMap (started_entries cache f es)
  unfolding started_entries
  started_entries-IsMap f [] h = tt
  started_entries-IsMap f ((t, i) ∷ es) h = elim (Bool-cases (is_started cache f t)) [
    | inl on ↦
        rw on (ground (arith, started_entries-find f t es, h.0), started_entries-IsMap f es h.1)
    | inr off ↦ rw off (started_entries-IsMap f es h.1)
  ]

  -- For a map of informers with each key once, and ranges that visit its keys with their values, each
  -- once: the answer names exactly the started types that have an informer, and it carries the cause of
  -- the context's end if one of them is reported as not synced, and no error otherwise.
  pub wait_for_cache_sync-answer :
      (visits : Visits cache)
      → ((w : cache.World) (m : Registry cache.Informer) → IsMap m → IsMap (cache.order w m))
      → (ctx : cache.Context) (f : Factory cache) (w : cache.World) → IsMap f.informers
      → let answer = wait_for_cache_sync_with_context cache ctx (f, w) in
        ((t : String)
          → is_some (find t answer.0.synced)
            ≡ (is_started cache f t && is_some (find t f.informers)))
        × ((((t : String) × (find t answer.0.synced ≡ some false))
              × (answer.0.failure ≡ cache.cause ctx answer.1))
            ⊎ (((t : String) → find t answer.0.synced ≢ some false) × (answer.0.failure ≡ none)))
  unfolding wait_for_cache_sync_with_context find
  wait_for_cache_sync-answer visits distinct ctx f w h =
      let es = started_entries cache f (cache.order w f.informers) in
      let waited = cache.wait_for ctx (map (λ entry. entry.1) (cache.order w es)) w in
      let polled = poll cache (cache.order waited es) [] false waited in
      (
        λ t.
            poll-keys t (cache.order waited es) [] false waited
            ∙ ap is_some (visits waited es t)
            ∙ started_entries-find f t (cache.order w f.informers)
            ∙ ap (λ o. is_started cache f t && is_some o) (visits w f.informers t),
        elim (Bool-cases polled.1.0) [
          | inl bad ↦ inl (
            poll-failed (cache.order waited es) [] false waited
                (distinct waited es
                  (started_entries-IsMap f (cache.order w f.informers) (distinct w f.informers h)))
                (unfold Blamed in λ e. absurd (false≢true e)) bad,
            ap (λ b. if b then cache.cause ctx polled.1.1 else none) bad,
          )
          | inr good ↦ inr (
            λ t. poll-fine t (cache.order waited es) [] false waited (λ e p. cc p) good,
            ap (λ b. if b then cache.cause ctx polled.1.1 else none) good,
          )
        ],
      )
