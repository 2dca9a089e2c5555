-- ===== src/UpdateCache/Collisions/Free.antt =====
-- No two live rows of cache.db have one collision key after a run.
use sync.Prelude.{
  String, Bool, true, false, not, Option, none, some, List, map, ◌≡◌, refl, sym, ap, ◌∙◌, ◌==◌,
  string_eq, inl, inr, Bool-cases, arith,
}
use sync.Prelude.Table
use sync.Prelude.Table.{key-find}
use sync.Errors.{ok}
use sync.Sync.Rows.{CacheEntryRow, cache_path, get_cache}
use sync.Sync.Soundness.Rows.{of_Returns}
use sync.Sync.MergeJoin.{Step}
use sync.Sync.MergeJoin.Laws.{IsOrder, SortedCache, SortedEntries}
use sync.UpdateCache.{WalkEntry, walk_path, Arguments, Scan, is_deleted}
use sync.UpdateCache.Collisions.{
  collision_path, is_live, is_deleted_in_batch, live_hit, detect_case_collisions,
}
use sync.UpdateCache.Collisions.Batch.{
  reports, live_at, batch_collisions-Covers, batch_collisions-Live,
}
use sync.UpdateCache.Distinct.{IsDistinct}
use sync.UpdateCache.Expected.{is_dropped}
use sync.UpdateCache.Reached.{settled, hashing, kept}
use sync.UpdateCache.Course.{IsOnCourse, coming, met}
use sync.UpdateCache.Run.{Event, apply_staged_rows, Updated, finish, perform_update_cache}
use sync.UpdateCache.Outcome.{over, find-apply_staged_rows, perform_update_cache-Returns}
use sync.UpdateCache.Collisions.Cached.{
  hits, cache_collisions-Keeps, cache_collisions-Covers, cache_collisions-Live,
}

module _ (collision_key : String → String) where
  -- No two live rows of different paths have one collision key.
  abbrev pub IsCollisionFree : List CacheEntryRow → Type 0
  IsCollisionFree rows =
      (p q : String) (r t : CacheEntryRow)
      → get_cache p rows ≡ some r
      → get_cache q rows ≡ some t
      → is_live r ≡ true
      → is_live t ≡ true
      → collision_key p ≡ collision_key q
      → p ≡ q

  module _ (staged cache : List CacheEntryRow) (distinct : IsDistinct staged) where
    abbrev reported : String → Bool
    reported p = reports p (detect_case_collisions collision_key staged cache)

    both_staged :
        (p q : String) (r t : CacheEntryRow)
        → get_cache p staged ≡ some r
        → get_cache q staged ≡ some t
        → is_live r ≡ true
        → is_live t ≡ true
        → collision_key p ≡ collision_key q
        → (p == q) ≡ false
        → reported p ≡ true
    unfolding detect_case_collisions
    both_staged p q r t is_r is_t live_r live_t key other =
        cache_collisions-Keeps collision_key p cache staged staged _ (
          batch_collisions-Covers collision_key p q r t staged distinct is_r is_t live_r live_t key
            other)

    -- A path whose staged row is deleted is not reported.
    reported-Live : (p : String) → live_at (get_cache p staged) ≡ false → reported p ≡ false
    unfolding detect_case_collisions
    reported-Live p dead =
        cache_collisions-Live collision_key p cache staged staged _ distinct dead
          (batch_collisions-Live collision_key p staged _ distinct dead)

    staged_over :
        (p q : String) (r b : CacheEntryRow)
        → IsDistinct cache
        → IsCollisionFree cache
        → get_cache p staged ≡ some r
        → is_live r ≡ true
        → get_cache q cache ≡ some b
        → is_live b ≡ true
        → is_deleted_in_batch collision_key q staged ≡ false
        → collision_key p ≡ collision_key q
        → (p == q) ≡ false
        → reported p ≡ true
    unfolding detect_case_collisions live_hit
    staged_over p q r b apart free is_r live_r is_b live_b kept_b key other =
        let at_q : b.path ≡ q = key-find cache_path q cache b is_b in
        let found =
          hits collision_key (collision_key p) p q b cache apart is_b live_b
            (ap collision_key at_q ∙ sym key) (ground (arith, at_q)) in
        let hit = found.0 in
        let same : hit.path ≡ q =
          free hit.path q hit b (found.1.1) is_b (found.1.2) live_b (found.1.3 ∙ key) in
        cache_collisions-Covers collision_key p r cache staged staged _ is_r live_r
          (rw (found.1.0, same, kept_b) refl)

    -- Where a row of cache.db comes from after a run.
    data Source (p : String) (r : CacheEntryRow) : Type 0 where
      staged_row : reported p ≡ false → get_cache p staged ≡ some r → Source p r
      old_row :
          get_cache p cache ≡ some r
          → is_deleted_in_batch collision_key p staged ≡ false
          → Source p r

    excluded_row :
        (p : String) → reported p ≡ true → is_deleted_in_batch collision_key p staged ≡ false
    unfolding is_deleted_in_batch
    excluded_row p out = go (get_cache p staged) refl
      where
        go :
            (o : Option CacheEntryRow)
            → get_cache p staged ≡ o
            → elim o [ none ↦ false | some d ↦ is_deleted d.state ] ≡ false
        go none at = refl
        go (some d) at = elim (Bool-cases (is_deleted d.state)) [
          | inl dead ↦
              let never = reported-Live p (ap live_at at ∙ ap not dead) in absurd (cc (never, out))
          | inr alive ↦ alive
        ]

    kept_row :
        (p : String) (r : CacheEntryRow) (o : Option CacheEntryRow)
        → reported p ≡ false
        → get_cache p staged ≡ o
        → over o (get_cache p cache) ≡ some r
        → Source p r
    unfolding is_deleted_in_batch
    kept_row p r none inside at h = old_row h (rw (is_deleted_in_batch, at) refl)
    kept_row p r (some d) inside at h = staged_row inside (at ∙ h)

    source_of :
        (p : String) (r : CacheEntryRow)
        → get_cache p (
            apply_staged_rows staged
              (map collision_path (detect_case_collisions collision_key staged cache))
              cache)
          ≡ some r
        → Source p r
    source_of p r h =
        let from =
          sym (
            find-apply_staged_rows p staged
              (map collision_path (detect_case_collisions collision_key staged cache)) cache
              distinct)
          ∙ h in
        elim (Bool-cases (reported p)) [
          | inl out ↦ old_row (rw out at from) (excluded_row p out)
          | inr inside ↦ kept_row p r (get_cache p staged) inside refl (rw inside at from)
        ]

    one_key :
        (p q : String) (r t : CacheEntryRow)
        → IsDistinct cache
        → IsCollisionFree cache
        → Source p r
        → Source q t
        → is_live r ≡ true
        → is_live t ≡ true
        → collision_key p ≡ collision_key q
        → (p == q) ≡ false
        → ⊥
    one_key p q r t apart free (staged_row inside at) (staged_row inside' at') live live' key
          other =
        let out = both_staged p q r t at at' live live' key other in absurd (cc (out, inside))
    one_key p q r t apart free (staged_row inside at) (old_row at' on) live live' key other =
        let out = staged_over p q r t apart free at live at' live' on key other in
        absurd (cc (out, inside))
    one_key p q r t apart free (old_row at on) (staged_row inside' at') live live' key other =
        let out =
          staged_over q p t r apart free at' live' at live on (sym key) (ground (arith, other)) in
        absurd (cc (out, inside'))
    one_key p q r t apart free (old_row at on) (old_row at' on') live live' key other =
        let same : p ≡ q = free p q r t at at' live live' key in absurd (ground (arith, same))

    pub apply_staged_rows-IsCollisionFree :
        IsDistinct cache
        → IsCollisionFree cache
        → IsCollisionFree (
            apply_staged_rows staged
              (map collision_path (detect_case_collisions collision_key staged cache))
              cache)
    apply_staged_rows-IsCollisionFree apart free p q r t at at' live live' key =
        elim (Bool-cases (p == q)) [
          | inl same ↦ ground arith
          | inr other ↦ absurd (
              one_key p q r t apart free (source_of p r at) (source_of q t at') live live' key
                other)
        ]

of_kept :
    (dropped : Bool) (before : Option CacheEntryRow) (r : CacheEntryRow)
    → kept dropped before ≡ some r
    → before ≡ some r
of_kept true before r h = cc
of_kept false before r h = h

-- A row of cache.db during a scan is the one from before it, unless it was dropped.
pub scanned_row :
    (c : Arguments) (before : String → Option CacheEntryRow) (entry : String → Option WalkEntry)
    (p : String) (steps : List (Step WalkEntry)) (s : Scan) (r : CacheEntryRow)
    → IsOnCourse c before entry p steps s
    → get_cache p s.cache ≡ some r
    → before p ≡ some r
scanned_row c before entry p steps s r (coming at h) found = sym h.2 ∙ found
scanned_row c before entry p steps s r (met x gone is_x (settled staged h w)) found =
    of_kept (is_dropped c x) (before p) r (sym h.2 ∙ found)
scanned_row c before entry p steps s r (met x gone is_x (hashing j h is_j w)) found =
    of_kept (is_dropped c x) (before p) r (sym h.2 ∙ found)

-- If no two live rows of cache.db have one collision key, then so it is after a run of
-- performUpdateCache that returns, under any schedule, whatever names the walk found. The two lists
-- are sorted by the order that the loop compares with.
pub update_cache-IsCollisionFree :
    (c : Arguments) (collision_key : String → String) (lt : String → String → Bool) (o : IsOrder lt)
    (cache : List CacheEntryRow) (walk : List WalkEntry) (schedule : List Event) (u : Updated)
    → SortedCache lt o cache
    → SortedEntries walk_path lt o walk
    → IsCollisionFree collision_key cache
    → perform_update_cache c collision_key lt cache walk schedule ≡ ok u
    → IsCollisionFree collision_key u.cache
unfolding finish
update_cache-IsCollisionFree c collision_key lt o cache walk schedule u sc se free ran =
    let before = λ (q : String). get_cache q cache in
    let entry = λ (q : String). Table.find walk_path q walk in
    of_Returns (λ (w : Updated). IsCollisionFree collision_key w.cache) _
      (perform_update_cache-Returns c collision_key lt o cache walk
        (λ (w : Updated). IsCollisionFree collision_key w.cache) schedule sc se
        λ l each distinct.
          apply_staged_rows-IsCollisionFree collision_key l.scan.staged l.scan.cache (distinct.0)
            (distinct.1)
            λ p q r t at at' live live' key.
              free p q r t (scanned_row c before entry p l.steps l.scan r (each p) at)
                (scanned_row c before entry q l.steps l.scan t (each q) at') live live' key)
      ran
