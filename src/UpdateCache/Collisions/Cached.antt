-- ===== src/UpdateCache/Collisions/Cached.antt =====
-- What the loop of `detectCaseCollisions` over the staged rows reports.
use mathlib.Core.Path.{subst}
use mathlib.Core.Option.{some-ne-none}
use sync.Prelude.{
  String, true, false, not, ◌&&◌, ◌||◌, none, some, List, [], ◌∷◌, ◌++◌, map, ◌≡◌, refl, sym, ap,
  ◌∙◌, ◌==◌, contains, string_eq, inl, inr, Bool-cases, arith, if◌then◌else◌,
}
use sync.Prelude.Table
use sync.Prelude.Table.{key-find}
use sync.Sync.Rows.{CacheEntryRow, get_cache}
use sync.UpdateCache.{is_deleted}
use sync.UpdateCache.Collisions.{
  CaseCollision, collision_path, is_live, is_some, collide, find_by_normalized_path, live_hit,
  cache_collisions,
}
use sync.UpdateCache.Collisions.Batch.{
  reports, reports-append, live_at, collide-reports, collide-other,
}
use sync.UpdateCache.Distinct.{IsDistinct}

module _ (collision_key : String → String) where
  -- A row that the query gives: it is live, of the key, and not the path's own.
  abbrev IsHit : String → String → List CacheEntryRow → CacheEntryRow → Type 0
  IsHit key p rows hit =
      (find_by_normalized_path collision_key key p rows ≡ some hit)
      × (get_cache hit.path rows ≡ some hit)
      × (is_live hit ≡ true)
      × (collision_key hit.path ≡ key)

  IsHit-behind :
      (key p : String) (hit x : CacheEntryRow) (rows : List CacheEntryRow)
      → get_cache x.path rows ≡ none
      → ((collision_key x.path == key) && not (x.path == p) && is_live x) ≡ false
      → IsHit key p rows hit
      → IsHit key p (x ∷ rows) hit
  unfolding find_by_normalized_path Table.find
  IsHit-behind key p hit x rows first there (found, at, live, k) =
      (rw there found, ground (arith, first), live, k)

  pub hits :
      (key p q : String) (b : CacheEntryRow) (rows : List CacheEntryRow)
      → IsDistinct rows
      → get_cache q rows ≡ some b
      → is_live b ≡ true
      → collision_key b.path ≡ key
      → (b.path == p) ≡ false
      → (hit : CacheEntryRow) × IsHit key p rows hit
  unfolding find_by_normalized_path Table.find
  hits key p q b [] distinct is_b live k other = absurd (some-ne-none b (sym is_b))
  hits key p q b (x ∷ rows) (first, distinct) is_b live k other =
      elim (Bool-cases ((collision_key x.path == key) && not (x.path == p) && is_live x)) [
        | inl here ↦ (x, (rw here refl, ground arith, ground arith, ground arith))
        | inr there ↦
            let rest = hits key p q b rows distinct (ground arith) live k other in
            (rest.0, IsHit-behind key p rest.0 x rows first there rest.1)
      ]

  -- What a turn of the loop over the staged rows adds.
  abbrev pub added :
      CacheEntryRow
      → List CacheEntryRow
      → List CacheEntryRow
      → List CaseCollision
      → List CaseCollision
  added x cache staged found =
      if is_deleted x.state || contains x.path (map collision_path found)
      then []
      else collide collision_key x.path (
          live_hit collision_key staged
            (find_by_normalized_path collision_key (collision_key x.path) x.path cache))

  added-here :
      (x : CacheEntryRow) (cache staged : List CacheEntryRow) (found : List CaseCollision)
      → is_live x ≡ true
      → is_some (
          live_hit collision_key staged
            (find_by_normalized_path collision_key (collision_key x.path) x.path cache))
        ≡ true
      → reports x.path (found ++ added x cache staged found) ≡ true
  added-here x cache staged found live hit =
      let alive : is_deleted x.state ≡ false = ground arith in
      reports-append x.path found (added x cache staged found)
      ∙ elim (Bool-cases (reports x.path found)) [
        | inl c ↦ rw c refl
        | inr c ↦ let here = collide-reports collision_key x.path _ hit in rw (c, alive, here) refl
      ]

  added-other :
      (p : String) (x : CacheEntryRow) (cache staged : List CacheEntryRow)
      (found : List CaseCollision)
      → ((x.path == p) && is_live x) ≡ false
      → reports p found ≡ false
      → reports p (found ++ added x cache staged found) ≡ false
  added-other p x cache staged found other h =
      reports-append p found (added x cache staged found)
      ∙ elim (Bool-cases (is_deleted x.state || reports x.path found)) [
        | inl c ↦ rw (h, c) refl
        | inr c ↦
            let none_here =
              collide-other collision_key p x.path
                (live_hit collision_key staged
                  (find_by_normalized_path collision_key (collision_key x.path) x.path cache))
                (ground arith) in
            rw (h, c, none_here) refl
      ]

  pub cache_collisions-Keeps :
      (p : String) (cache staged rows : List CacheEntryRow) (found : List CaseCollision)
      → reports p found ≡ true
      → reports p (cache_collisions collision_key cache staged rows found) ≡ true
  unfolding cache_collisions
  cache_collisions-Keeps p cache staged [] found h = h
  cache_collisions-Keeps p cache staged (x ∷ rows) found h =
      cache_collisions-Keeps p cache staged rows _ (reports-append p found _ ∙ rw h refl)

  -- A live staged row with a hit in cache.db is reported.
  pub cache_collisions-Covers :
      (p : String) (r : CacheEntryRow) (cache staged rows : List CacheEntryRow)
      (found : List CaseCollision)
      → get_cache p rows ≡ some r
      → is_live r ≡ true
      → is_some (
          live_hit collision_key staged
            (find_by_normalized_path collision_key (collision_key p) p cache))
        ≡ true
      → reports p (cache_collisions collision_key cache staged rows found) ≡ true
  unfolding cache_collisions Table.find
  cache_collisions-Covers p r cache staged [] found is_r live hit = cc
  cache_collisions-Covers p r cache staged (x ∷ rows) found is_r live hit =
      elim (Bool-cases (x.path == p)) [
        | inl same ↦
            let at : p ≡ x.path = ground arith in
            let is_x : x ≡ r = ground arith in
            cache_collisions-Keeps p cache staged rows _ (
              subst (λ y. reports y (found ++ added x cache staged found) ≡ true) (sym at)
                (added-here x cache staged found (ap is_live is_x ∙ live) (
                  subst
                    (λ y.
                      is_some (
                        live_hit collision_key staged
                          (find_by_normalized_path collision_key (collision_key y) y cache))
                      ≡ true)
                    at hit)))
        | inr other ↦ cache_collisions-Covers p r cache staged rows _ (ground arith) live hit
      ]

  pub cache_collisions-Live :
      (p : String) (cache staged rows : List CacheEntryRow) (found : List CaseCollision)
      → IsDistinct rows
      → live_at (get_cache p rows) ≡ false
      → reports p found ≡ false
      → reports p (cache_collisions collision_key cache staged rows found) ≡ false
  unfolding cache_collisions Table.find
  cache_collisions-Live p cache staged [] found distinct dead h = h
  cache_collisions-Live p cache staged (x ∷ rows) found (first, distinct) dead h =
      elim (Bool-cases (x.path == p)) [
        | inl same ↦
            let at : x.path ≡ p = ground arith in
            let gone : get_cache p rows ≡ none = subst (λ y. get_cache y rows ≡ none) at first in
            cache_collisions-Live p cache staged rows _ distinct (rw gone refl)
              (added-other p x cache staged found (ground arith) h)
        | inr other ↦
            cache_collisions-Live p cache staged rows _ distinct (ground arith)
              (added-other p x cache staged found (ground arith) h)
      ]
