-- ===== src/UpdateCache/Collisions/Real.antt =====
-- Every collision that `detectCaseCollisions` reports is one.
use sync.Prelude.{
  String, Bool, true, false, not, ◌&&◌, ◌||◌, Option, none, some, List, [], ◌∷◌, ◌++◌, ◌≡◌, refl,
  sym, ap, ◌∙◌, ◌==◌, ◌⊎◌, string_eq, inl, inr, Bool-cases, arith, All,
}
use sync.Prelude.Table
use sync.Errors.{ok}
use sync.Sync.Rows.{CacheEntryRow, get_cache}
use sync.Sync.Soundness.Rows.{of_Returns}
use sync.Sync.MergeJoin.Laws.{IsOrder, SortedCache, SortedEntries}
use sync.UpdateCache.{WalkEntry, walk_path, Arguments, is_deleted}
use sync.UpdateCache.Collisions.{
  CaseCollision, is_live, find_other, collide, live_rows_for_normalized_path, group_collisions,
  batch_collisions, find_by_normalized_path, is_deleted_in_batch, live_hit, cache_collisions,
  detect_case_collisions,
}
use sync.UpdateCache.Collisions.Batch.{reports, live_at}
use sync.UpdateCache.Collisions.Cached.{added}
use sync.UpdateCache.Collisions.Free.{scanned_row}
use sync.UpdateCache.Distinct.{IsDistinct}
use sync.UpdateCache.Run.{Event, Updated, finish, perform_update_cache}
use sync.UpdateCache.Outcome.{perform_update_cache-Returns}

All-append : {A : Type 0} (P : A → Type 0) (xs ys : List A) → All P xs → All P ys → All P (xs ++ ys)
All-append P [] ys h k = k
All-append P (x ∷ xs) ys h k = (h.0, All-append P xs ys h.1 k)

-- Each row is the one that its path finds.
abbrev Own : List CacheEntryRow → CacheEntryRow → Type 0
Own rows r = get_cache r.path rows ≡ some r

Own-behind :
    (x : CacheEntryRow) (rows xs : List CacheEntryRow)
    → get_cache x.path rows ≡ none
    → All (Own rows) xs
    → All (Own (x ∷ rows)) xs
unfolding Table.find
Own-behind x rows [] first h = tt
Own-behind x rows (r ∷ xs) first (own, h) = (ground (arith, first), Own-behind x rows xs first h)

IsDistinct-Own : (rows : List CacheEntryRow) → IsDistinct rows → All (Own rows) rows
unfolding Table.find
IsDistinct-Own [] h = tt
IsDistinct-Own (x ∷ rows) (first, h) =
    (ground arith, Own-behind x rows rows first (IsDistinct-Own rows h))

module _ (collision_key : String → String) (staged cache : List CacheEntryRow) where
  -- A live row stands at the path: it is staged, or is in cache.db and no deletion of it is staged.
  abbrev pub IsTaken : String → Type 0
  IsTaken q =
      (live_at (get_cache q staged) ≡ true)
      ⊎ ((live_at (get_cache q cache) ≡ true)
          × (is_deleted_in_batch collision_key q staged ≡ false))

  -- A live staged row, with a live row of another path and the same collision key.
  abbrev pub IsCollision : CaseCollision → Type 0
  IsCollision x =
      (live_at (get_cache x.path staged) ≡ true)
      × ((x.path == x.collides_with) ≡ false)
      × (collision_key x.path ≡ collision_key x.collides_with)
      × IsTaken x.collides_with

  abbrev InGroup : String → CacheEntryRow → Type 0
  InGroup key r = (live_at (get_cache r.path staged) ≡ true) × (collision_key r.path ≡ key)

  live_rows-InGroup :
      (key : String) (rows : List CacheEntryRow)
      → All (Own staged) rows
      → All (InGroup key) (live_rows_for_normalized_path collision_key key rows)
  unfolding live_rows_for_normalized_path
  live_rows-InGroup key [] h = tt
  live_rows-InGroup key (x ∷ rows) (own, h) =
      elim (Bool-cases ((collision_key x.path == key) && is_live x)) [
        | inl y ↦ rw y ((ap live_at own ∙ ground arith, ground arith), live_rows-InGroup key rows h)
        | inr n ↦ rw n (live_rows-InGroup key rows h)
      ]

  collide-IsCollision :
      (key : String) (r : CacheEntryRow) (group : List CacheEntryRow)
      → InGroup key r
      → All (InGroup key) group
      → All IsCollision (collide collision_key r.path (find_other collision_key r.path group))
  unfolding find_other collide
  collide-IsCollision key r [] is_r h = tt
  collide-IsCollision key r (x ∷ group) is_r (is_x, h) = elim (Bool-cases (x.path == r.path)) [
    | inl same ↦ rw same (collide-IsCollision key r group is_r h)
    | inr other ↦ rw other ((is_r.0, ground (arith, other), is_r.1 ∙ sym is_x.1, inl is_x.0), tt)
  ]

  group-IsCollision :
      (key : String) (group rows : List CacheEntryRow)
      → All (InGroup key) group
      → All (InGroup key) rows
      → All IsCollision (group_collisions collision_key group rows)
  unfolding group_collisions
  group-IsCollision key group [] h k = tt
  group-IsCollision key group (r ∷ rows) h (is_r, k) =
      All-append IsCollision _ _ (collide-IsCollision key r group is_r h)
        (group-IsCollision key group rows h k)

  batch-IsCollision :
      (keys : List String)
      → All (Own staged) staged
      → All IsCollision (batch_collisions collision_key staged keys)
  unfolding batch_collisions
  batch-IsCollision [] own = tt
  batch-IsCollision (key ∷ keys) own =
      let group = live_rows-InGroup key staged own in
      All-append IsCollision _ _ (group-IsCollision key _ _ group group)
        (batch-IsCollision keys own)

  -- What the query gives is live in cache.db, under another path with the key.
  abbrev IsFound : String → String → Option CacheEntryRow → Type 0
  IsFound key p none = Unit
  IsFound key p (some hit) =
      (live_at (get_cache hit.path cache) ≡ true)
      × (collision_key hit.path ≡ key)
      × ((hit.path == p) ≡ false)

  query-IsFound :
      (key p : String) (rows : List CacheEntryRow)
      → All (Own cache) rows
      → IsFound key p (find_by_normalized_path collision_key key p rows)
  unfolding find_by_normalized_path
  query-IsFound key p [] own = tt
  query-IsFound key p (x ∷ rows) (own_x, own) =
      elim (Bool-cases ((collision_key x.path == key) && not (x.path == p) && is_live x)) [
        | inl y ↦ rw y (ap live_at own_x ∙ ground arith, ground arith, ground arith)
        | inr n ↦ rw n (query-IsFound key p rows own)
      ]

  hit-IsCollision :
      (p : String) (hit : Option CacheEntryRow)
      → live_at (get_cache p staged) ≡ true
      → IsFound (collision_key p) p hit
      → All IsCollision (collide collision_key p (live_hit collision_key staged hit))
  unfolding live_hit collide
  hit-IsCollision p none live found = tt
  hit-IsCollision p (some hit) live (there, key, other) =
      elim (Bool-cases (is_deleted_in_batch collision_key hit.path staged)) [
        | inl gone ↦ rw gone tt
        | inr on ↦ rw on ((live, ground (arith, other), sym key, inr (there, on)), tt)
      ]

  added-IsCollision :
      (x : CacheEntryRow) (found : List CaseCollision)
      → All (Own cache) cache
      → Own staged x
      → All IsCollision (added collision_key x cache staged found)
  added-IsCollision x found own own_x =
      elim (Bool-cases (is_deleted x.state || reports x.path found)) [
        | inl c ↦ rw c tt
        | inr c ↦ rw c (
            hit-IsCollision x.path _ (ap live_at own_x ∙ ground arith)
              (query-IsFound (collision_key x.path) x.path cache own))
      ]

  cache-IsCollision :
      (rows : List CacheEntryRow) (found : List CaseCollision)
      → All (Own cache) cache
      → All (Own staged) rows
      → All IsCollision found
      → All IsCollision (cache_collisions collision_key cache staged rows found)
  unfolding cache_collisions
  cache-IsCollision [] found own h k = k
  cache-IsCollision (x ∷ rows) found own (own_x, h) k =
      cache-IsCollision rows (found ++ added collision_key x cache staged found) own h
        (All-append IsCollision found _ k (added-IsCollision x found own own_x))

  detect-IsCollision :
      IsDistinct staged
      → IsDistinct cache
      → All IsCollision (detect_case_collisions collision_key staged cache)
  unfolding detect_case_collisions
  detect-IsCollision distinct apart =
      let own = IsDistinct-Own staged distinct in
      cache-IsCollision staged _ (IsDistinct-Own cache apart) own (batch-IsCollision _ own)

module _ (collision_key : String → String) (staged scanned cache : List CacheEntryRow)
    (old : (p : String) (r : CacheEntryRow)
      → get_cache p scanned ≡ some r
      → get_cache p cache ≡ some r) where
  live_before :
      (p : String) → live_at (get_cache p scanned) ≡ true → live_at (get_cache p cache) ≡ true
  live_before p live = go (get_cache p scanned) refl live
    where
      go :
          (o : Option CacheEntryRow)
          → get_cache p scanned ≡ o
          → live_at o ≡ true
          → live_at (get_cache p cache) ≡ true
      go none at h = cc
      go (some r) at h = ap live_at (old p r at) ∙ h

  IsTaken-before :
      (q : String) → IsTaken collision_key staged scanned q → IsTaken collision_key staged cache q
  IsTaken-before q (inl h) = inl h
  IsTaken-before q (inr (live, on)) = inr (live_before q live, on)

  IsCollision-before :
      (found : List CaseCollision)
      → All (IsCollision collision_key staged scanned) found
      → All (IsCollision collision_key staged cache) found
  IsCollision-before [] h = tt
  IsCollision-before (x ∷ found) ((live, other, key, taken), h) =
      ((live, other, key, IsTaken-before x.collides_with taken), IsCollision-before found h)

-- Every collision that a run of performUpdateCache reports is one: its path is staged as a live row,
-- and another path of the same collision key is staged as a live row too, or is live in the cache.db
-- from before the run without being staged as deleted. The two
-- lists are sorted by the order that the loop compares with.
pub update_cache-IsCollision :
    (c : Arguments) (collision_key : String → String) (lt : String → String → Bool) (o : IsOrder lt)
    (cache : List CacheEntryRow) (walk : List WalkEntry) (schedule : List Event) (u : Updated)
    → SortedCache lt o cache
    → SortedEntries walk_path lt o walk
    → perform_update_cache c collision_key lt cache walk schedule ≡ ok u
    → All (IsCollision collision_key u.pass.scan.staged cache) u.collisions
unfolding finish
update_cache-IsCollision c collision_key lt o cache walk schedule u sc se ran =
    let before = λ (q : String). get_cache q cache in
    let entry = λ (q : String). Table.find walk_path q walk in
    let P : Updated → Type 0 =
      λ w. All (IsCollision collision_key w.pass.scan.staged cache) w.collisions in
    of_Returns P _
      (perform_update_cache-Returns c collision_key lt o cache walk P schedule sc se
        λ l each distinct.
          IsCollision-before collision_key l.scan.staged l.scan.cache cache
            (λ p r. scanned_row c before entry p l.steps l.scan r (each p)) _
            (detect-IsCollision collision_key l.scan.staged l.scan.cache (distinct.0) (distinct.1)))
      ran
