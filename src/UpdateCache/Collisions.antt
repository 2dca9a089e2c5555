-- ===== src/UpdateCache/Collisions.antt =====
-- `detectCaseCollisions` of src/fs/update-cache.ts with the queries of
-- src/db/repositories/staging-repository.ts and `findByNormalizedPath`. `collision_key` is
-- `toCollisionKey`, JavaScript's `toLowerCase`. The order of the groups, and so of the report, is not
-- the database's.
pub mod Batch
pub mod Cached
pub mod Free
pub mod Real
use sync.Prelude.{
  String, Bool, true, false, not, ◌&&◌, ◌||◌, Option, none, some, List, [], ◌∷◌, ◌++◌, map, ◌==◌,
  contains, if◌then◌else◌, string_eq,
}
use sync.Sync.Rows.{CacheEntryRow, get_cache}
use sync.UpdateCache.{is_deleted}

pub record CaseCollision : Type 0 where
  pub path : String
  pub collides_with : String

abbrev pub collision_path : CaseCollision → String
collision_path x = x.path

abbrev pub is_live : CacheEntryRow → Bool
is_live r = not (is_deleted r.state)

abbrev pub is_some {ℓ} : {A : Type ℓ} → Option A → Bool
is_some none = false
is_some (some a) = true

module _ (collision_key : String → String) where
  unfoldable pub live_rows_for_normalized_path : String → List CacheEntryRow → List CacheEntryRow
  unfolding is_deleted
  live_rows_for_normalized_path key [] = []
  live_rows_for_normalized_path key (r ∷ rows) =
      let rest = live_rows_for_normalized_path key rows in
      if (collision_key r.path == key) && is_live r then r ∷ rest else rest

  unfoldable pub find_live : String → List CacheEntryRow → Option CacheEntryRow
  unfolding is_deleted
  find_live key [] = none
  find_live key (r ∷ rows) =
      if (collision_key r.path == key) && is_live r then some r else find_live key rows

  -- The keys of more than one live row.
  unfoldable pub live_collision_groups : List CacheEntryRow → List String
  unfolding is_deleted find_live
  live_collision_groups [] = []
  live_collision_groups (r ∷ rows) =
      let rest = live_collision_groups rows in
      let key = collision_key r.path in
      if is_live r && is_some (find_live key rows) && not (contains key rest)
      then key ∷ rest
      else rest

  -- `rows.find((r) => r.path !== row.path)`
  unfoldable pub find_other : String → List CacheEntryRow → Option CacheEntryRow
  find_other path [] = none
  find_other path (r ∷ rows) = if r.path == path then find_other path rows else some r

  unfoldable pub collide : String → Option CacheEntryRow → List CaseCollision
  collide path none = []
  collide path (some other) = record { path = path; collides_with = other.path } ∷ []

  unfoldable pub group_collisions : List CacheEntryRow → List CacheEntryRow → List CaseCollision
  unfolding find_other collide
  group_collisions group [] = []
  group_collisions group (r ∷ rows) =
      collide r.path (find_other r.path group) ++ group_collisions group rows

  unfoldable pub batch_collisions : List CacheEntryRow → List String → List CaseCollision
  unfolding live_rows_for_normalized_path group_collisions
  batch_collisions staged [] = []
  batch_collisions staged (key ∷ keys) =
      let rows = live_rows_for_normalized_path key staged in
      group_collisions rows rows ++ batch_collisions staged keys

  -- `WHERE normalized_path = ? AND path != ? AND state != 'deleted' LIMIT 1`
  unfoldable pub find_by_normalized_path :
      String → String → List CacheEntryRow → Option CacheEntryRow
  unfolding is_deleted
  find_by_normalized_path key path [] = none
  find_by_normalized_path key path (r ∷ rows) =
      if (collision_key r.path == key) && not (r.path == path) && is_live r
      then some r
      else find_by_normalized_path key path rows

  unfoldable pub is_deleted_in_batch : String → List CacheEntryRow → Bool
  unfolding is_deleted
  is_deleted_in_batch path staged = elim (get_cache path staged) [
    | none ↦ false
    | some r ↦ is_deleted r.state
  ]

  unfoldable pub live_hit : List CacheEntryRow → Option CacheEntryRow → Option CacheEntryRow
  unfolding is_deleted_in_batch
  live_hit staged none = none
  live_hit staged (some hit) = if is_deleted_in_batch hit.path staged then none else some hit

  -- The loop over the staged rows that are live and not excluded yet.
  unfoldable pub cache_collisions :
      List CacheEntryRow
      → List CacheEntryRow
      → List CacheEntryRow
      → List CaseCollision
      → List CaseCollision
  unfolding is_deleted find_by_normalized_path live_hit collide
  cache_collisions cache staged [] found = found
  cache_collisions cache staged (r ∷ rows) found =
      let hit = live_hit staged (find_by_normalized_path (collision_key r.path) r.path cache) in
      let more =
        if is_deleted r.state || contains r.path (map collision_path found)
        then []
        else collide r.path hit in
      cache_collisions cache staged rows (found ++ more)

  -- The excluded paths are those of the collisions.
  unfoldable pub detect_case_collisions :
      List CacheEntryRow → List CacheEntryRow → List CaseCollision
  unfolding live_collision_groups batch_collisions cache_collisions
  detect_case_collisions staged cache =
      cache_collisions cache staged staged (batch_collisions staged (live_collision_groups staged))
