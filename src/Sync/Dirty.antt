-- ===== src/Sync/Dirty.antt =====
-- The dirty rows of cache.db, as db/repositories/cache-entries-repository.ts lists and counts them.
pub mod Laws
use sync.Prelude.{ℕ, ◌+◌, String, Bool, true, false, List, [], ◌∷◌, ◌++◌, if◌then◌else◌}
use sync.Db.Ordered.{order_by}
use sync.Sync.Rows.{CacheState, CacheEntryRow, cache_path}

abbrev pub is_dirty : CacheState → Bool
is_dirty CacheState.unchanged = false
is_dirty _ = true

abbrev pub is_deleted_row : CacheState → Bool
is_deleted_row CacheState.deleted = true
is_deleted_row _ = false

-- `WHERE state = 'deleted'`
unfoldable pub deleted_rows : List CacheEntryRow → List CacheEntryRow
deleted_rows [] = []
deleted_rows (r ∷ rows) =
    let rest = deleted_rows rows in if is_deleted_row r.state then r ∷ rest else rest

-- `WHERE state IN ('created', 'modified')`
unfoldable pub changed_rows : List CacheEntryRow → List CacheEntryRow
changed_rows [] = []
changed_rows (r ∷ rows) =
    let rest = changed_rows rows in
    if is_deleted_row r.state then rest else if is_dirty r.state then r ∷ rest else rest

-- `iterateDirty`
unfoldable pub iterate_dirty : (String → String → Bool) → List CacheEntryRow → List CacheEntryRow
iterate_dirty lt cache =
    let rows = order_by cache_path lt cache in deleted_rows rows ++ changed_rows rows

-- `countDirty`
unfoldable pub count_dirty : List CacheEntryRow → ℕ
count_dirty [] = 0
count_dirty (r ∷ rows) = let rest = count_dirty rows in if is_dirty r.state then 1 + rest else rest
