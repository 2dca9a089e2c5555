-- ===== src/Sync/MergeJoin.antt =====
-- The loop of `applyRemoteChangesToLocal` (src/sync/apply-remote-changes.ts) and of `performUpdateCache`
-- (src/fs/update-cache.ts) as a merge join: which row of cache.db it puts beside which entry of the
-- candidate, or of the walk through the folder. `lt` is JavaScript's `<` on paths; the lists are in
-- the order of SQLite's `ORDER BY path` and of the walk.
pub mod Laws
use sync.Prelude.{String, Bool, true, false, List, [], ◌∷◌}
use sync.Sync.Rows.{CacheEntryRow}

pub data Step (E : Type 0) : Type 0 where
  remote_only : E → Step E
  local_only : CacheEntryRow → Step E
  both : CacheEntryRow → E → Step E

module _ {E : Type 0} (path_of : E → String) where
  abbrev pub step_path : Step E → String
  step_path (remote_only e) = path_of e
  step_path (local_only c) = c.path
  step_path (both c e) = path_of e

  unfoldable pub merge_join : (String → String → Bool) → List CacheEntryRow → List E → List (Step E)
  merge_join lt [] [] = []
  merge_join lt [] (e ∷ es) = remote_only e ∷ merge_join lt [] es
  merge_join lt (c ∷ cs) [] = local_only c ∷ merge_join lt cs []
  merge_join lt (c ∷ cs) (e ∷ es) = elim (lt (path_of e) c.path) [
    | true ↦ remote_only e ∷ merge_join lt (c ∷ cs) es
    | false ↦ elim (lt c.path (path_of e)) [
      | true ↦ local_only c ∷ merge_join lt cs (e ∷ es)
      | false ↦ both c e ∷ merge_join lt cs es
    ]
  ]
