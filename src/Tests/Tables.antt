-- ===== src/Tests/Tables.antt =====
-- The merge join of small tables, with the order of code points on their paths.
use sync.Prelude.{String, true, some, List, [], ◌∷◌, ◌≡◌, refl, nat_eq}
use sync.Tests.Order.{less, less-IsOrder}
use sync.Sync.Rows.{entry_path, EntryRow, CacheEntryRow, file, unchanged, get_cache, get_entry}
use sync.Sync.MergeJoin.{merge_join}
use sync.Sync.MergeJoin.Laws.{step_at, join, merge_join_lem}

abbrev row : String → CacheEntryRow
row path = record {
  path = path;
  type = file;
  mtime = some 1;
  hash = some "h1";
  size = some 3;
  state = unchanged;
  parent_state_version = some "v1";
}

abbrev entry : String → EntryRow
entry path = record { path = path; type = file; hash = some "h1"; state_version = "v1" }

abbrev rows : List CacheEntryRow
rows = row "a" ∷ row "b" ∷ []

abbrev entries : List EntryRow
entries = entry "b" ∷ entry "c" ∷ []

ordered : (less "a" "b" ≡ true) × (less "b" "c" ≡ true)
unfolding less nat_eq
ordered = (refl, refl)

merge_join_lem_example :
    step_at entry_path "b" (merge_join entry_path less rows entries)
    ≡ join entry_path (get_cache "b" rows) (get_entry "b" entries)
merge_join_lem_example =
    merge_join_lem entry_path less less-IsOrder "b" rows entries ((ordered.0, tt), (tt, tt))
      ((ordered.1, tt), (tt, tt))
