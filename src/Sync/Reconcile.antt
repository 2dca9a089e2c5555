-- ===== src/Sync/Reconcile.antt =====
-- src/sync/reconcile-cache.ts: after a commit the handled rows of cache.db become `unchanged`, at the
-- version that the vault holds for their path; rows of deletes go. `filterByPath` of
-- src/sync/commit.ts picks the rows.
pub mod Laws
use sync.Prelude.{String, Bool, Option, none, some, List, [], ◌∷◌, string_eq, if◌then◌else◌}
use sync.Prelude.Table
use sync.Errors.{Result, ok, throw, invalid, ◌>>=◌}
use sync.Sync.Rows.{CacheEntryRow, CacheState, deleted, unchanged, cache_path}
use sync.Sync.Candidate.{Handled, get_handled, handled_path}

-- `filterByPath(cacheRepo.iterateDirty(), handled)`
unfoldable pub filter_by_path : List CacheEntryRow → List Handled → List CacheEntryRow
filter_by_path [] handled = []
filter_by_path (row ∷ rows) handled =
    let rest = filter_by_path rows handled in
    if Table.has handled_path row.path handled then row ∷ rest else rest

abbrev pub clean : CacheEntryRow → String → CacheEntryRow
clean row stamp = record row { state = unchanged; parent_state_version = some stamp }

abbrev pub stamp_in : Option Handled → Option String
stamp_in none = none
stamp_in (some h) = h.stamp

stamp_row : CacheEntryRow → Option String → List CacheEntryRow → Result (List CacheEntryRow)
stamp_row row none cache = throw (invalid row.path)
stamp_row row (some stamp) cache = ok (Table.upsert cache_path (clean row stamp) cache)

reconcile_state :
    CacheState → CacheEntryRow → List Handled → List CacheEntryRow → Result (List CacheEntryRow)
reconcile_state deleted row handled cache = ok (Table.remove cache_path row.path cache)
reconcile_state _ row handled cache = stamp_row row (stamp_in (get_handled row.path handled)) cache

unfoldable pub reconcile_row :
    CacheEntryRow → List Handled → List CacheEntryRow → Result (List CacheEntryRow)
unfolding reconcile_state stamp_row
reconcile_row row handled cache = reconcile_state row.state row handled cache

unfoldable pub reconcile_cache_after_commit :
    List CacheEntryRow → List Handled → List CacheEntryRow → Result (List CacheEntryRow)
unfolding reconcile_row
reconcile_cache_after_commit [] handled cache = ok cache
reconcile_cache_after_commit (row ∷ rows) handled cache =
    reconcile_row row handled cache >>= λ cache'. reconcile_cache_after_commit rows handled cache'
