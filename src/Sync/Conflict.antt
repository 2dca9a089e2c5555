-- ===== src/Sync/Conflict.antt =====
-- src/sync/conflict-rules.ts: whether a dirty cache row is applied to the entry that the candidate
-- state.db holds at its path, is already reconciled, or is left to a human.
pub mod Laws
use sync.Prelude.{String, ◌<>◌, Option, none, some, ◌==◌, if◌then◌else◌, string_eq, option_eq}
use sync.Errors.{Result, ok, throw, invalid}
use sync.Sync.Rows.{EntryRow, CacheEntryRow, CacheState, created, modified, deleted, unchanged}

pub data LocalChangeDecision : Type 0 where
  apply : LocalChangeDecision
  noop : LocalChangeDecision
  conflict : String → LocalChangeDecision

abbrev quoted : String → String
quoted path = "\"" <> path <> "\""

decide_created : CacheEntryRow → Option EntryRow → LocalChangeDecision
decide_created row none = apply
decide_created row (some existing) =
    if existing.hash == row.hash
    then noop
    else conflict (
        quoted row.path
        <> " was created locally, but a different file already exists remotely at this path")

decide_modified : CacheEntryRow → Option EntryRow → LocalChangeDecision
decide_modified row none =
    conflict (quoted row.path <> " was modified locally, but it was deleted remotely")
decide_modified row (some existing) =
    if some existing.state_version == row.parent_state_version
    then apply
    else if existing.hash == row.hash
    then noop
    else conflict
        (quoted row.path <> " was modified both locally and remotely with different content")

decide_deleted : CacheEntryRow → Option EntryRow → LocalChangeDecision
decide_deleted row none = noop
decide_deleted row (some existing) =
    if some existing.state_version == row.parent_state_version
    then apply
    else conflict (quoted row.path <> " was deleted locally, but modified remotely")

dispatch : CacheState → CacheEntryRow → Option EntryRow → Result LocalChangeDecision
dispatch created row existing = ok (decide_created row existing)
dispatch modified row existing = ok (decide_modified row existing)
dispatch deleted row existing = ok (decide_deleted row existing)
dispatch unchanged row existing =
    throw (invalid ("decideLocalChange called with an 'unchanged' row for " <> quoted row.path))

-- The `switch` on `row.state` is `dispatch`.
unfoldable pub decide_local_change : CacheEntryRow → Option EntryRow → Result LocalChangeDecision
unfolding dispatch decide_created decide_modified decide_deleted
decide_local_change row existing = dispatch row.state row existing
