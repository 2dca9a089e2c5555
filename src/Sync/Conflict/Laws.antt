-- ===== src/Sync/Conflict/Laws.antt =====
-- What a decision promises about the entry that it was taken against.
use sync.Prelude.{String, ◌≡◌, ◌≢◌, ◌↔◌, refl, Option, none, some, arith, string_eq, option_eq}
use sync.Errors.{ok}
use sync.Sync.Rows.{
  EntryType, file, dir, EntryRow, CacheEntryRow, CacheState, created, modified, deleted, unchanged,
}
use sync.Sync.Conflict.{
  apply, noop, decide_local_change, dispatch, decide_created, decide_modified, decide_deleted,
}

-- The vault has not moved at this path since the baseline of the row: a fresh path for a creation,
-- the baseline's own version for an edit or a delete.
abbrev pub AtBaseline : CacheEntryRow → CacheState → Option EntryRow → Type 0
AtBaseline row created none = Unit
AtBaseline row created (some e) = ⊥
AtBaseline row modified none = ⊥
AtBaseline row modified (some e) = some e.state_version ≡ row.parent_state_version
AtBaseline row deleted none = ⊥
AtBaseline row deleted (some e) = some e.state_version ≡ row.parent_state_version
AtBaseline row unchanged e = ⊥

dispatch-apply :
    (state : CacheState) (row : CacheEntryRow) (existing : Option EntryRow)
    → (dispatch state row existing ≡ ok apply) ↔ AtBaseline row state existing
unfolding dispatch decide_created decide_modified decide_deleted
dispatch-apply created row none = ground arith
dispatch-apply created row (some e) = ground arith
dispatch-apply modified row none = ground arith
dispatch-apply modified row (some e) = ground arith
dispatch-apply deleted row none = ground arith
dispatch-apply deleted row (some e) = ground arith
dispatch-apply unchanged row e = (λ h. cc, λ h. absurd h)

-- A row is decided as apply exactly if the vault still stands at its baseline: for a creation, no entry
-- at its path; for an edit or a delete, an entry at the version that the row started from. A row
-- without a change never is.
pub decide_apply :
    (row : CacheEntryRow) (existing : Option EntryRow)
    → (decide_local_change row existing ≡ ok apply) ↔ AtBaseline row row.state existing
unfolding decide_local_change
decide_apply row existing = dispatch-apply row.state row existing

-- The vault already holds what the row asks for.
abbrev pub Reconciled : CacheEntryRow → CacheState → Option EntryRow → Type 0
Reconciled row created none = ⊥
Reconciled row created (some e) = e.hash ≡ row.hash
Reconciled row modified none = ⊥
Reconciled row modified (some e) =
    (some e.state_version ≢ row.parent_state_version) × (e.hash ≡ row.hash)
Reconciled row deleted none = Unit
Reconciled row deleted (some e) = ⊥
Reconciled row unchanged e = ⊥

dispatch-noop :
    (state : CacheState) (row : CacheEntryRow) (existing : Option EntryRow)
    → (dispatch state row existing ≡ ok noop) ↔ Reconciled row state existing
unfolding dispatch decide_created decide_modified decide_deleted
dispatch-noop created row none = ground arith
dispatch-noop created row (some e) = ground arith
dispatch-noop modified row none = ground arith
dispatch-noop modified row (some e) = ground arith
dispatch-noop deleted row none = ground arith
dispatch-noop deleted row (some e) = ground arith
dispatch-noop unchanged row e = (λ h. cc, λ h. absurd h)

-- A row is decided as a no-op exactly if the vault already holds what it asks for: for a creation, its
-- content at its path; for an edit, its content there under another version than the row's baseline;
-- for a delete, no entry.
pub decide_noop :
    (row : CacheEntryRow) (existing : Option EntryRow)
    → (decide_local_change row existing ≡ ok noop) ↔ Reconciled row row.state existing
unfolding decide_local_change
decide_noop row existing = dispatch-noop row.state row existing

-- The content that the commit of a row names: none for a row that is no file.
abbrev pub committed_hash : EntryType → Option String → Option String
committed_hash file hash = hash
committed_hash dir hash = none

-- The entry at the row's path after the row was applied at a version.
abbrev pub applied_entry : CacheEntryRow → String → CacheState → Option EntryRow
applied_entry row stamp deleted = none
applied_entry row stamp _ = some (record {
  path = row.path;
  type = row.type;
  hash = committed_hash row.type row.hash;
  state_version = stamp;
})

committed_lem :
    (type : EntryType) (hash : Option String)
    → (type ≡ dir → hash ≡ none)
    → committed_hash type hash ≡ hash
committed_lem file hash h = refl
committed_lem dir hash h = let e = h refl in cc

dispatch-replay :
    (state : CacheState) (row : CacheEntryRow) (stamp : String)
    → state ≢ unchanged
    → row.parent_state_version ≢ some stamp
    → committed_hash row.type row.hash ≡ row.hash
    → dispatch state row (applied_entry row stamp state) ≡ ok noop
unfolding dispatch decide_created decide_modified decide_deleted
dispatch-replay created row stamp dirty fresh same = ground (arith, same)
dispatch-replay modified row stamp dirty fresh same = ground (arith, same)
dispatch-replay deleted row stamp dirty fresh same = ground (arith, same)
dispatch-replay unchanged row stamp dirty fresh same = absurd (dirty refl)

-- A crash after the commit and before the cache is reconciled heals itself: a dirty row decided
-- again over its own commit, whose version it cannot have had as its baseline, is a no-op. A row of
-- a directory has no hash, as the commit writes none for it.
pub decide_replay :
    (row : CacheEntryRow) (stamp : String)
    → row.state ≢ unchanged
    → row.parent_state_version ≢ some stamp
    → (row.type ≡ dir → row.hash ≡ none)
    → decide_local_change row (applied_entry row stamp row.state) ≡ ok noop
unfolding decide_local_change
decide_replay row stamp dirty fresh hashless =
    dispatch-replay row.state row stamp dirty fresh (committed_lem row.type row.hash hashless)
