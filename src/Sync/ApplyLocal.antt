-- ===== src/Sync/ApplyLocal.antt =====
-- `applyLocalChangesToCandidate` (src/sync/apply-local-changes.ts): the deletes in a first pass, then
-- the creations and edits, each decided at once, with its upload left to a pool. The pools are an
-- event loop: an event is the next turn of the loop over the dirty rows, or the answer to a job that
-- is in flight, and a schedule is any list of events. `collision_key` is JavaScript's
-- `toLowerCase` and `object_key` is `objectKey`; progress, logging and storage classes are left out.
use sync.Prelude.{
  ℕ, String, ◌<>◌, Bool, true, false, not, ◌&&◌, Option, none, some, List, [], ◌∷◌, ◌++◌, ◌+◌, ◌==◌,
  if◌then◌else◌, string_eq,
}
use sync.Prelude.Table
use sync.Errors.{Result, ok, throw, invalid, transport, ◌>>=◌}
use sync.Sync.Rows.{
  EntryType, file, dir, EntryRow, CacheEntryRow, CacheState, created, deleted, get_entry,
  has_object,
}
use sync.Sync.Conflict.{LocalChangeDecision, apply, noop, conflict, decide_local_change}
use sync.Sync.Candidate.{
  Job, heading, uploading, Claim, Run, job_hash, claim_key, add_conflict, set_handled, write_entry,
  delete_with_history,
}

-- Pass 1. `existingEntry!` is read only where there is one.
unfoldable pub delete_applied : String → CacheEntryRow → Option EntryRow → Run → Result Run
delete_applied version_stamp row none s = throw (invalid row.path)
delete_applied version_stamp row (some existing) s =
    let s' = set_handled row.path none s in
    ok (
      delete_with_history existing version_stamp
        (record s' { applied_count = s'.applied_count + 1 }))

unfoldable pub delete_decided :
    String → CacheEntryRow → Option EntryRow → LocalChangeDecision → Run → Result Run
delete_decided version_stamp row existing (conflict reason) s = ok (add_conflict row.path reason s)
delete_decided version_stamp row existing noop s = ok (set_handled row.path none s)
delete_decided version_stamp row existing apply s = delete_applied version_stamp row existing s

-- One row of pass 1.
unfoldable pub delete_row : String → CacheEntryRow → Run → Result Run
unfolding delete_decided delete_applied
delete_row version_stamp row s = do
  decision ← decide_local_change row (get_entry row.path s.entries)
  delete_decided version_stamp row (get_entry row.path s.entries) decision s

abbrev pub is_deleted : CacheState → Bool
is_deleted deleted = true
is_deleted _ = false

-- The loop of pass 1, which stops at the first row that is no delete and hands the rest on.
unfoldable pub delete_pass : String → List CacheEntryRow → Run → Result (Run × List CacheEntryRow)
unfolding delete_row
delete_pass version_stamp [] s = ok (s, [])
delete_pass version_stamp (row ∷ rows) s = elim (is_deleted row.state) [
  | true ↦ delete_row version_stamp row s >>= λ s'. delete_pass version_stamp rows s'
  | false ↦ ok (s, row ∷ rows)
]

-- `entriesRepo.findByNormalizedPath(normalizedKey, row.path)`
unfoldable pub find_by_normalized_path :
    (String → String) → String → String → List EntryRow → Option String
find_by_normalized_path collision_key normalized exclude [] = none
find_by_normalized_path collision_key normalized exclude (e ∷ entries) =
    if collision_key e.path == normalized && not (e.path == exclude)
    then some e.path
    else find_by_normalized_path collision_key normalized exclude entries

claimed_by_other : Option Claim → String → Option String
claimed_by_other none path = none
claimed_by_other (some c) path = if c.path == path then none else some c.path

or_else : Option String → Option String → Option String
or_else none b = b
or_else (some a) b = some a

-- `collidesWith`
unfoldable pub collides_with : (String → String) → CacheEntryRow → Run → Option String
unfolding claimed_by_other or_else
collides_with collision_key row s =
    let normalized = collision_key row.path in
    or_else (find_by_normalized_path collision_key normalized row.path s.entries)
      (claimed_by_other (Table.find claim_key normalized s.in_flight_by_normalized_path) row.path)

-- Only a creation is looked at.
unfoldable pub collision : (String → String) → CacheEntryRow → CacheState → Run → Option String
collision collision_key row created s = collides_with collision_key row s
collision collision_key row _ s = none

abbrev collision_reason : String → String
collision_reason other =
    "case-insensitive collision with existing entry \"" <> other
    <> "\" -- rename or remove one of them and sync again"

unfoldable pub claim : (String → String) → CacheEntryRow → CacheState → Run → Run
claim collision_key row created s = record s {
  in_flight_by_normalized_path =
      Table.upsert claim_key (record { normalized = collision_key row.path; path = row.path })
        s.in_flight_by_normalized_path;
}
claim collision_key row _ s = s

-- `existingJob.sourceRows.push(…)`
abbrev pub attached : CacheEntryRow → Job → Job
attached row j = record j {
  source_rows = j.source_rows ++ (record { path = row.path; type = row.type } ∷ []);
}

unfoldable pub attach : CacheEntryRow → Job → Run → Run
attach row j s = record s {
  in_flight_by_hash = Table.upsert job_hash (attached row j) s.in_flight_by_hash;
}

abbrev pub new_job : Bool → CacheEntryRow → String → ℕ → Bool → Bool → Job
new_job verify_remote row hash size mirror_needs_object already_on_s3 = record {
  hash = hash;
  source_rows = record { path = row.path; type = row.type } ∷ [];
  size = size;
  mtime = row.mtime;
  already_on_s3 = already_on_s3;
  mirror_needs_object = mirror_needs_object;
  phase = if verify_remote && not already_on_s3 then heading else uploading none;
}

unfoldable pub open_job : Bool → CacheEntryRow → String → ℕ → Bool → Run → Run
open_job verify_remote row hash size mirror_needs_object s = record s {
  in_flight_by_hash =
      Table.upsert job_hash
        (new_job verify_remote row hash size mirror_needs_object (has_object hash s.objects))
        s.in_flight_by_hash;
}

-- What the mirror's `statSync` says of the row's object: absent or of another size, or no mirror or
-- present; any error but ENOENT is thrown.
pub data MirrorProbe : Type 0 where
  probed : Bool → MirrorProbe
  probe_failed : String → MirrorProbe

-- The CHECK constraint on cache.db's `entries` rules out a file row with no size.
unfoldable pub sized_job : Bool → CacheEntryRow → String → Option ℕ → Bool → Run → Result Run
sized_job verify_remote row hash none mirror_needs s = throw (invalid row.path)
sized_job verify_remote row hash (some size) mirror_needs s =
    ok (open_job verify_remote row hash size mirror_needs s)

unfoldable pub new_content : String → Bool → CacheEntryRow → String → MirrorProbe → Run → Result Run
new_content version_stamp verify_remote row hash (probe_failed message) s =
    throw (transport message)
new_content version_stamp verify_remote row hash (probed mirror_needs) s =
    if has_object hash s.objects && not mirror_needs
    then ok (
        write_entry version_stamp row.path row.type (some hash)
          (record s { deduped_objects = s.deduped_objects + 1 }))
    else sized_job verify_remote row hash row.size mirror_needs s

unfoldable pub file_content :
    String → Bool → CacheEntryRow → String → Option Job → MirrorProbe → Run → Result Run
file_content version_stamp verify_remote row hash (some j) probe s = ok (attach row j s)
file_content version_stamp verify_remote row hash none probe s =
    new_content version_stamp verify_remote row hash probe s

-- `!row.hash` holds of an empty text too.
unfoldable pub apply_file :
    (String → String)
    → String
    → Bool
    → CacheEntryRow
    → Option String
    → MirrorProbe
    → Run
    → Result Run
apply_file collision_key version_stamp verify_remote row none probe s = throw (invalid row.path)
apply_file collision_key version_stamp verify_remote row (some hash) probe s =
    let s' = claim collision_key row row.state s in
    if hash == ""
    then throw (invalid row.path)
    else file_content version_stamp verify_remote row hash
        (Table.find job_hash hash s'.in_flight_by_hash) probe s'

unfoldable pub apply_change :
    (String → String) → String → Bool → CacheEntryRow → EntryType → MirrorProbe → Run → Result Run
apply_change collision_key version_stamp verify_remote row dir probe s =
    ok (write_entry version_stamp row.path row.type none s)
apply_change collision_key version_stamp verify_remote row file probe s =
    apply_file collision_key version_stamp verify_remote row row.hash probe s

abbrev pub stamp_of : Option EntryRow → Option String
stamp_of none = none
stamp_of (some e) = some e.state_version

unfoldable pub change_decided :
    (String → String)
    → String
    → Bool
    → CacheEntryRow
    → Option EntryRow
    → LocalChangeDecision
    → MirrorProbe
    → Run
    → Result Run
change_decided collision_key version_stamp verify_remote row existing (conflict reason) probe s =
    ok (add_conflict row.path reason s)
change_decided collision_key version_stamp verify_remote row existing noop probe s =
    ok (set_handled row.path (stamp_of existing) s)
change_decided collision_key version_stamp verify_remote row existing apply probe s =
    apply_change collision_key version_stamp verify_remote row row.type probe s

unfoldable pub change_uncollided :
    (String → String) → String → Bool → CacheEntryRow → MirrorProbe → Run → Result Run
change_uncollided collision_key version_stamp verify_remote row probe s = do
  decision ← decide_local_change row (get_entry row.path s.entries)
  change_decided collision_key version_stamp verify_remote row (get_entry row.path s.entries)
      decision probe s

unfoldable pub change_checked :
    (String → String)
    → String
    → Bool
    → CacheEntryRow
    → Option String
    → MirrorProbe
    → Run
    → Result Run
change_checked collision_key version_stamp verify_remote row (some other) probe s =
    ok (add_conflict row.path (collision_reason other) s)
change_checked collision_key version_stamp verify_remote row none probe s =
    change_uncollided collision_key version_stamp verify_remote row probe s

-- One row of pass 2, up to the point where its upload is left to a pool.
unfoldable pub change_row :
    (String → String) → String → Bool → CacheEntryRow → MirrorProbe → Run → Result Run
unfolding change_checked change_uncollided change_decided apply_change apply_file file_content
    new_content sized_job claim
change_row collision_key version_stamp verify_remote row probe s =
    change_checked collision_key version_stamp verify_remote row
      (collision collision_key row row.state s) probe s
