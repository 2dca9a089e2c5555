-- ===== src/UpdateCache.antt =====
-- src/fs/update-cache.ts: cache.db is brought to what a walk through the folder finds. The walk
-- (src/fs/walker.ts), the hash workers and the reads of stubs are parameters; hash jobs run while the
-- loop goes on, so a run is any list of the loop's turns and of jobs that end. The staging database of
-- src/db/repositories/staging-repository.ts is a list of rows: it buffers its inserts, and every read
-- flushes the buffer first. Progress, logging and the limit on jobs in flight are left out.
pub mod Collisions
pub mod Run
pub mod Expected
pub mod Steps
pub mod Reached
pub mod Course
pub mod Distinct
pub mod Outcome
pub mod Baseline
pub mod Completion
use sync.Prelude.{
  ℕ, ◌+◌, String, Bool, true, false, not, ◌&&◌, Option, none, some, List, [], ◌∷◌, ◌++◌, ltb, ◌==◌,
  if◌then◌else◌, string_eq, nat_eq, option_eq,
}
use sync.Prelude.Table
use sync.Errors.{Failure, Result, ok, throw, ◌>>=◌, ◌>>◌}
use sync.Fs.GlobMatch.{matches_any_glob}
use sync.Sync.Rows.{EntryType, CacheState, CacheEntryRow, ObjectRow, cache_path, get_object}
use sync.Sync.MergeJoin.{Step, merge_join}

pub data WalkRepresentation : Type 0 where
  real stub both : WalkRepresentation

-- `mtime` is `Math.round(mtimeMs)`.
pub record WalkEntry : Type 0 where
  pub path : String
  pub type : EntryType
  pub representation : WalkRepresentation
  pub mtime : ℕ
  pub size : ℕ

abbrev pub walk_path : WalkEntry → String
walk_path e = e.path

-- The arguments of a run, with what the disk answers at a path: the byte length of its base name,
-- what `readStubHash` gives for its stub and what the hash worker gives for its file.
pub record Arguments : Type 0 where
  pub basename_bytes : String → ℕ
  pub read_stub_hash : String → Result String
  pub hash_file : String → Result String
  pub matches : String → String → Bool
  pub ignore_globs : List String
  pub objects : List ObjectRow
  pub last_synced_version : String

pub record UpdateCacheStats : Type 0 where
  pub created : ℕ
  pub modified : ℕ
  pub deleted : ℕ
  pub unchanged : ℕ
  pub ignored : ℕ
  pub dropped_ignored : List String

-- `stats[state]++`
unfoldable pub count : CacheState → UpdateCacheStats → UpdateCacheStats
count CacheState.created stats = record stats { created = stats.created + 1 }
count CacheState.modified stats = record stats { modified = stats.modified + 1 }
count CacheState.deleted stats = record stats { deleted = stats.deleted + 1 }
count CacheState.unchanged stats = record stats { unchanged = stats.unchanged + 1 }

-- A file that a worker hashes: newly found, or beside its row of cache.db.
pub record HashJob : Type 0 where
  pub entry : WalkEntry
  pub row : Option CacheEntryRow

abbrev pub job_path : HashJob → String
job_path j = j.entry.path

-- cache.db, the staged rows, the jobs in flight, the stubs that were removed
-- beside a real file, and the counters.
pub record Scan : Type 0 where
  pub cache : List CacheEntryRow
  pub staged : List CacheEntryRow
  pub jobs : List HashJob
  pub removed_stubs : List String
  pub stats : UpdateCacheStats

unfoldable pub counting : CacheState → Scan → Scan
unfolding count
counting state s = record s { stats = count state s.stats }

-- `StagingRepository.insert`, into a table whose primary key is the path.
unfoldable pub insert : CacheEntryRow → Scan → Result Scan
insert row s =
    if Table.has cache_path row.path s.staged
    then throw (Failure.transport "UNIQUE constraint failed: pending.path")
    else ok (record s { staged = s.staged ++ (row ∷ []) })

abbrev pub max_filename_bytes : ℕ
max_filename_bytes = 255

unfoldable pub fits_with_stub_suffix : ℕ → Bool
fits_with_stub_suffix basename_bytes = not (ltb max_filename_bytes (basename_bytes + 5))

unfoldable pub is_real_file : WalkEntry → Bool
is_real_file e = elim e.type [
  | EntryType.file ↦ elim e.representation [ WalkRepresentation.real ↦ true | _ ↦ false ]
  | EntryType.dir ↦ false
]

unfoldable pub assert_stubbable_real_file : Arguments → WalkEntry → Result (Unit {0})
unfolding is_real_file fits_with_stub_suffix
assert_stubbable_real_file c e =
    if is_real_file e && not (fits_with_stub_suffix (c.basename_bytes e.path))
    then throw (Failure.invalid "FilenameTooLongForStubError")
    else ok tt

pub data ContentResolution : Type 0 where
  resolved : Option String → Option ℕ → ContentResolution
  needs_hash : ContentResolution

-- A malformed stub is reported with the path; other errors go on as they are.
unfoldable pub corrupt_stub : Result String → Result String
corrupt_stub (ok hash) = ok hash
corrupt_stub (throw (Failure.corruption message)) = throw (Failure.corruption "corrupt stub")
corrupt_stub (throw e) = throw e

unfoldable pub known_content : String → Option ObjectRow → Result ContentResolution
known_content hash none = throw (Failure.corruption "UnknownStubContentError")
known_content hash (some object) = ok (resolved (some hash) (some object.size))

unfoldable pub classify_file : Arguments → WalkRepresentation → String → Result ContentResolution
unfolding corrupt_stub known_content
classify_file c WalkRepresentation.both path = ok needs_hash
classify_file c WalkRepresentation.real path = ok needs_hash
classify_file c WalkRepresentation.stub path =
    corrupt_stub (c.read_stub_hash path) >>= λ hash. known_content hash (get_object hash c.objects)

unfoldable pub classify_content : Arguments → EntryType → WalkEntry → Result ContentResolution
unfolding classify_file
classify_content c EntryType.dir e = ok (resolved none none)
classify_content c EntryType.file e = classify_file c e.representation e.path

unfoldable pub is_both : WalkEntry → Bool
is_both e = elim e.type [
  | EntryType.file ↦ elim e.representation [ WalkRepresentation.both ↦ true | _ ↦ false ]
  | EntryType.dir ↦ false
]

-- The stub beside a real file goes.
unfoldable pub remove_stub : WalkEntry → Scan → Scan
unfolding is_both
remove_stub e s =
    if is_both e then record s { removed_stubs = s.removed_stubs ++ (e.path ∷ []) } else s

unfoldable pub created_row : WalkEntry → Option String → Option ℕ → Option String → CacheEntryRow
created_row e hash size parent_state_version = record {
  path = e.path;
  type = e.type;
  mtime = some e.mtime;
  hash = hash;
  size = size;
  state = CacheState.created;
  parent_state_version = parent_state_version;
}

unfoldable pub finalize_created :
    Arguments → WalkEntry → Option String → Option ℕ → Scan → Result Scan
unfolding counting created_row insert
finalize_created c e hash size s =
    insert (created_row e hash size (some c.last_synced_version)) (counting CacheState.created s)

unfoldable pub resolve_created : Arguments → WalkEntry → ContentResolution → Scan → Result Scan
unfolding finalize_created
resolve_created c e (resolved hash size) s = finalize_created c e hash size s
resolve_created c e needs_hash s =
    ok (record s { jobs = s.jobs ++ (record { entry = e; row = none } ∷ []) })

unfoldable pub dispatch_created_row : Arguments → WalkEntry → Scan → Result Scan
unfolding assert_stubbable_real_file classify_content remove_stub resolve_created
dispatch_created_row c e s =
    assert_stubbable_real_file c e
    >> (classify_content c e.type e >>= λ resolution.
        resolve_created c e resolution (remove_stub e s))

-- A row that is deleted already stays as it is.
unfoldable pub missing_row : CacheEntryRow → CacheEntryRow
missing_row r = record {
  path = r.path;
  type = r.type;
  mtime = none;
  hash = none;
  size = none;
  state = CacheState.deleted;
  parent_state_version = r.parent_state_version;
}

unfoldable pub is_deleted : CacheState → Bool
is_deleted CacheState.deleted = true
is_deleted state = false

unfoldable pub build_missing_from_fs_row : CacheEntryRow → Scan → Result Scan
unfolding is_deleted missing_row counting insert
build_missing_from_fs_row r s =
    if is_deleted r.state then ok s else insert (missing_row r) (counting CacheState.deleted s)

-- What becomes of a row whose file has other content: its state and its row.
unfoldable pub next_state : CacheState → CacheState
next_state CacheState.unchanged = CacheState.modified
next_state CacheState.deleted = CacheState.created
next_state CacheState.created = CacheState.created
next_state CacheState.modified = CacheState.modified

unfoldable pub changed_row :
    CacheState → CacheEntryRow → WalkEntry → Option String → Option ℕ → CacheEntryRow
unfolding next_state
changed_row CacheState.created r e hash size = record r {
  mtime = some e.mtime;
  hash = hash;
  size = size;
}
changed_row CacheState.modified r e hash size = record r {
  mtime = some e.mtime;
  hash = hash;
  size = size;
}
changed_row state r e hash size = record {
  path = e.path;
  type = EntryType.file;
  mtime = some e.mtime;
  hash = hash;
  size = size;
  state = next_state state;
  parent_state_version = r.parent_state_version;
}

unfoldable pub finalize_existing :
    WalkEntry → CacheEntryRow → Option String → Option ℕ → Scan → Result Scan
unfolding counting insert changed_row next_state
finalize_existing e r hash size s =
    if hash == r.hash
    then insert (record r { mtime = some e.mtime }) (counting CacheState.unchanged s)
    else insert (changed_row r.state r e hash size) (counting (next_state r.state) s)

unfoldable pub resolve_existing : WalkEntry → CacheEntryRow → ContentResolution → Scan → Result Scan
unfolding finalize_existing
resolve_existing e r (resolved hash size) s = finalize_existing e r hash size s
resolve_existing e r needs_hash s =
    ok (record s { jobs = s.jobs ++ (record { entry = e; row = some r } ∷ []) })

unfoldable pub dispatch_existing_directory : WalkEntry → CacheEntryRow → Scan → Result Scan
unfolding is_deleted created_row counting insert
dispatch_existing_directory e r s =
    if is_deleted r.state
    then insert (created_row e none none r.parent_state_version) (counting CacheState.created s)
    else ok (counting CacheState.unchanged s)

unfoldable pub dispatch_existing_file : Arguments → WalkEntry → CacheEntryRow → Scan → Result Scan
unfolding is_both counting classify_content remove_stub resolve_existing
dispatch_existing_file c e r s =
    if not (is_both e) && (r.mtime == some e.mtime)
    then ok (counting CacheState.unchanged s)
    else classify_content c e.type e >>= λ resolution.
        resolve_existing e r resolution (remove_stub e s)

unfoldable pub dispatch_existing :
    Arguments → EntryType → WalkEntry → CacheEntryRow → Scan → Result Scan
unfolding dispatch_existing_directory dispatch_existing_file
dispatch_existing c EntryType.dir e r s = dispatch_existing_directory e r s
dispatch_existing c EntryType.file e r s = dispatch_existing_file c e r s

unfoldable pub dispatch_existing_row : Arguments → WalkEntry → CacheEntryRow → Scan → Result Scan
unfolding assert_stubbable_real_file dispatch_existing
dispatch_existing_row c e r s = assert_stubbable_real_file c e >> dispatch_existing c e.type e r s

unfoldable pub is_ignored : Arguments → String → Bool
unfolding matches_any_glob
is_ignored c path = not (matches_any_glob c.matches path c.ignore_globs == none)

unfoldable pub is_created : CacheState → Bool
is_created CacheState.created = true
is_created state = false

-- One turn of the loop. A created row whose path is ignored leaves cache.db at once.
unfoldable pub scan_step : Arguments → Step WalkEntry → Scan → Result Scan
unfolding is_ignored dispatch_created_row build_missing_from_fs_row is_created dispatch_existing_row
scan_step c (Step.remote_only e) s =
    if is_ignored c e.path
    then ok (record s { stats = record s.stats { ignored = s.stats.ignored + 1 } })
    else dispatch_created_row c e s
scan_step c (Step.local_only r) s = build_missing_from_fs_row r s
scan_step c (Step.both r e) s =
    if is_created r.state && is_ignored c e.path
    then ok (record s {
      cache = Table.remove cache_path e.path s.cache;
      stats = record s.stats { dropped_ignored = s.stats.dropped_ignored ++ (e.path ∷ []) };
    })
    else dispatch_existing_row c e r s
