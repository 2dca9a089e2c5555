-- ===== src/Sync/ApplyRemote.antt =====
-- src/sync/apply-remote-changes.ts: the folder and cache.db are brought to the candidate, row by row
-- of the merge join. Downloads run in a pool: a schedule is any list of turns of the loop and of
-- downloads that end. Progress, logging and the yields to the event loop are left out.
pub mod Downloads
pub mod Steps
pub mod ErrorBox
pub mod Course
pub mod Convergence
use sync.Prelude.{
  ℕ, String, Bool, true, false, not, ◌&&◌, Option, none, some, List, [], ◌∷◌, ◌++◌, ◌+◌, ◌==◌,
  contains, if◌then◌else◌, string_eq, option_eq,
}
use sync.Prelude.Table
use sync.Errors.{Failure, Result, ok, throw, invalid, corruption, transport, ◌>>=◌}
use sync.Fs.Disk.{
  Node, Content, bytes, stub, directory, stub_path_for, write, rm_sync, rmdir_sync, mkdir_sync,
  is_directory, currently_stub_backed,
}
use sync.Fs.GlobMatch.{matches_any_glob}
use sync.S3.Retry.{
  ErrorChain, nothing, error, Attempted, returned, rejected, RetryResult, resolved, threw, aborted,
  out_of_fuel, with_s3_retry,
}
use sync.Sync.Rows.{
  entry_path, EntryType, file, dir, EntryRow, CacheEntryRow, unchanged, ObjectRow, cache_path,
  get_object,
}
use sync.Sync.Upload.{box}
use sync.Sync.Schedule.{throw_if_pool_errored}
use sync.Sync.Download.{GetAnswer, download_attempt}
use sync.Sync.MergeJoin.{Step, remote_only, local_only, both, step_path, merge_join}

-- What a dispatched download holds on to.
pub record Download : Type 0 where
  pub path : String
  pub hash : String
  pub size : ℕ
  pub state_version : String

abbrev pub download_path : Download → String
download_path d = d.path

-- `IgnoredButSyncedEntry`
pub record IgnoredButSyncedEntry : Type 0 where
  pub path : String
  pub matched_glob : String

-- cache.db, the folder, the downloads in flight, the pool's error box and the result so far.
pub record Remote : Type 0 where
  pub cache : List CacheEntryRow
  pub disk : List Node
  pub downloads : List Download
  pub stream_error : Option Failure
  pub created : ℕ
  pub modified : ℕ
  pub deleted : ℕ
  pub ignored_but_synced : List IgnoredButSyncedEntry

-- The arguments of a run: `path.join(root, …)`, the directories above an absolute path from the
-- outermost on, the random name that `inTreeTempPath` gives to an attempt, the rounded mtime that `statSync` gives, whether a
-- directory is empty when its deletion comes, minimatch, the ignore globs, `excludePaths` and the candidate's objects.
pub record Arguments : Type 0 where
  pub absolute : String → String
  pub parents : String → List String
  pub in_tree_temp_path : String → ℕ → String
  pub mtime : String → ℕ
  pub is_empty : String → Bool
  pub matches : String → String → Bool
  pub ignore_globs : List String
  pub exclude_paths : List String
  pub objects : List ObjectRow

abbrev pub materialized_row :
    String → EntryType → ℕ → Option String → Option ℕ → String → CacheEntryRow
materialized_row path type mtime hash size state_version = record {
  path = path;
  type = type;
  mtime = some mtime;
  hash = hash;
  size = size;
  state = unchanged;
  parent_state_version = some state_version;
}

unfoldable pub run_download :
    Arguments → Download → (ℕ → GetAnswer) → ℕ → List Node → RetryResult (Unit {0}) × List Node
unfolding download_attempt with_s3_retry
run_download c d answers fuel disk =
    let absolute_path = c.absolute d.path in
    with_s3_retry (λ _. false)
      (λ n disk'.
        download_attempt absolute_path (c.parents absolute_path)
          (c.in_tree_temp_path absolute_path n) d.hash (answers n) disk')
      fuel 1 disk

unfoldable pub failure_of : String → ErrorChain → Failure
failure_of path (error (some name) code status cause) =
    if name == "CorruptionError" then corruption path else transport path
failure_of path _ = transport path

-- The task of the pool ends: its row is written, or its error goes into the box. A download that has
-- run out of fuel is still in flight.
unfoldable pub settle_download :
    Arguments → Download → RetryResult (Unit {0}) → List Node → Remote → Remote
unfolding failure_of
settle_download c d (resolved _) disk s = record s {
  disk = disk;
  downloads = Table.remove download_path d.path s.downloads;
  cache =
      Table.upsert cache_path
        (materialized_row d.path file (c.mtime (c.absolute d.path)) (some d.hash) (some d.size)
          d.state_version)
        s.cache;
}
settle_download c d (threw e) disk s = record s {
  disk = disk;
  downloads = Table.remove download_path d.path s.downloads;
  stream_error = box s.stream_error (failure_of d.path e);
}
settle_download c d aborted disk s = record s { disk = disk }
settle_download c d out_of_fuel disk s = record s { disk = disk }

-- After a `mkdirSync`, which throws where a file stands on the way.
abbrev pub made_directories :
    String → Option String × List Node → (List Node → Result Remote) → Result Remote
made_directories path (none, disk) go_on = go_on disk
made_directories path (some code, disk) go_on = throw (transport path)

abbrev pub with_directory : Arguments → EntryRow → Remote → List Node → Remote
with_directory c e s disk = record s {
  disk = disk;
  cache =
      Table.upsert cache_path
        (materialized_row e.path dir (c.mtime (c.absolute e.path)) none none e.state_version)
        s.cache;
}

unfoldable pub apply_directory : Arguments → EntryRow → Remote → Result Remote
unfolding mkdir_sync
apply_directory c e s =
    let absolute_path = c.absolute e.path in
    made_directories e.path (mkdir_sync (c.parents absolute_path ++ (absolute_path ∷ [])) s.disk)
      (λ disk. ok (with_directory c e s disk))

abbrev pub with_stub : Arguments → EntryRow → String → ObjectRow → Remote → List Node → Remote
with_stub c e hash o s disk =
    let stub_absolute_path = stub_path_for (c.absolute e.path) in
    record s {
      disk = write stub_absolute_path (stub hash) disk;
      cache =
          Table.upsert cache_path
            (materialized_row e.path file (c.mtime stub_absolute_path) (some hash) (some o.size)
              e.state_version)
            s.cache;
    }

-- `writeStubAtomic` renames a temporary file, which fails where a directory stands.
abbrev pub publish_stub :
    Arguments → EntryRow → String → ObjectRow → Remote → List Node → Result Remote
publish_stub c e hash o s disk =
    if is_directory (stub_path_for (c.absolute e.path)) disk
    then throw (transport e.path)
    else ok (with_stub c e hash o s disk)

unfoldable pub write_stub : Arguments → EntryRow → String → ObjectRow → Remote → Result Remote
unfolding mkdir_sync
write_stub c e hash o s =
    made_directories e.path (mkdir_sync (c.parents (c.absolute e.path)) s.disk)
      (publish_stub c e hash o s)

unfoldable pub dispatch_download : EntryRow → String → ObjectRow → Remote → Remote
dispatch_download e hash o s = record s {
  downloads =
      Table.upsert download_path
        (record { path = e.path; hash = hash; size = o.size; state_version = e.state_version })
        s.downloads;
}

unfoldable pub apply_object :
    Arguments → EntryRow → String → Option ObjectRow → Bool → Remote → Result Remote
unfolding write_stub dispatch_download
apply_object c e hash none write_as_stub s = throw (corruption e.path)
apply_object c e hash (some o) true s = write_stub c e hash o s
apply_object c e hash (some o) false s = ok (dispatch_download e hash o s)

-- `!entry.hash` holds of an empty text too.
unfoldable pub apply_file_content :
    Arguments → EntryRow → Option String → Bool → Remote → Result Remote
unfolding apply_object
apply_file_content c e none write_as_stub s = throw (invalid e.path)
apply_file_content c e (some hash) write_as_stub s =
    if hash == ""
    then throw (invalid e.path)
    else apply_object c e hash (get_object hash c.objects) write_as_stub s

-- `applyRemoteContentChange`
unfoldable pub apply_remote_content_change :
    Arguments → EntryRow → EntryType → Bool → Remote → Result Remote
unfolding apply_directory apply_file_content
apply_remote_content_change c e dir write_as_stub s = apply_directory c e s
apply_remote_content_change c e file write_as_stub s = apply_file_content c e e.hash write_as_stub s

abbrev remove_real : Bool → EntryType → String → List Node → List Node
remove_real is_empty dir absolute_path disk = rmdir_sync is_empty absolute_path disk
remove_real is_empty file absolute_path disk = rm_sync absolute_path disk

-- `applyRemoteDelete`
unfoldable pub apply_remote_delete : Arguments → String → EntryType → Remote → Remote
apply_remote_delete c path type s =
    let absolute_path = c.absolute path in
    record s {
      disk =
          rm_sync (stub_path_for absolute_path)
            (remove_real (c.is_empty absolute_path) type absolute_path s.disk);
      cache = Table.remove cache_path path s.cache;
    }

unfoldable pub note_ignored : String → Option String → Remote → Remote
note_ignored path none s = s
note_ignored path (some pattern) s = record s {
  ignored_but_synced =
      s.ignored_but_synced ++ (record { path = path; matched_glob = pattern } ∷ []);
}

-- The three branches of the loop, for a path that is not excluded.
unfoldable pub apply_included : Arguments → Step EntryRow → Remote → Result Remote
unfolding apply_remote_content_change apply_remote_delete note_ignored
apply_included c (remote_only e) s = apply_remote_content_change c e e.type true s >>= λ s'. ok (
    note_ignored e.path (matches_any_glob c.matches e.path c.ignore_globs)
      (record s' { created = s'.created + 1 }))
apply_included c (local_only r) s =
    let s' = apply_remote_delete c r.path r.type s in ok (record s' { deleted = s'.deleted + 1 })
apply_included c (both r e) s =
    let stubbed = currently_stub_backed (c.absolute e.path) s.disk in
    if r.hash == e.hash
    then ok s
    else (apply_remote_content_change c e e.type stubbed s >>= λ s'.
        ok (record s' { modified = s'.modified + 1 }))

unfoldable pub apply_step : Arguments → Step EntryRow → Remote → Result Remote
unfolding apply_included
apply_step c x s =
    if contains (step_path entry_path x) c.exclude_paths then ok s else apply_included c x s

pub data Event : Type 0 where
  next_path : Event
  -- the download at a path goes on for some attempts, with their answers
  download_answer : String → (ℕ → GetAnswer) → ℕ → Event

pub record Pass : Type 0 where
  pub steps : List (Step EntryRow)
  pub run : Remote

next_step : Arguments → List (Step EntryRow) → Remote → Result Pass
next_step c [] s = ok (record { steps = []; run = s })
next_step c (x ∷ steps) s = apply_step c x s >>= λ s'. ok (record { steps = steps; run = s' })

end_download : Arguments → (ℕ → GetAnswer) → ℕ → Option Download → Remote → Remote
end_download c answers fuel none s = s
end_download c answers fuel (some d) s =
    let (r, disk) = run_download c d answers fuel s.disk in settle_download c d r disk s

unfoldable pub remote_turn : Arguments → Event → Pass → Result Pass
unfolding next_step end_download
remote_turn c next_path l = next_step c l.steps l.run
remote_turn c (download_answer path answers fuel) l = ok (record l {
  run = end_download c answers fuel (Table.find download_path path l.run.downloads) l.run;
})

unfoldable pub remote_schedule : Arguments → List Event → Pass → Result Pass
remote_schedule c [] l = ok l
remote_schedule c (e ∷ events) l = remote_turn c e l >>= λ l'. remote_schedule c events l'

abbrev pub start_remote : List CacheEntryRow → List Node → Remote
start_remote cache disk = record {
  cache = cache;
  disk = disk;
  downloads = [];
  stream_error = none;
  created = 0;
  modified = 0;
  deleted = 0;
  ignored_but_synced = [];
}

-- `applyRemoteChangesToLocal`. The loop reads cache.db in pages while it changes it, always at paths
-- that it has passed, so that the rows it meets are those of the start.
unfoldable pub apply_remote_changes :
    Arguments
    → (String → String → Bool)
    → List CacheEntryRow
    → List EntryRow
    → List Node
    → List Event
    → Result Pass
apply_remote_changes c lt cache entries disk schedule =
    remote_schedule c schedule
      (record { steps = merge_join entry_path lt cache entries; run = start_remote cache disk })
    >>= λ l. throw_if_pool_errored l.run.stream_error >>= λ _. ok l
