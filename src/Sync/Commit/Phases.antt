-- ===== src/Sync/Commit/Phases.antt =====
-- The three phases of `performSync` on the machine's own state: the scan, the folding of the dirty
-- rows into the candidate, and the pull. A phase that throws leaves what it had done; one whose
-- schedule stops before its end is still awaited.
pub mod Same
pub mod Effects
use sync.Prelude.{
  ℕ, String, Bool, true, false, ◌&&◌, Option, none, some, List, [], ◌∷◌, map, if◌then◌else◌,
}
use sync.Prelude.Acts.{Outcome, Act, finished, threw, unfinished}
use sync.Errors.{Failure, Result, ok, throw}
use sync.Fs.Disk.{Node, stub_path_for, rm_sync}
use sync.Db.Ordered.{order_by}
use sync.UpdateCache as Scanning
use sync.UpdateCache.Run as ScanRun
use sync.Sync.Rows.{CacheEntryRow, EntryRow, ObjectRow, cache_path, entry_path}
use sync.Sync.MergeJoin.{Step, merge_join}
use sync.Sync.Upload.{OnMirrorMaxRetries}
use sync.Sync.Schedule as Local
use sync.Sync.ApplyRemote as Remote
use sync.Sync.Snapshot.{Tables}

-- The files of a machine: the local state.db, the version that it was last synced to, the marker of
-- an upload in progress, cache.db, the tracked folder, and the two temporary databases.
pub record Machine : Type 0 where
  pub state_db : Tables
  pub last_synced : String
  pub marker : Bool
  pub cache : List CacheEntryRow
  pub disk : List Node
  pub candidate : Option Tables
  pub remote_fresh : Option Tables

-- What the functions of a run read besides: the order of paths in JavaScript (`<`), with which the
-- loops compare, and in SQLite (`ORDER BY path`), in which the rows come; the paths, the walk through the folder, and the orders in
-- which hash workers, the bucket and the mirror answer.
pub record Surroundings : Type 0 where
  pub lt : String → String → Bool
  pub db_lt : String → String → Bool
  pub collision_key : String → String
  pub object_key : String → String
  pub absolute : String → String
  pub parents : String → List String
  pub in_tree_temp_path : String → ℕ → String
  pub matches : String → String → Bool
  pub basename_bytes : String → ℕ
  pub read_stub_hash : String → Result String
  pub hash_file : String → Result String
  pub mtime : String → ℕ
  pub is_empty : String → Bool
  pub walk : List Scanning.WalkEntry
  pub mode : OnMirrorMaxRetries
  pub scan_events : List ScanRun.Event
  pub local_events : List Local.Event
  pub remote_events : List Remote.Event

abbrev pub nothing_left {ℓ} : {A : Type ℓ} → List A → Bool
nothing_left [] = true
nothing_left (x ∷ xs) = false

-- The pass that a scan had come to when it threw.
unfoldable pub scan_left : Scanning.Arguments → List ScanRun.Event → ScanRun.Pass → ScanRun.Pass
scan_left c [] l = l
scan_left c (e ∷ events) l = elim (ScanRun.scan_turn c e l) [
  | ok l' ↦ scan_left c events l'
  | throw _ ↦ l
]

unfoldable pub remote_left : Remote.Arguments → List Remote.Event → Remote.Pass → Remote.Pass
remote_left c [] l = l
remote_left c (e ∷ events) l = elim (Remote.remote_turn c e l) [
  | ok l' ↦ remote_left c events l'
  | throw _ ↦ l
]

-- The stubs that the scan removed beside a real file.
unfoldable pub remove_stubs : (String → String) → List String → List Node → List Node
remove_stubs absolute [] disk = disk
remove_stubs absolute (path ∷ paths) disk =
    remove_stubs absolute paths (rm_sync (stub_path_for (absolute path)) disk)

abbrev pub candidate_of : Tables → Local.Candidate
candidate_of t = (t.entries, t.deletions, t.objects, t.versions)

-- The candidate after the run, with the tables that the run does not write.
abbrev pub folded : Tables → Local.Loop → Tables
folded t l = record t {
  entries = l.run.entries;
  deletions = l.run.deletions;
  objects = l.run.objects;
  versions = l.run.versions;
}

module _ (v : Surroundings) where
  abbrev pub scan_arguments : Machine → Scanning.Arguments
  scan_arguments m = record {
    basename_bytes = v.basename_bytes;
    read_stub_hash = v.read_stub_hash;
    hash_file = v.hash_file;
    matches = v.matches;
    ignore_globs = m.state_db.ignore_globs;
    objects = m.state_db.objects;
    last_synced_version = m.last_synced;
  }

  scanned_to : ScanRun.Pass → List CacheEntryRow → Machine → Machine
  unfolding remove_stubs
  scanned_to l cache m = record m {
    cache = cache;
    disk = remove_stubs v.absolute l.scan.removed_stubs m.disk;
  }

  scan_ended : ScanRun.Updated → Bool → Machine → Outcome ScanRun.Updated × Machine
  scan_ended u true m = (finished u, scanned_to u.pass u.cache m)
  scan_ended u false m = (unfinished, scanned_to u.pass u.pass.scan.cache m)

  scan_result : ScanRun.Pass → Result ScanRun.Updated → Machine → Outcome ScanRun.Updated × Machine
  scan_result left (ok u) m =
      scan_ended u (nothing_left u.pass.steps && nothing_left u.pass.scan.jobs) m
  scan_result left (throw e) m = (threw e, scanned_to left left.scan.cache m)

  -- cache.db as the phases list it.
  abbrev pub listed : Machine → List CacheEntryRow
  listed m = order_by cache_path v.db_lt m.cache

  abbrev pub scan_stop : Machine → ScanRun.Pass
  scan_stop m = scan_left (scan_arguments m) v.scan_events (record {
    steps = merge_join Scanning.walk_path v.lt (listed m) v.walk;
    scan = ScanRun.start_scan (listed m);
    hash_error = none;
  })

  -- `performUpdateCache`
  unfoldable pub scan : Act Machine ScanRun.Updated
  unfolding scan_result scan_ended scanned_to scan_left ScanRun.perform_update_cache
  scan m =
      scan_result (scan_stop m)
        (ScanRun.perform_update_cache (scan_arguments m) v.collision_key v.lt (listed m) v.walk
          v.scan_events)
        m

  abbrev pub settings : String → Bool → Local.Settings
  settings version_stamp verify_remote = record {
    collision_key = v.collision_key;
    object_key = v.object_key;
    version_stamp = version_stamp;
    verify_remote = verify_remote;
    mode = v.mode;
  }

  local_ended : Tables → Local.Loop → Bool → Machine → Outcome Local.Loop × Machine
  local_ended t l true m = (finished l, record m { candidate = some (folded t l) })
  local_ended t l false m = (unfinished, record m { candidate = some (folded t l) })

  local_result : Tables → Result Local.Loop → Machine → Outcome Local.Loop × Machine
  local_result t (ok l) m =
      local_ended t l (nothing_left l.rows && nothing_left l.run.in_flight_by_hash) m
  local_result t (throw e) m = (threw e, m)

  -- `applyLocalChangesToCandidate`, behind the marker. What a run that throws has written to the
  -- candidate is not kept: the file is removed unread.
  unfoldable pub apply_local : String → Bool → Tables → List CacheEntryRow → Act Machine Local.Loop
  unfolding local_result local_ended Local.apply_local_changes
  apply_local version_stamp verify_remote t dirty m =
      local_result t
        (Local.apply_local_changes (settings version_stamp verify_remote) (candidate_of t) dirty
          v.local_events)
        (record m { marker = true })

  abbrev pub remote_arguments : Tables → List String → Remote.Arguments
  remote_arguments candidate exclude_paths = record {
    absolute = v.absolute;
    parents = v.parents;
    in_tree_temp_path = v.in_tree_temp_path;
    mtime = v.mtime;
    is_empty = v.is_empty;
    matches = v.matches;
    ignore_globs = candidate.ignore_globs;
    exclude_paths = exclude_paths;
    objects = candidate.objects;
  }

  pulled_to : Remote.Remote → Machine → Machine
  pulled_to s m = record m { cache = s.cache; disk = s.disk }

  remote_ended : Remote.Pass → Bool → Machine → Outcome Remote.Remote × Machine
  remote_ended l true m = (finished l.run, pulled_to l.run m)
  remote_ended l false m = (unfinished, pulled_to l.run m)

  remote_result : Remote.Pass → Result Remote.Pass → Machine → Outcome Remote.Remote × Machine
  remote_result left (ok l) m =
      remote_ended l (nothing_left l.steps && nothing_left l.run.downloads) m
  remote_result left (throw e) m = (threw e, pulled_to left.run m)

  abbrev pub sorted_entries : Tables → List EntryRow
  sorted_entries t = order_by entry_path v.db_lt t.entries

  abbrev pub remote_stop : Tables → List String → Machine → Remote.Pass
  remote_stop t exclude_paths m =
      remote_left (remote_arguments t exclude_paths) v.remote_events (record {
        steps = merge_join entry_path v.lt (listed m) (sorted_entries t);
        run = Remote.start_remote (listed m) m.disk;
      })

  -- `applyRemoteChangesToLocal`
  unfoldable pub apply_remote : Tables → List String → Act Machine Remote.Remote
  unfolding remote_result remote_ended pulled_to remote_left Remote.apply_remote_changes
  apply_remote t exclude_paths m =
      remote_result (remote_stop t exclude_paths m)
        (Remote.apply_remote_changes (remote_arguments t exclude_paths) v.lt (listed m)
          (sorted_entries t) m.disk v.remote_events)
        m
