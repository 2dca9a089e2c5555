-- ===== src/UpdateCache/Run.antt =====
-- `performUpdateCache` and `applyStagedRows` of src/fs/update-cache.ts: the loop under a schedule, the
-- wait for the jobs, the collisions, and the staged rows applied in batches.
use sync.Prelude.{
  ℕ, String, Bool, Option, none, some, List, [], ◌∷◌, ◌++◌, map, leb, length, contains,
  if◌then◌else◌, string_eq,
}
use sync.Prelude.Table
use sync.Errors.{Failure, Result, ok, throw, ◌>>=◌, ◌>>◌}
use sync.Sync.Rows.{CacheEntryRow, cache_path}
use sync.Sync.MergeJoin.{Step, merge_join}
use sync.UpdateCache.{
  WalkEntry, walk_path, Arguments, HashJob, job_path, Scan, UpdateCacheStats, finalize_created,
  finalize_existing, scan_step,
}
use sync.UpdateCache.Collisions.{CaseCollision, collision_path, detect_case_collisions}

pub data Event : Type 0 where
  next_entry : Event
  -- the job at a path ends
  hashed : String → Event

-- What is left of the loop, the scan, and the first error of a job.
pub record Pass : Type 0 where
  pub steps : List (Step WalkEntry)
  pub scan : Scan
  pub hash_error : Option Failure

-- The first error stays.
unfoldable pub keep_error : Option Failure → Failure → Option Failure
keep_error none e = some e
keep_error (some first) e = some first

unfoldable pub finalize_job :
    Arguments → WalkEntry → Option CacheEntryRow → String → Scan → Result Scan
unfolding finalize_created finalize_existing
finalize_job c e none hash s = finalize_created c e (some hash) (some e.size) s
finalize_job c e (some r) hash s = finalize_existing e r (some hash) (some e.size) s

-- What a task leaves: the scan that it went on to, or its error.
unfoldable pub settle : Pass → Scan → Result Scan → Pass
unfolding keep_error
settle l left (ok s) = record l { scan = s }
settle l left (throw e) = record l { scan = left; hash_error = keep_error l.hash_error e }

unfoldable pub end_job : Arguments → Option HashJob → Pass → Pass
unfolding settle finalize_job
end_job c none l = l
end_job c (some j) l =
    let left = record l.scan { jobs = Table.remove job_path j.entry.path l.scan.jobs } in
    settle l left (c.hash_file j.entry.path >>= λ hash. finalize_job c j.entry j.row hash left)

unfoldable pub next_step : Arguments → List (Step WalkEntry) → Pass → Result Pass
unfolding scan_step
next_step c [] l = ok l
next_step c (x ∷ steps) l = scan_step c x l.scan >>= λ s. ok (record l { steps = steps; scan = s })

unfoldable pub scan_turn : Arguments → Event → Pass → Result Pass
unfolding next_step end_job
scan_turn c next_entry l = next_step c l.steps l
scan_turn c (hashed path) l = ok (end_job c (Table.find job_path path l.scan.jobs) l)

unfoldable pub scan_schedule : Arguments → List Event → Pass → Result Pass
unfolding scan_turn
scan_schedule c [] l = ok l
scan_schedule c (e ∷ events) l = scan_turn c e l >>= λ l'. scan_schedule c events l'

abbrev pub no_stats : UpdateCacheStats
no_stats = record {
  created = 0;
  modified = 0;
  deleted = 0;
  unchanged = 0;
  ignored = 0;
  dropped_ignored = [];
}

abbrev pub start_scan : List CacheEntryRow → Scan
start_scan cache = record {
  cache = cache;
  staged = [];
  jobs = [];
  removed_stubs = [];
  stats = no_stats;
}

abbrev pub apply_batch_size : ℕ
apply_batch_size = 500

unfoldable pub flush : List CacheEntryRow → List CacheEntryRow → List CacheEntryRow
flush [] cache = cache
flush (row ∷ batch) cache = flush batch (Table.upsert cache_path row cache)

-- The rows that are left, and the batch so far.
unfoldable pub apply_rows :
    List String → List CacheEntryRow → List CacheEntryRow → List CacheEntryRow → List CacheEntryRow
unfolding flush
apply_rows excluded [] batch cache = flush batch cache
apply_rows excluded (row ∷ rows) batch cache =
    let batch' = batch ++ (row ∷ []) in
    let skipped = apply_rows excluded rows batch cache in
    let flushed = apply_rows excluded rows [] (flush batch' cache) in
    let pushed = apply_rows excluded rows batch' cache in
    if contains row.path excluded
    then skipped
    else if leb apply_batch_size (length batch')
    then flushed
    else pushed

unfoldable pub apply_staged_rows :
    List CacheEntryRow → List String → List CacheEntryRow → List CacheEntryRow
unfolding apply_rows
apply_staged_rows staged excluded cache = apply_rows excluded staged [] cache

-- `onIdle` throws the first error of a job.
unfoldable pub on_idle : Option Failure → Result (Unit {0})
on_idle none = ok tt
on_idle (some e) = throw e

-- What a run leaves: cache.db, and the collisions that it reports. A schedule under which the loop or
-- a job has not ended is not a whole run: the result carries what is left.
pub record Updated : Type 0 where
  pub cache : List CacheEntryRow
  pub collisions : List CaseCollision
  pub pass : Pass

unfoldable pub finish : (String → String) → Pass → Updated
unfolding detect_case_collisions apply_staged_rows
finish collision_key l =
    let collisions = detect_case_collisions collision_key l.scan.staged l.scan.cache in
    record {
      cache = apply_staged_rows l.scan.staged (map collision_path collisions) l.scan.cache;
      collisions = collisions;
      pass = l;
    }

unfoldable pub perform_update_cache :
    Arguments
    → (String → String)
    → (String → String → Bool)
    → List CacheEntryRow
    → List WalkEntry
    → List Event
    → Result Updated
unfolding scan_schedule on_idle finish
perform_update_cache c collision_key lt cache walk schedule =
    scan_schedule c schedule (record {
      steps = merge_join walk_path lt cache walk;
      scan = start_scan cache;
      hash_error = none;
    })
    >>= λ l. on_idle l.hash_error >> ok (finish collision_key l)
