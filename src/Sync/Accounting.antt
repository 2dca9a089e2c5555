-- ===== src/Sync/Accounting.antt =====
-- No dirty row is lost: at every point of a run each row is still to come, rides on a job that is in
-- flight, or was resolved (handled, left as a conflict, or reported as failed), unless a pool has
-- failed and the run is about to throw.
pub mod Jobs
pub mod Rows
pub mod Schedules
use sync.Prelude.{
  String, Bool, true, List, [], ◌∷◌, ◌++◌, ◌≡◌, ◌||◌, map, contains, arith, string_eq, some, ◌==◌,
}
use sync.Prelude.Table
use sync.Sync.Rows.{CacheEntryRow, cache_path}
use sync.Sync.Candidate.{Job, Run, SyncConflict, SyncFailure, handled_path, job_hash}
use sync.Sync.Upload.{source_paths}
use sync.Sync.Schedule.{has_error}

abbrev pub conflict_path : SyncConflict → String
conflict_path x = x.path

abbrev pub failure_path : SyncFailure → String
failure_path x = x.path

unfoldable pub resolved : String → Run → Bool
resolved p s =
    Table.has handled_path p s.handled_paths
    || contains p (map conflict_path s.conflicts)
    || contains p (map failure_path s.failed)

unfoldable pub failing : Run → Bool
failing s = has_error s.stream_error || has_error s.metadata_error

pub data IsAccounted (p : String) (rows : List CacheEntryRow) (s : Run) : Type 0 where
  pending : contains p (map cache_path rows) ≡ true → IsAccounted p rows s
  settled : resolved p s ≡ true → IsAccounted p rows s
  riding :
      (hash : String) (j : Job)
      → Table.find job_hash hash s.in_flight_by_hash ≡ some j
      → contains p (source_paths j) ≡ true
      → IsAccounted p rows s
  aborted : failing s ≡ true → IsAccounted p rows s

pub contains-append :
    (p : String) (xs ys : List String) → contains p (xs ++ ys) ≡ (contains p xs || contains p ys)
contains-append p [] ys = ground arith
contains-append p (x ∷ xs) ys = ground (arith, contains-append p xs ys)
