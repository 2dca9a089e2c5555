-- ===== src/Sync/Commit.antt =====
-- src/sync/commit.ts: `performSync`, the whole of one sync, over the machine's files and the bucket.
-- The phases are those of Sync/Commit/Phases, the requests those of Sync/Commit/Bucket. The
-- order in which SQLite lists paths and the one that the loops compare with are two parameters.
-- Progress, logging and the copies to the mirror, which never fail a run, are left out.
pub mod Bucket
pub mod Phases
pub mod Held
pub mod Keeps
pub mod AtPaths
pub mod Settles
use sync.Prelude.{
  ℕ, ◌+◌, String, Bool, true, false, not, ◌&&◌, ◌||◌, Option, none, some, List, [], ◌∷◌, length,
  map, ltb, ◌==◌, if◌then◌else◌, string_eq, nat_eq, option_eq,
}
use sync.Prelude.Acts.{
  Outcome, Act, finished, threw, unfinished, pure, read, raise, of_result, finally, change, ◌>>=◌,
  ◌>>◌,
}
use sync.Errors.{Failure, Result, ok, throw}
use sync.UpdateCache.Collisions.{CaseCollision}
use sync.UpdateCache.Run.{Updated}
use sync.S3.Retry.{ErrorChain, nothing, error, RetryResult, resolved, aborted, out_of_fuel}
use sync.Sync.Rows.{CacheEntryRow, cache_path}
use sync.Sync.Dirty.{iterate_dirty, count_dirty}
use sync.Sync.Candidate.{SyncConflict, SyncFailure, Handled}
use sync.Sync.Schedule.{Loop}
use sync.Sync.ApplyRemote.{Remote, IgnoredButSyncedEntry}
use sync.Sync.Reconcile.{filter_by_path, reconcile_cache_after_commit}
use sync.Sync.CommitPointer.{PointerStore, World, Turn, commit_current_pointer}
use sync.Sync.Snapshot.{Tables, SnapshotCodec}
use sync.Sync.Commit.Bucket.{
  Vault, Other, Request, get_snapshot, others_act, get_attempt, put_attempt, retried,
}
use sync.Sync.Commit.Phases.{Machine, Surroundings, scan, apply_local, apply_remote, folded}

-- `SyncResult`
pub record SyncResult : Type 0 where
  pub version_stamp : String
  pub nothing_to_sync : Bool
  pub uploaded_objects : ℕ
  pub deduped_objects : ℕ
  pub mirrored_objects : ℕ
  pub mirror_failures : ℕ
  pub local_entries_changed : ℕ
  pub remote_created : ℕ
  pub remote_modified : ℕ
  pub remote_deleted : ℕ
  pub conflicts : List SyncConflict
  pub failed : List SyncFailure
  pub case_collisions : List CaseCollision
  pub ignored_but_synced : List IgnoredButSyncedEntry
  pub dropped_ignored : List String

-- `decryptBuffer`, whose authentication error is reported as corruption.
unfoldable pub decrypted : Result Tables → Result Tables
decrypted (ok t) = ok t
decrypted (throw Failure.crypto_auth) =
    throw (Failure.corruption "remote state.db snapshot failed decryption/authentication")
decrypted (throw e) = throw e

-- The body and the ETag of `/current`, which an object has both.
abbrev pub current_of : Option String → Option String → Option (String × String)
current_of (some body) (some etag) = some (body, etag)
current_of _ _ = none

unfoldable pub is_cas_conflict : ErrorChain → Bool
is_cas_conflict nothing = false
is_cas_conflict (error name code status cause) = name == some "CasConflictError"

-- What `performSync` makes of the end of `commitCurrentPointer`.
unfoldable pub committed : RetryResult (Unit {0}) → Outcome (Unit {0})
committed (resolved a) = finished tt
committed (RetryResult.threw e) =
    if is_cas_conflict e then threw Failure.remote_diverged else threw (Failure.transport "S3")
committed aborted = threw Failure.aborted
committed out_of_fuel = unfinished

module _ (B : PointerStore) (K : SnapshotCodec) where
  pub record State : Type 0 where
    pub machine : Machine
    pub vault : Vault B K

  -- What a run is given and meets: its flag, its stamp and random context, its requests, and what
  -- other machines do while it is busy before it commits.
  pub record Environment : Type 0 where
    pub around : Surroundings
    pub force_verify_remote : Bool
    pub version_stamp : String
    pub context : K.Context
    pub current_requests : ℕ → Request B K
    pub snapshot_requests : ℕ → Request B K
    pub put_requests : ℕ → Request B K
    pub others_before_commit : List (Other B K)
    pub commit_turns : ℕ → Turn
    pub fuel : ℕ

  abbrev pub on_machine : {A : Type 0} → Act Machine A → Act State A
  on_machine m s = let (o, m') = m s.machine in (o, record s { machine = m' })

  abbrev pub on_vault : {A : Type 0} → Act (Vault B K) A → Act State A
  on_vault m s = let (o, v) = m s.vault in (o, record s { vault = v })

  abbrev pub look_at_current : Vault B K → Option (String × String)
  look_at_current v = current_of (B.body v.pointer.state) (B.etag v.pointer.state)

  -- A snapshot that was fetched is opened, and kept in a temporary file.
  unfoldable pub open_fresh : Option (String × K.Body) → Act State Tables
  unfolding decrypted
  open_fresh none = raise (Failure.corruption "state.db snapshot is missing")
  open_fresh (some (stamp, body)) = do
    fresh ← of_result (decrypted (K.open_body body))
    on_machine (change (λ m. record m { remote_fresh = some fresh }))
    pure fresh

  -- The remote's state.db: the local one if `/current` has not moved, and otherwise the snapshot.
  unfoldable pub fetch_fresh : Environment → Bool → String → Act State Tables
  unfolding retried get_attempt open_fresh
  fetch_fresh env false stamp = read (λ s. s.machine.state_db)
  fetch_fresh env true stamp = do
    snapshot ←
        on_vault
          (retried B K (get_attempt B K (get_snapshot B K stamp) env.snapshot_requests) env.fuel)
    open_fresh snapshot

  unfoldable pub adopt : Bool → String → Tables → Act Machine (Unit {0})
  adopt false stamp fresh = pure tt
  adopt true stamp fresh = change (λ m. record m { state_db = fresh; last_synced = stamp })

  abbrev pub with_cache : Machine → Result (List CacheEntryRow) → Outcome (Unit {0}) × Machine
  with_cache m (ok cache) = (finished tt, record m { cache = cache })
  with_cache m (throw e) = (threw e, m)

  -- `reconcileCacheAfterCommit` of the handled rows that are dirty now.
  unfoldable pub reconcile : (String → String → Bool) → List Handled → Act Machine (Unit {0})
  unfolding iterate_dirty filter_by_path reconcile_cache_after_commit
  reconcile lt handled m = with_cache m (
      reconcile_cache_after_commit (filter_by_path (iterate_dirty lt m.cache) handled) handled
        m.cache)

  -- No new version: the remote's is adopted if it moved.
  unfoldable pub end_without_commit :
      Environment → Updated → ℕ → Bool → String → Tables → Loop → Remote → Act State SyncResult
  unfolding adopt reconcile
  end_without_commit env scanned dirty_count moved stamp fresh l pulled = do
    on_machine (change (λ m. record m { marker = false }))
    on_machine (adopt moved stamp fresh)
    on_machine (reconcile env.around.db_lt l.run.handled_paths)
    pure (record {
      version_stamp = stamp;
      nothing_to_sync =
          dirty_count == 0
          && pulled.created + pulled.modified + pulled.deleted == 0
          && length l.run.conflicts == 0;
      uploaded_objects = 0;
      deduped_objects = 0;
      mirrored_objects = 0;
      mirror_failures = 0;
      local_entries_changed = length l.run.handled_paths;
      remote_created = pulled.created;
      remote_modified = pulled.modified;
      remote_deleted = pulled.deleted;
      conflicts = l.run.conflicts;
      failed = l.run.failed;
      case_collisions = scanned.collisions;
      ignored_but_synced = pulled.ignored_but_synced;
      dropped_ignored = scanned.pass.scan.stats.dropped_ignored;
    })

  unfoldable pub commit_pointer : Environment → String → Act (Vault B K) (Unit {0})
  unfolding others_act commit_current_pointer committed
  commit_pointer env etag v =
      let v' = others_act B K env.others_before_commit v in
      let (r, w) =
        commit_current_pointer B env.version_stamp etag env.commit_turns env.fuel v'.pointer in
      (committed r, record v' { pointer = w })

  abbrev pub commit_result : Environment → Updated → Loop → Remote → SyncResult
  commit_result env scanned l pulled = record {
    version_stamp = env.version_stamp;
    nothing_to_sync = false;
    uploaded_objects = l.run.uploaded_objects;
    deduped_objects = l.run.deduped_objects;
    mirrored_objects = l.run.mirrored_objects;
    mirror_failures = l.run.mirror_failures;
    local_entries_changed = length l.run.handled_paths;
    remote_created = pulled.created;
    remote_modified = pulled.modified;
    remote_deleted = pulled.deleted;
    conflicts = l.run.conflicts;
    failed = l.run.failed;
    case_collisions = scanned.collisions;
    ignored_but_synced = pulled.ignored_but_synced;
    dropped_ignored = scanned.pass.scan.stats.dropped_ignored;
  }

  -- The snapshot, then the pointer, then the machine's own files.
  unfoldable pub end_with_commit :
      Environment → Updated → String → Tables → Loop → Remote → Act State SyncResult
  unfolding retried put_attempt commit_pointer reconcile
  end_with_commit env scanned etag candidate l pulled = do
    body ← of_result (K.seal env.context candidate)
    on_vault (retried B K (put_attempt B K env.version_stamp body env.put_requests) env.fuel)
    on_vault (commit_pointer env etag)
    on_machine (change (λ m. record m { state_db = candidate; candidate = none }))
    on_machine (change (λ m. record m { last_synced = env.version_stamp; marker = false }))
    on_machine (reconcile env.around.db_lt l.run.handled_paths)
    pure (commit_result env scanned l pulled)

  -- The inner `try`: from the candidate's copy on.
  unfoldable pub sync_candidate :
      Environment → Bool → Updated → ℕ → Bool → String → String → Tables → Act State SyncResult
  unfolding end_without_commit end_with_commit iterate_dirty apply_local apply_remote
  sync_candidate env verify_remote scanned dirty_count moved stamp etag fresh = do
    dirty ← read (λ s. iterate_dirty env.around.db_lt s.machine.cache)
    l ← on_machine (apply_local env.around env.version_stamp verify_remote fresh dirty)
    pulled ← on_machine (apply_remote env.around (folded fresh l) (map cache_path dirty))
    if ltb 0 l.run.applied_count
        then end_with_commit env scanned etag (folded fresh l) l pulled
        else end_without_commit env scanned dirty_count moved stamp fresh l pulled

  abbrev pub remove_temporary : State → State
  remove_temporary s = record s {
    machine = record s.machine { candidate = none; remote_fresh = none };
  }

  -- What follows the GET of `/current`.
  unfoldable pub after_current :
      Environment → Bool → Updated → ℕ → String → Option (String × String) → Act State SyncResult
  unfolding fetch_fresh sync_candidate
  after_current env verify_remote scanned dirty_count last_synced none =
      raise (Failure.corruption "vault has no /current pointer (corrupt vault?)")
  after_current env verify_remote scanned dirty_count last_synced (some (stamp, etag)) = do
    let moved = not (stamp == last_synced)
    fresh ← fetch_fresh env moved stamp
    on_machine (change (λ m. record m { candidate = some fresh }))
    finally (sync_candidate env verify_remote scanned dirty_count moved stamp etag fresh)
        remove_temporary

  -- `performSync`
  unfoldable pub perform_sync : Environment → Act State SyncResult
  unfolding scan count_dirty get_attempt retried after_current
  perform_sync env = do
    last_synced ← read (λ s. s.machine.last_synced)
    verify_remote ← read (λ s. env.force_verify_remote || s.machine.marker)
    scanned ← on_machine (scan env.around)
    dirty_count ← read (λ s. count_dirty s.machine.cache)
    current ← on_vault (retried B K (get_attempt B K look_at_current env.current_requests) env.fuel)
    after_current env verify_remote scanned dirty_count last_synced current
