-- ===== src/Sync/Candidate.antt =====
-- The candidate state.db of one sync run and the run's tallies: the variables of
-- `applyLocalChangesToCandidate` (src/sync/apply-local-changes.ts) and the repository calls that
-- change them. `stored` lists the content that this run knows to be in the bucket: uploads that S3
-- accepted and objects that a HEAD found there with a checksum.
use sync.Prelude.{ℕ, String, Bool, Option, none, some, List, [], ◌∷◌, ◌++◌, ◌+◌, string_eq}
use sync.Prelude.Table
use sync.Errors.{Failure}
use sync.Sync.Rows.{EntryType, EntryRow, EntryDeletionRow, ObjectRow, entry_path, object_hash}

pub record SourceRow : Type 0 where
  pub path : String
  pub type : EntryType

-- Where the asynchronous work on a job stands: its HEAD check is out, or its upload job runs with
-- the checksum that the HEAD check found.
pub data Phase : Type 0 where
  heading : Phase
  uploading : Option String → Phase

-- `InFlightUpload`, with the variables that the job's closure captures from its dispatching row.
pub record Job : Type 0 where
  pub hash : String
  pub source_rows : List SourceRow
  pub size : ℕ
  pub mtime : Option ℕ
  pub already_on_s3 : Bool
  pub mirror_needs_object : Bool
  pub phase : Phase

-- An entry of `handledPaths`.
pub record Handled : Type 0 where
  pub path : String
  pub stamp : Option String

-- An entry of `inFlightByNormalizedPath`.
pub record Claim : Type 0 where
  pub normalized : String
  pub path : String

pub record SyncConflict : Type 0 where
  pub path : String
  pub reason : String

pub record SyncFailure : Type 0 where
  pub path : String
  pub hash : String
  pub error : String

pub record Run : Type 0 where
  pub entries : List EntryRow
  pub deletions : List EntryDeletionRow
  pub objects : List ObjectRow
  pub versions : List String
  pub in_flight_by_hash : List Job
  pub in_flight_by_normalized_path : List Claim
  pub uploaded_objects : ℕ
  pub mirrored_objects : ℕ
  pub mirror_failures : ℕ
  pub deduped_objects : ℕ
  pub applied_count : ℕ
  pub handled_paths : List Handled
  pub conflicts : List SyncConflict
  pub failed : List SyncFailure
  pub metadata_error : Option Failure
  pub stream_error : Option Failure

abbrev pub job_hash : Job → String
job_hash j = j.hash

abbrev pub handled_path : Handled → String
handled_path h = h.path

abbrev pub claim_key : Claim → String
claim_key c = c.normalized

abbrev pub get_handled : String → List Handled → Option Handled
get_handled = Table.find handled_path

-- `objectKey` of src/vault/paths.ts is a parameter where it is used; the version row comes first.
abbrev pub start_run :
    List EntryRow → List EntryDeletionRow → List ObjectRow → List String → String → Run
start_run entries deletions objects versions version_stamp = record {
  entries = entries;
  deletions = deletions;
  objects = objects;
  versions = versions ++ (version_stamp ∷ []);
  in_flight_by_hash = [];
  in_flight_by_normalized_path = [];
  uploaded_objects = 0;
  mirrored_objects = 0;
  mirror_failures = 0;
  deduped_objects = 0;
  applied_count = 0;
  handled_paths = [];
  conflicts = [];
  failed = [];
  metadata_error = none;
  stream_error = none;
}

-- `conflicts.push({ path, reason })`
unfoldable pub add_conflict : String → String → Run → Run
add_conflict path reason s = record s {
  conflicts = s.conflicts ++ (record { path = path; reason = reason } ∷ []);
}

-- `handledPaths.set(path, stamp)`
unfoldable pub set_handled : String → Option String → Run → Run
set_handled path stamp s = record s {
  handled_paths = Table.upsert handled_path (record { path = path; stamp = stamp }) s.handled_paths;
}

-- `entriesRepo.upsert({ path, type, hash, state_version })` with the bookkeeping that stands beside
-- it at each of its calls: the path is handled at this run's stamp and one more change is applied.
unfoldable pub write_entry : String → String → EntryType → Option String → Run → Run
unfolding set_handled
write_entry version_stamp path type hash s =
    let s' = set_handled path (some version_stamp) s in
    record s' {
      applied_count = s'.applied_count + 1;
      entries =
          Table.upsert entry_path
            (record { path = path; type = type; hash = hash; state_version = version_stamp })
            s'.entries;
    }

-- `EntriesRepository.deleteWithHistory`
unfoldable pub delete_with_history : EntryRow → String → Run → Run
delete_with_history entry deleted_in_version s = record s {
  entries = Table.remove entry_path entry.path s.entries;
  deletions =
      s.deletions
      ++ (record {
        path = entry.path;
        type = entry.type;
        hash = entry.hash;
        introduced_in_version = entry.state_version;
        deleted_in_version = deleted_in_version;
      }
          ∷ []);
}

-- `objectsRepo.upsert`
unfoldable pub upsert_object : ObjectRow → Run → Run
upsert_object row s = record s { objects = Table.upsert object_hash row s.objects }

-- `inFlightByHash.delete(hash)`
unfoldable pub clear_job : String → Run → Run
clear_job hash s = record s { in_flight_by_hash = Table.remove job_hash hash s.in_flight_by_hash }
