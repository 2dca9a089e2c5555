-- ===== src/Sync/Upload.antt =====
-- The asynchronous half of pass 2 of `applyLocalChangesToCandidate`: the HEAD check of a job
-- (`--verify-remote`) and its upload job, as functions of what the bucket, the mirror and the file
-- system answered. A job that throws leaves its error in its pool's box (`dispatchTracked`).
use sync.Prelude.{
  ℕ, zero, suc, String, Bool, true, false, not, ◌&&◌, Option, none, some, List, [], ◌∷◌, ◌++◌, ◌+◌,
  map, ◌==◌, if◌then◌else◌, string_eq, nat_eq, option_eq,
}
use sync.Prelude.Table
use sync.Errors.{Failure, mirror_required, s3_upload_fatal, transport}
use sync.Sync.Rows.{get_object}
use sync.Sync.Candidate.{
  SourceRow, Job, uploading, Run, job_hash, write_entry, upsert_object, clear_job,
}

-- `mirror.onMaxRetries`
pub data OnMirrorMaxRetries : Type 0 where
  fail ignore : OnMirrorMaxRetries

-- What one attempt of `runUnit` meets: `fs.statSync`, the first error of the encrypted stream, the
-- checksum of an upload that S3 accepted, and a failed mirror write with its retryability.
pub record Attempt : Type 0 where
  pub current_size : ℕ
  pub current_mtime : ℕ
  pub upstream_error : Option String
  pub s3_checksum : Option String
  pub mirror_failure : Option (String × Bool)

-- `ciphertextChecksum` and `wroteMirror`.
pub record Sinks : Type 0 where
  pub ciphertext_checksum : Option String
  pub wrote_mirror : Bool

-- How `runUnit` ends: it returns, or throws a plain error, a `MirrorWriteError` with its
-- retryability, or an `S3UploadFatalError`.
pub data UnitResult : Type 0 where
  done : UnitResult
  plain_error : String → UnitResult
  mirror_write_error : String → Bool → UnitResult
  fatal : UnitResult

abbrev or_earlier : Option String → Option String → Option String
or_earlier none earlier = earlier
or_earlier (some c) earlier = some c

abbrev written : Option (String × Bool) → Bool → Bool
written none earlier = true
written (some _) earlier = earlier

mirror_result : Option (String × Bool) → UnitResult
mirror_result none = done
mirror_result (some (message, retryable)) = mirror_write_error message retryable

-- Both sinks settle before the first failure is looked at: an upstream error first, then S3's.
both_result : Option String → Option String → Option (String × Bool) → UnitResult
both_result (some message) s3 mirror = plain_error message
both_result none none mirror = fatal
both_result none (some c) mirror = mirror_result mirror

s3_result : Option String → Option String → UnitResult
s3_result upstream (some c) = done
s3_result (some message) none = plain_error message
s3_result none none = fatal

-- The four cases of `needsS3` and `mirrorTarget`.
unfoldable pub run_sinks : Bool → Bool → Attempt → Sinks → UnitResult × Sinks
unfolding mirror_result both_result s3_result
run_sinks true true a k = (
  both_result a.upstream_error a.s3_checksum a.mirror_failure,
  record {
    ciphertext_checksum = or_earlier a.s3_checksum k.ciphertext_checksum;
    wrote_mirror = written a.mirror_failure k.wrote_mirror;
  },
)
run_sinks true false a k = (
  s3_result a.upstream_error a.s3_checksum,
  record k { ciphertext_checksum = or_earlier a.s3_checksum k.ciphertext_checksum },
)
run_sinks false true a k = (
  mirror_result a.mirror_failure,
  record k { wrote_mirror = written a.mirror_failure k.wrote_mirror },
)
run_sinks false false a k = (done, k)

-- `runUnit`: the file must still have the size and the mtime that it was scanned with.
unfoldable pub run_unit : Job → Bool → Attempt → Sinks → UnitResult × Sinks
unfolding run_sinks
run_unit j needs_s3 a k =
    if a.current_size == j.size && some a.current_mtime == j.mtime
    then run_sinks needs_s3 j.mirror_needs_object a k
    else (plain_error "changed since it was scanned", k)

abbrev retries : UnitResult → Bool
retries (mirror_write_error message retryable) = retryable
retries _ = false

-- `withMirrorRetry(runUnit)`, by the attempts that are left; the k-th attempt meets `env k`.
unfoldable pub with_mirror_retry : ℕ → ℕ → Job → Bool → (ℕ → Attempt) → Sinks → UnitResult × Sinks
unfolding run_unit
with_mirror_retry zero k j needs_s3 env sinks = run_unit j needs_s3 (env k) sinks
with_mirror_retry (suc left) k j needs_s3 env sinks =
    let (r, sinks') = run_unit j needs_s3 (env k) sinks in
    let again = with_mirror_retry left (k + 1) j needs_s3 env sinks' in
    if retries r then again else (r, sinks')

-- `MAX_MIRROR_ATTEMPTS`
abbrev pub max_mirror_attempts : ℕ
max_mirror_attempts = 5

abbrev pub source_paths : Job → List String
source_paths j = map (λ (r : SourceRow). r.path) j.source_rows

-- The two `catch` blocks: what the unit's end means under the mirror's policy.
pub data JobEnd : Type 0 where
  -- rethrown, and fatal to the run
  abort_run : Failure → JobEnd
  -- swallowed: the rows stay dirty
  left_dirty : String → JobEnd
  -- committed, with the mirror write counted as failed or not
  committed : Bool → JobEnd

unfoldable pub job_end : OnMirrorMaxRetries → Job → UnitResult → Option String → JobEnd
job_end mode j done checksum = committed false
job_end mode j (plain_error message) checksum = left_dirty message
job_end mode j fatal checksum = abort_run (s3_upload_fatal (source_paths j) j.hash)
job_end fail j (mirror_write_error message _) checksum =
    abort_run (mirror_required (source_paths j) j.hash)
job_end ignore j (mirror_write_error message _) none = left_dirty message
job_end ignore j (mirror_write_error message _) (some c) = committed true

abbrev count : Bool → ℕ
count true = 1
count false = 0

-- The rows that ride on a job are written one after the other; all but the first count as deduped.
unfoldable pub write_attached : String → String → List SourceRow → Run → Run
write_attached version_stamp hash [] s = s
write_attached version_stamp hash (r ∷ rows) s = write_attached version_stamp hash rows (
    write_entry version_stamp r.path r.type (some hash)
      (record s { deduped_objects = s.deduped_objects + 1 }))

unfoldable pub write_sources : String → String → List SourceRow → Run → Run
write_sources version_stamp hash [] s = s
write_sources version_stamp hash (r ∷ rows) s =
    write_attached version_stamp hash rows (write_entry version_stamp r.path r.type (some hash) s)

-- `streamPoolErrors` and `metadataPoolErrors` keep the first error.
unfoldable pub box : Option Failure → Failure → Option Failure
box none e = some e
box (some first) e = some first

-- What the rest of `runUploadJob` does with the checksum in hand.
unfoldable pub commit_job :
    (String → String) → String → Job → Bool → Bool → Bool → String → Run → Run
commit_job object_key version_stamp j needs_s3 wrote_mirror mirror_failed checksum s =
    clear_job j.hash (
      write_sources version_stamp j.hash j.source_rows (
        upsert_object
          (record {
            hash = j.hash;
            s3_key = object_key j.hash;
            size = j.size;
            ciphertext_checksum = checksum;
          })
          (record s {
            uploaded_objects = s.uploaded_objects + count needs_s3;
            deduped_objects = s.deduped_objects + count (not needs_s3);
            mirrored_objects = s.mirrored_objects + count wrote_mirror;
            mirror_failures = s.mirror_failures + count mirror_failed;
          })))

-- `failed.push(…)` for every row that rides on the job, which is taken out of the map.
unfoldable pub fail_job : Job → String → Run → Run
fail_job j message s = clear_job j.hash (record s {
  failed =
      s.failed
      ++ map (λ (r : SourceRow). record { path = r.path; hash = j.hash; error = message })
          j.source_rows;
})

unfoldable pub finish_job : (String → String) → String → Job → Bool → JobEnd → Sinks → Run → Run
finish_job object_key version_stamp j needs_s3 (abort_run e) k s = record s {
  stream_error = box s.stream_error e;
}
finish_job object_key version_stamp j needs_s3 (left_dirty message) k s = fail_job j message s
finish_job object_key version_stamp j needs_s3 (committed mirror_failed) k s =
    elim k.ciphertext_checksum [
      | none ↦ s
      | some checksum ↦
          commit_job object_key version_stamp j needs_s3 k.wrote_mirror mirror_failed checksum s
    ]

abbrev pub is_none : Option String → Bool
is_none none = true
is_none (some _) = false

-- `objectsRepo.get(hash)?.ciphertext_checksum`
abbrev recorded_checksum : String → Run → Option String
recorded_checksum hash s = elim (get_object hash s.objects) [
  | none ↦ none
  | some o ↦ some o.ciphertext_checksum
]

-- `runUploadJob(remoteChecksum)`
unfoldable pub run_upload_job :
    (String → String)
    → String
    → OnMirrorMaxRetries
    → Job
    → Option String
    → (ℕ → Attempt)
    → Run
    → Run
run_upload_job object_key version_stamp mode j remote_checksum env s =
    let needs_s3 = not j.already_on_s3 && is_none remote_checksum in
    let start : Sinks = record {
      ciphertext_checksum =
          if needs_s3 then none else or_earlier remote_checksum (recorded_checksum j.hash s);
      wrote_mirror = false;
    } in
    let (r, k) = with_mirror_retry 4 0 j needs_s3 env start in
    finish_job object_key version_stamp j needs_s3 (job_end mode j r k.ciphertext_checksum) k s

-- What the HEAD request of the verify-remote check answers: it throws, finds no object, or finds
-- one, with the checksum that it carries.
pub data HeadAnswer : Type 0 where
  head_failed : String → HeadAnswer
  absent : HeadAnswer
  present : Option String → HeadAnswer

-- `remoteChecksum && !mirrorNeedsObject`: an empty text is no checksum.
unfoldable pub adopts : Option String → Bool → Bool
adopts none mirror_needs = false
adopts (some c) mirror_needs = not (c == "") && not mirror_needs

-- Every row riding on the job counts as deduped and is written; the job ends.
unfoldable pub adopt_job : (String → String) → String → Job → String → Run → Run
adopt_job object_key version_stamp j checksum s = clear_job j.hash (
    write_attached version_stamp j.hash j.source_rows (
      upsert_object
        (record {
          hash = j.hash;
          s3_key = object_key j.hash;
          size = j.size;
          ciphertext_checksum = checksum;
        })
        s))

-- The job goes on to its upload, with what the HEAD check found.
unfoldable pub escalate : Job → Option String → Run → Run
escalate j checksum s = record s {
  in_flight_by_hash =
      Table.upsert job_hash (record j { phase = uploading checksum }) s.in_flight_by_hash;
}

unfoldable pub settle_found : (String → String) → String → Job → Option String → Run → Run
settle_found object_key version_stamp j none s = escalate j none s
settle_found object_key version_stamp j (some c) s =
    if adopts (some c) j.mirror_needs_object
    then adopt_job object_key version_stamp j c s
    else escalate j (some c) s

-- The task that the metadata pool runs for a job.
unfoldable pub settle_head : (String → String) → String → Job → HeadAnswer → Run → Run
settle_head object_key version_stamp j (head_failed message) s = record s {
  metadata_error = box s.metadata_error (transport message);
}
settle_head object_key version_stamp j absent s = escalate j none s
settle_head object_key version_stamp j (present checksum) s =
    settle_found object_key version_stamp j checksum s
