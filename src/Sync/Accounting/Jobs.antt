-- ===== src/Sync/Accounting/Jobs.antt =====
-- The accounting through the answers to a job.
use mathlib.Core.List.{map-append}
use sync.Prelude.{
  ℕ, String, Bool, true, Option, none, some, List, [], ◌∷◌, ◌+◌, ◌≡◌, refl, ◌∙◌, ap, ◌||◌, inl, inr,
  map, contains, arith, string_eq, Bool-cases, ◌==◌,
}
use sync.Prelude.Table
use sync.Prelude.Table.{has-upsert, find-remove, find-upsert, key-find}
use sync.Errors.{Failure, transport}
use sync.Sync.Rows.{EntryType, CacheEntryRow}
use sync.Sync.Candidate.{
  SourceRow, Job, uploading, Run, set_handled, write_entry, upsert_object, clear_job, job_hash,
  handled_path,
}
use sync.Sync.Upload.{
  OnMirrorMaxRetries, Attempt, JobEnd, abort_run, left_dirty, committed, Sinks, HeadAnswer,
  head_failed, absent, present, write_attached, write_sources, commit_job, fail_job, finish_job,
  run_upload_job, adopts, adopt_job, escalate, settle_found, settle_head, source_paths, box,
}
use sync.Sync.Schedule.{has_error}
use sync.Sync.Accounting.{
  IsAccounted, pending, settled, riding, aborted, resolved, failing, failure_path, contains-append,
}

abbrev row_path : SourceRow → String
row_path r = r.path

pub resolved-write_entry :
    (p version path : String) (type : EntryType) (hash : Option String) (s : Run)
    → (path == p || resolved p s) ≡ true
    → resolved p (write_entry version path type hash s) ≡ true
unfolding resolved write_entry set_handled
resolved-write_entry p version path type hash s h = ground (
  arith,
  has-upsert handled_path p (record { path = path; stamp = some version }) s.handled_paths,
)

-- One round of `write_attached`.
abbrev next_entry : String → String → SourceRow → Run → Run
next_entry version hash r s =
    write_entry version r.path r.type (some hash)
      (record s { deduped_objects = s.deduped_objects + 1 })

resolved-write_attached :
    (p version hash : String) (rows : List SourceRow) (s : Run)
    → (contains p (map row_path rows) || resolved p s) ≡ true
    → resolved p (write_attached version hash rows s) ≡ true
unfolding write_attached resolved
resolved-write_attached p version hash [] s h = h
resolved-write_attached p version hash (r ∷ rows) s h =
    resolved-write_attached p version hash rows (next_entry version hash r s) (
      ground (
        arith,
        resolved-write_entry p version r.path r.type (some hash)
            (record s { deduped_objects = s.deduped_objects + 1 }),
      ))

write_attached-in_flight :
    (version hash : String) (rows : List SourceRow) (s : Run)
    → (write_attached version hash rows s).in_flight_by_hash ≡ s.in_flight_by_hash
unfolding write_attached write_entry set_handled
write_attached-in_flight version hash [] s = refl
write_attached-in_flight version hash (r ∷ rows) s = write_attached-in_flight version hash rows _

write_attached-failing :
    (version hash : String) (rows : List SourceRow) (s : Run)
    → failing (write_attached version hash rows s) ≡ failing s
unfolding write_attached write_entry set_handled failing
write_attached-failing version hash [] s = refl
write_attached-failing version hash (r ∷ rows) s = write_attached-failing version hash rows _

resolved-write_sources :
    (p version hash : String) (rows : List SourceRow) (s : Run)
    → (contains p (map row_path rows) || resolved p s) ≡ true
    → resolved p (write_sources version hash rows s) ≡ true
unfolding write_sources
resolved-write_sources p version hash [] s h = h
resolved-write_sources p version hash (r ∷ rows) s h =
    resolved-write_attached p version hash rows (write_entry version r.path r.type (some hash) s)
      (ground (arith, resolved-write_entry p version r.path r.type (some hash) s))

write_sources-in_flight :
    (version hash : String) (rows : List SourceRow) (s : Run)
    → (write_sources version hash rows s).in_flight_by_hash ≡ s.in_flight_by_hash
unfolding write_sources write_entry set_handled
write_sources-in_flight version hash [] s = refl
write_sources-in_flight version hash (r ∷ rows) s = write_attached-in_flight version hash rows _

write_sources-failing :
    (version hash : String) (rows : List SourceRow) (s : Run)
    → failing (write_sources version hash rows s) ≡ failing s
unfolding write_sources write_entry set_handled failing
write_sources-failing version hash [] s = refl
write_sources-failing version hash (r ∷ rows) s = write_attached-failing version hash rows _

-- A job has ended well: it is out of the map, and its rows are resolved.
record HasEnded (j : Job) (s s' : Run) : Type 0 where
  removed : s'.in_flight_by_hash ≡ Table.remove job_hash j.hash s.in_flight_by_hash
  resolves :
      (p : String) → (contains p (source_paths j) || resolved p s) ≡ true → resolved p s' ≡ true
  fails : failing s' ≡ failing s

module _ {j : Job} {p : String} {rows : List CacheEntryRow} {s s' : Run} where
  HasEnded-IsAccounted :
      (hash : String)
      → Table.find job_hash hash s.in_flight_by_hash ≡ some j
      → HasEnded j s s'
      → IsAccounted p rows s
      → IsAccounted p rows s'
  HasEnded-IsAccounted hash found e (pending h) = pending h
  HasEnded-IsAccounted hash found e (settled h) = settled (e.resolves p (ground arith))
  HasEnded-IsAccounted hash found e (aborted h) = aborted (e.fails ∙ h)
  HasEnded-IsAccounted hash found e (riding hash' j' found' h) =
      elim (Bool-cases (j.hash == hash')) [
        | inl same ↦
            settled
              (e.resolves p (ground (arith, key-find job_hash hash s.in_flight_by_hash j found)))
        | inr other ↦ riding hash' j' (rw (e.removed, find-remove, other) found') h
      ]

commit_job-HasEnded :
    (object_key : String → String) (version : String) (j : Job) (needs wrote missed : Bool)
    (checksum : String) (s : Run)
    → HasEnded j s (commit_job object_key version j needs wrote missed checksum s)
unfolding commit_job upsert_object clear_job resolved failing
commit_job-HasEnded object_key version j needs wrote missed checksum s = record {
  removed = rw write_sources-in_flight;
  resolves = λ p h. resolved-write_sources p version j.hash j.source_rows _ h;
  fails = write_sources-failing version j.hash j.source_rows _;
}

adopt_job-HasEnded :
    (object_key : String → String) (version : String) (j : Job) (checksum : String) (s : Run)
    → HasEnded j s (adopt_job object_key version j checksum s)
unfolding adopt_job upsert_object clear_job resolved failing
adopt_job-HasEnded object_key version j checksum s = record {
  removed = rw write_attached-in_flight;
  resolves = λ p h. resolved-write_attached p version j.hash j.source_rows _ h;
  fails = write_attached-failing version j.hash j.source_rows _;
}

failure_paths :
    (hash message : String) (rows : List SourceRow)
    → map failure_path
        (map (λ (r : SourceRow). record { path = r.path; hash = hash; error = message }) rows)
      ≡ map row_path rows
failure_paths hash message [] = refl
failure_paths hash message (r ∷ rows) = ap (λ l. r.path ∷ l) (failure_paths hash message rows)

fail_job-HasEnded : (j : Job) (message : String) (s : Run) → HasEnded j s (fail_job j message s)
unfolding fail_job clear_job resolved failing
fail_job-HasEnded j message s = record {
  removed = refl;
  resolves = λ p h.
      rw (map-append, failure_paths j.hash message j.source_rows, contains-append p) (ground arith);
  fails = refl;
}

box-ne-none : (first : Option Failure) (e : Failure) → has_error (box first e) ≡ true
unfolding box
box-ne-none none e = refl
box-ne-none (some first) e = refl

module _ {p : String} {rows : List CacheEntryRow} where
  finish_job-IsAccounted :
      (object_key : String → String) (version : String) (j : Job) (needs : Bool) (end : JobEnd)
      (k : Sinks) (s : Run) (hash : String)
      → Table.find job_hash hash s.in_flight_by_hash ≡ some j
      → IsAccounted p rows s
      → IsAccounted p rows (finish_job object_key version j needs end k s)
  unfolding finish_job
  finish_job-IsAccounted object_key version j needs (abort_run e) k s hash found a =
      aborted (unfold failing in ground (arith, box-ne-none s.stream_error e))
  finish_job-IsAccounted object_key version j needs (left_dirty m) k s hash found a =
      HasEnded-IsAccounted hash found (fail_job-HasEnded j m s) a
  finish_job-IsAccounted object_key version j needs (committed missed) k s hash found a =
      elim k.ciphertext_checksum
        as (λ o. IsAccounted p rows (elim o [
          | none ↦ s
          | some checksum ↦ commit_job object_key version j needs k.wrote_mirror missed checksum s
        ])) [
          | none ↦ a
          | some c ↦
              HasEnded-IsAccounted hash found
                (commit_job-HasEnded object_key version j needs k.wrote_mirror missed c s) a
        ]

  pub run_upload_job-IsAccounted :
      (object_key : String → String) (version : String) (mode : OnMirrorMaxRetries) (j : Job)
      (checksum : Option String) (env : ℕ → Attempt) (s : Run) (hash : String)
      → Table.find job_hash hash s.in_flight_by_hash ≡ some j
      → IsAccounted p rows s
      → IsAccounted p rows (run_upload_job object_key version mode j checksum env s)
  unfolding run_upload_job
  run_upload_job-IsAccounted object_key version mode j checksum env s =
      finish_job-IsAccounted object_key version j _ _ _ s

  escalate-IsAccounted :
      (j : Job) (c : Option String) (s : Run) (hash : String)
      → Table.find job_hash hash s.in_flight_by_hash ≡ some j
      → IsAccounted p rows s
      → IsAccounted p rows (escalate j c s)
  unfolding escalate resolved failing
  escalate-IsAccounted j c s hash found (pending h) = pending h
  escalate-IsAccounted j c s hash found (settled h) = settled h
  escalate-IsAccounted j c s hash found (aborted h) = aborted h
  escalate-IsAccounted j c s hash found (riding hash' j' found' h) =
      elim (Bool-cases (j.hash == hash')) [
        | inl same ↦
            riding hash' (record j { phase = uploading c }) (rw (find-upsert, same))
              (ground (arith, key-find job_hash hash s.in_flight_by_hash j found))
        | inr other ↦ riding hash' j' (rw (find-upsert, other) found') h
      ]

  settle_found-IsAccounted :
      (object_key : String → String) (version : String) (j : Job) (checksum : Option String)
      (s : Run) (hash : String)
      → Table.find job_hash hash s.in_flight_by_hash ≡ some j
      → IsAccounted p rows s
      → IsAccounted p rows (settle_found object_key version j checksum s)
  unfolding settle_found
  settle_found-IsAccounted object_key version j none s hash found a =
      escalate-IsAccounted j none s hash found a
  settle_found-IsAccounted object_key version j (some c) s hash found a =
      elim (Bool-cases (adopts (some c) j.mirror_needs_object)) [
        | inl e ↦
            rw e (HasEnded-IsAccounted hash found (adopt_job-HasEnded object_key version j c s) a)
        | inr e ↦ rw e (escalate-IsAccounted j (some c) s hash found a)
      ]

  pub settle_head-IsAccounted :
      (object_key : String → String) (version : String) (j : Job) (answer : HeadAnswer) (s : Run)
      (hash : String)
      → Table.find job_hash hash s.in_flight_by_hash ≡ some j
      → IsAccounted p rows s
      → IsAccounted p rows (settle_head object_key version j answer s)
  unfolding settle_head
  settle_head-IsAccounted object_key version j (head_failed m) s hash found a =
      aborted (unfold failing in ground (arith, box-ne-none s.metadata_error (transport m)))
  settle_head-IsAccounted object_key version j absent s hash found a =
      escalate-IsAccounted j none s hash found a
  settle_head-IsAccounted object_key version j (present c) s hash found a =
      settle_found-IsAccounted object_key version j c s hash found a
