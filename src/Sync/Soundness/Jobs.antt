-- ===== src/Sync/Soundness/Jobs.antt =====
-- The invariant through the answers to a job.
use sync.Prelude.{
  ℕ, String, Bool, true, Option, none, some, List, [], ◌∷◌, ◌≡◌, arith, string_eq, inl, inr,
  Bool-cases,
}
use sync.Prelude.Table
use sync.Prelude.Table.{has-upsert}
use sync.Sync.Rows.{EntryType, EntryRow, ObjectRow, has_object, object_hash}
use sync.Sync.Candidate.{SourceRow, Job, Run, set_handled, write_entry, upsert_object, clear_job}
use sync.Sync.Upload.{
  OnMirrorMaxRetries, Attempt, JobEnd, abort_run, left_dirty, committed, Sinks, HeadAnswer,
  head_failed, absent, present, write_attached, write_sources, commit_job, fail_job, finish_job,
  run_upload_job, adopts, adopt_job, escalate, settle_found, settle_head,
}
use sync.Sync.Soundness.{IsSound, Known, write-IsSound, object-IsSound}

abbrev pub Sound : List EntryRow → Run → Type 0
Sound orig s = IsSound orig s.handled_paths s.entries s.objects s.applied_count

known-upsert :
    (o : ObjectRow) (objects : List ObjectRow)
    → has_object o.hash (Table.upsert object_hash o objects) ≡ true
known-upsert o objects = rw has-upsert (ground arith)

module _ {orig : List EntryRow} where
  pub write_entry-Sound :
      (version path : String) (type : EntryType) (hash : Option String) (s : Run)
      → Sound orig s
      → Known hash s.objects
      → Sound orig (write_entry version path type hash s)
  unfolding write_entry set_handled
  write_entry-Sound version path type hash s sound known =
      write-IsSound sound path type hash version known

  write_attached-Sound :
      (version hash : String) (rows : List SourceRow) (s : Run)
      → Sound orig s
      → has_object hash s.objects ≡ true
      → Sound orig (write_attached version hash rows s)
  unfolding write_attached
  write_attached-Sound version hash [] s sound known = sound
  write_attached-Sound version hash (r ∷ rows) s sound known =
      write_attached-Sound version hash rows _
        (write_entry-Sound version r.path r.type (some hash) _ sound known)
        (unfold write_entry set_handled in known)

  write_sources-Sound :
      (version hash : String) (rows : List SourceRow) (s : Run)
      → Sound orig s
      → has_object hash s.objects ≡ true
      → Sound orig (write_sources version hash rows s)
  unfolding write_sources
  write_sources-Sound version hash [] s sound known = sound
  write_sources-Sound version hash (r ∷ rows) s sound known =
      write_attached-Sound version hash rows _
        (write_entry-Sound version r.path r.type (some hash) s sound known)
        (unfold write_entry set_handled in known)

  commit_job-Sound :
      (object_key : String → String) (version : String) (j : Job) (needs wrote missed : Bool)
      (checksum : String) (s : Run)
      → Sound orig s
      → Sound orig (commit_job object_key version j needs wrote missed checksum s)
  unfolding commit_job upsert_object clear_job
  commit_job-Sound object_key version j needs wrote missed checksum s sound =
      write_sources-Sound version j.hash j.source_rows _ (object-IsSound sound _)
        (known-upsert _ s.objects)

  fail_job-Sound :
      (j : Job) (message : String) (s : Run) → Sound orig s → Sound orig (fail_job j message s)
  unfolding fail_job clear_job
  fail_job-Sound j message s sound = sound

  finish_job-Sound :
      (object_key : String → String) (version : String) (j : Job) (needs : Bool) (end : JobEnd)
      (k : Sinks) (s : Run)
      → Sound orig s
      → Sound orig (finish_job object_key version j needs end k s)
  unfolding finish_job
  finish_job-Sound object_key version j needs (abort_run e) k s sound = sound
  finish_job-Sound object_key version j needs (left_dirty m) k s sound = fail_job-Sound j m s sound
  finish_job-Sound object_key version j needs (committed missed) k s sound =
      elim k.ciphertext_checksum
        as (λ o. Sound orig (elim o [
          | none ↦ s
          | some checksum ↦ commit_job object_key version j needs k.wrote_mirror missed checksum s
        ])) [
          | none ↦ sound
          | some c ↦ commit_job-Sound object_key version j needs k.wrote_mirror missed c s sound
        ]

  pub run_upload_job-Sound :
      (object_key : String → String) (version : String) (mode : OnMirrorMaxRetries) (j : Job)
      (checksum : Option String) (env : ℕ → Attempt) (s : Run)
      → Sound orig s
      → Sound orig (run_upload_job object_key version mode j checksum env s)
  unfolding run_upload_job
  run_upload_job-Sound object_key version mode j checksum env s sound =
      finish_job-Sound object_key version j _ _ _ s sound

  escalate-Sound :
      (j : Job) (c : Option String) (s : Run) → Sound orig s → Sound orig (escalate j c s)
  unfolding escalate
  escalate-Sound j c s sound = sound

  adopt_job-Sound :
      (object_key : String → String) (version : String) (j : Job) (checksum : String) (s : Run)
      → Sound orig s
      → Sound orig (adopt_job object_key version j checksum s)
  unfolding adopt_job upsert_object clear_job
  adopt_job-Sound object_key version j checksum s sound =
      write_attached-Sound version j.hash j.source_rows _ (object-IsSound sound _)
        (known-upsert _ s.objects)

  settle_found-Sound :
      (object_key : String → String) (version : String) (j : Job) (checksum : Option String)
      (s : Run)
      → Sound orig s
      → Sound orig (settle_found object_key version j checksum s)
  unfolding settle_found
  settle_found-Sound object_key version j none s sound = escalate-Sound j none s sound
  settle_found-Sound object_key version j (some c) s sound =
      elim (Bool-cases (adopts (some c) j.mirror_needs_object)) [
        | inl e ↦ rw e (adopt_job-Sound object_key version j c s sound)
        | inr e ↦ rw e (escalate-Sound j (some c) s sound)
      ]

  pub settle_head-Sound :
      (object_key : String → String) (version : String) (j : Job) (answer : HeadAnswer) (s : Run)
      → Sound orig s
      → Sound orig (settle_head object_key version j answer s)
  unfolding settle_head
  settle_head-Sound object_key version j (head_failed m) s sound = sound
  settle_head-Sound object_key version j absent s sound = escalate-Sound j none s sound
  settle_head-Sound object_key version j (present c) s sound =
      settle_found-Sound object_key version j c s sound
