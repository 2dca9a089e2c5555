-- ===== src/Sync/Schedule.antt =====
-- The whole of `applyLocalChangesToCandidate`: pass 1, then pass 2 with its pools as a schedule of
-- events, then the two error boxes (`throwIfPoolErrored`).
use sync.Prelude.{ℕ, String, Bool, true, false, Option, none, some, List, [], ◌∷◌, ◌||◌, string_eq}
use sync.Prelude.Table
use sync.Errors.{Failure, Result, ok, throw, ◌>>=◌, ◌>>◌}
use sync.Sync.Rows.{EntryRow, EntryDeletionRow, CacheEntryRow, ObjectRow}
use sync.Sync.Candidate.{Job, Phase, heading, uploading, Run, job_hash, start_run}
use sync.Sync.Upload.{OnMirrorMaxRetries, Attempt, HeadAnswer, run_upload_job, settle_head}
use sync.Sync.ApplyLocal.{MirrorProbe, delete_pass, change_row}

pub data Event : Type 0 where
  -- the loop over the dirty rows takes its next turn; the mirror answers for the row's object
  next_row : MirrorProbe → Event
  -- the bucket answers the HEAD check of the job on a hash
  head_answer : String → HeadAnswer → Event
  -- the upload job on a hash runs to its end
  upload_answer : String → (ℕ → Attempt) → Event

pub record Loop : Type 0 where
  pub rows : List CacheEntryRow
  pub run : Run

-- The variables that do not change over a run.
pub record Settings : Type 0 where
  pub collision_key : String → String
  pub object_key : String → String
  pub version_stamp : String
  pub verify_remote : Bool
  pub mode : OnMirrorMaxRetries

abbrev pub has_error : Option Failure → Bool
has_error none = false
has_error (some _) = true

-- The loop ends once a pool has failed.
unfoldable pub take_row :
    Settings → MirrorProbe → CacheEntryRow → List CacheEntryRow → Run → Bool → Result Loop
take_row c probe row rows s true = ok (record { rows = []; run = s })
take_row c probe row rows s false =
    change_row c.collision_key c.version_stamp c.verify_remote row probe s >>= λ s'.
    ok (record { rows = rows; run = s' })

unfoldable pub next_turn : Settings → MirrorProbe → List CacheEntryRow → Run → Result Loop
unfolding take_row
next_turn c probe [] s = ok (record { rows = []; run = s })
next_turn c probe (row ∷ rows) s =
    take_row c probe row rows s (has_error s.stream_error || has_error s.metadata_error)

unfoldable pub head_settled : Settings → HeadAnswer → Job → Phase → Run → Run
head_settled c answer j heading s = settle_head c.object_key c.version_stamp j answer s
head_settled c answer j (uploading _) s = s

unfoldable pub head_turn : Settings → HeadAnswer → Option Job → Run → Run
head_turn c answer none s = s
head_turn c answer (some j) s = head_settled c answer j j.phase s

unfoldable pub upload_settled : Settings → (ℕ → Attempt) → Job → Phase → Run → Run
upload_settled c env j heading s = s
upload_settled c env j (uploading checksum) s =
    run_upload_job c.object_key c.version_stamp c.mode j checksum env s

unfoldable pub upload_turn : Settings → (ℕ → Attempt) → Option Job → Run → Run
upload_turn c env none s = s
upload_turn c env (some j) s = upload_settled c env j j.phase s

-- An answer for a hash with no job in that phase changes nothing.
unfoldable pub turn : Settings → Event → Loop → Result Loop
unfolding next_turn head_turn head_settled upload_turn upload_settled
turn c (next_row probe) l = next_turn c probe l.rows l.run
turn c (head_answer hash answer) l =
    ok (record l {
      run = head_turn c answer (Table.find job_hash hash l.run.in_flight_by_hash) l.run;
    })
turn c (upload_answer hash env) l =
    ok (record l {
      run = upload_turn c env (Table.find job_hash hash l.run.in_flight_by_hash) l.run;
    })

unfoldable pub run_schedule : Settings → List Event → Loop → Result Loop
run_schedule c [] l = ok l
run_schedule c (e ∷ events) l = turn c e l >>= λ l'. run_schedule c events l'

-- `throwIfPoolErrored`
unfoldable pub throw_if_pool_errored : Option Failure → Result (Unit {0})
throw_if_pool_errored none = ok tt
throw_if_pool_errored (some e) = throw e

abbrev pub Candidate : Type 0
Candidate = List EntryRow × List EntryDeletionRow × List ObjectRow × List String

-- The run over a candidate's tables and the dirty rows, under a schedule.
unfoldable pub apply_local_changes :
    Settings → Candidate → List CacheEntryRow → List Event → Result Loop
unfolding throw_if_pool_errored
apply_local_changes c (entries, deletions, objects, versions) dirty schedule = do
  start ←
      delete_pass c.version_stamp dirty
        (start_run entries deletions objects versions c.version_stamp)
  l ← run_schedule c schedule (record { rows = start.1; run = start.0 })
  throw_if_pool_errored l.run.metadata_error
  throw_if_pool_errored l.run.stream_error
  ok l
