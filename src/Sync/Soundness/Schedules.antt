-- ===== src/Sync/Soundness/Schedules.antt =====
-- Under every schedule of the pools the run keeps its invariant.
use sync.Prelude.{
  ℕ, String, Bool, true, false, Option, none, some, List, [], ◌∷◌, ◌≡◌, refl, string_eq,
}
use sync.Prelude.Table.{find-nil}
use sync.Errors.{Failure, ok, ◌>>=◌}
use sync.Sync.Rows.{EntryRow, CacheEntryRow, get_entry, has_object, ObjectRow}
use sync.Sync.Candidate.{Job, Phase, heading, uploading, Run, Handled, handled_path, start_run}
use sync.Sync.Upload.{Attempt, HeadAnswer}
use sync.Sync.ApplyLocal.{MirrorProbe}
use sync.Sync.Schedule.{
  Event, next_row, head_answer, upload_answer, Loop, Settings, Candidate, turn, take_row, next_turn,
  head_turn, head_settled, upload_turn, upload_settled, run_schedule, apply_local_changes,
  throw_if_pool_errored,
}
use sync.Sync.Soundness.{IsSound}
use sync.Sync.Soundness.Jobs.{Sound, run_upload_job-Sound, settle_head-Sound}
use sync.Sync.Soundness.Rows.{Returns, Returns-bind, delete_pass-Sound, change_row-Sound}

module _ {orig : List EntryRow} (c : Settings) where
  take_row-Sound :
      (probe : MirrorProbe) (row : CacheEntryRow) (rows : List CacheEntryRow) (s : Run)
      (failed : Bool)
      → Sound orig s
      → Returns (take_row c probe row rows s failed) (λ l. Sound orig l.run)
  unfolding take_row
  take_row-Sound probe row rows s true sound = sound
  take_row-Sound probe row rows s false sound =
      Returns-bind (Sound orig) _ _ _
        (change_row-Sound c.collision_key c.version_stamp c.verify_remote row probe s sound)
        (λ s' sound'. sound')

  next_turn-Sound :
      (probe : MirrorProbe) (rows : List CacheEntryRow) (s : Run)
      → Sound orig s
      → Returns (next_turn c probe rows s) (λ l. Sound orig l.run)
  unfolding next_turn
  next_turn-Sound probe [] s sound = sound
  next_turn-Sound probe (row ∷ rows) s sound = take_row-Sound probe row rows s _ sound

  head_turn-Sound :
      (answer : HeadAnswer) (job : Option Job) (s : Run)
      → Sound orig s
      → Sound orig (head_turn c answer job s)
  unfolding head_turn
  head_turn-Sound answer none s sound = sound
  head_turn-Sound answer (some j) s sound = go j.phase
    where
      go : (phase : Phase) → Sound orig (head_settled c answer j phase s)
      go heading =
          unfold head_settled in settle_head-Sound c.object_key c.version_stamp j answer s sound
      go (uploading _) = unfold head_settled in sound

  upload_turn-Sound :
      (env : ℕ → Attempt) (job : Option Job) (s : Run)
      → Sound orig s
      → Sound orig (upload_turn c env job s)
  unfolding upload_turn
  upload_turn-Sound env none s sound = sound
  upload_turn-Sound env (some j) s sound = go j.phase
    where
      go : (phase : Phase) → Sound orig (upload_settled c env j phase s)
      go heading = unfold upload_settled in sound
      go (uploading checksum) =
          unfold upload_settled in
          run_upload_job-Sound c.object_key c.version_stamp c.mode j checksum env s sound

  turn-Sound :
      (e : Event) (l : Loop) → Sound orig l.run → Returns (turn c e l) (λ l'. Sound orig l'.run)
  unfolding turn
  turn-Sound (next_row probe) l sound = next_turn-Sound probe l.rows l.run sound
  turn-Sound (head_answer hash answer) l sound = head_turn-Sound answer _ l.run sound
  turn-Sound (upload_answer hash env) l sound = upload_turn-Sound env _ l.run sound

  run_schedule-Sound :
      (events : List Event) (l : Loop)
      → Sound orig l.run
      → Returns (run_schedule c events l) (λ l'. Sound orig l'.run)
  unfolding run_schedule
  run_schedule-Sound [] l sound = sound
  run_schedule-Sound (e ∷ events) l sound =
      Returns-bind (λ (l' : Loop). Sound orig l'.run) _ _ _ (turn-Sound e l sound)
        (λ l' sound'. run_schedule-Sound events l' sound')

-- Every file of the fetched state names an object that the state lists.
abbrev pub IsReferenced : List EntryRow → List ObjectRow → Type 0
IsReferenced entries objects =
    (p : String) (e : EntryRow) (hash : String)
    → get_entry p entries ≡ some e
    → e.hash ≡ some hash
    → has_object hash objects ≡ true

start-Sound :
    (entries : List EntryRow) (objects : List ObjectRow)
    → IsReferenced entries objects
    → IsSound entries [] entries objects 0
start-Sound entries objects referenced = record {
  stamped = λ p h e. cc (find-nil {K = String} {R = Handled} handled_path p);
  untouched = λ p e. refl;
  referenced = referenced;
  idle = λ e. refl;
}

-- From a state whose entries name only objects that it lists, and under any schedule, a run that
-- returns leaves a candidate in which every stamp that is handed on is that of its path's entry, or
-- none where there is no entry; every path that was not handled keeps its entry; every entry names
-- only an object that the candidate lists; and if nothing was applied, the entries are those that
-- were fetched.
pub apply_local_changes-Sound :
    (c : Settings) (k : Candidate) (dirty : List CacheEntryRow) (schedule : List Event)
    → IsReferenced k.0 k.2
    → Returns (apply_local_changes c k dirty schedule) (λ l. Sound k.0 l.run)
unfolding apply_local_changes
apply_local_changes-Sound c k dirty schedule referenced =
    Returns-bind (λ (r : Run × List CacheEntryRow). Sound k.0 r.0) _ _ _
      (delete_pass-Sound c.version_stamp dirty (start_run k.0 k.1 k.2 k.3 c.version_stamp)
        (start-Sound k.0 k.2 referenced))
      λ (s, rows) sound.
        Returns-bind (λ (l : Loop). Sound k.0 l.run) _ _ _
          (run_schedule-Sound c schedule (record { rows = rows; run = s }) sound)
          λ l sound'. finish l l.run.metadata_error l.run.stream_error sound'
  where
    finish :
        (l : Loop) (metadata stream : Option Failure)
        → Sound k.0 l.run
        → Returns
            (throw_if_pool_errored metadata >>= λ _. throw_if_pool_errored stream >>= λ _. ok l)
            (λ l'. Sound k.0 l'.run)
    finish l (some e) stream sound = tt
    finish l none (some e) sound = tt
    finish l none none sound = sound
