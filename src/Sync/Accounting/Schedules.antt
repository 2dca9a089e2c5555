-- ===== src/Sync/Accounting/Schedules.antt =====
-- The accounting over whole runs.
use sync.Prelude.{
  ℕ, String, Bool, true, false, Option, none, some, List, [], ◌∷◌, ◌≡◌, refl, string_eq, map,
  contains, arith,
}
use mathlib.Core.Path.{ap}
use sync.Prelude.Table
use sync.Prelude.Table.{find-nil}
use sync.Errors.{Failure, ok, ◌>>=◌}
use sync.Sync.Rows.{CacheEntryRow, CacheState, created, modified, deleted, unchanged, cache_path}
use sync.Sync.Candidate.{Job, Phase, heading, uploading, Run, job_hash, start_run}
use sync.Sync.Upload.{Attempt, HeadAnswer}
use sync.Sync.ApplyLocal.{MirrorProbe, delete_row, delete_pass, is_deleted}
use sync.Sync.Schedule.{
  Event, next_row, head_answer, upload_answer, Loop, Settings, Candidate, turn, take_row, next_turn,
  head_turn, head_settled, upload_turn, upload_settled, run_schedule, apply_local_changes,
  throw_if_pool_errored,
}
use sync.Sync.Soundness.Rows.{Returns, Returns-bind, of_Returns}
use sync.Sync.Accounting.{IsAccounted, pending, settled, riding, aborted, resolved, failing}
use sync.Sync.Accounting.Jobs.{run_upload_job-IsAccounted, settle_head-IsAccounted}
use sync.Sync.Accounting.Rows.{change_row-IsAccounted, delete_row-IsAccounted}

module _ (p : String) (c : Settings) where
  take_row-IsAccounted :
      (probe : MirrorProbe) (row : CacheEntryRow) (rows : List CacheEntryRow) (s : Run)
      (failed : Bool)
      → failing s ≡ failed
      → IsAccounted p (row ∷ rows) s
      → Returns (take_row c probe row rows s failed) (λ l. IsAccounted p l.rows l.run)
  unfolding take_row
  take_row-IsAccounted probe row rows s true q a = aborted q
  take_row-IsAccounted probe row rows s false q a =
      Returns-bind (IsAccounted p rows) _ _ _
        (change_row-IsAccounted p rows c.collision_key c.version_stamp c.verify_remote row probe s
          a)
        (λ s' a'. a')

  next_turn-IsAccounted :
      (probe : MirrorProbe) (rows : List CacheEntryRow) (s : Run)
      → IsAccounted p rows s
      → Returns (next_turn c probe rows s) (λ l. IsAccounted p l.rows l.run)
  unfolding next_turn failing
  next_turn-IsAccounted probe [] s a = a
  next_turn-IsAccounted probe (row ∷ rows) s a = take_row-IsAccounted probe row rows s _ refl a

  head_turn-IsAccounted :
      (answer : HeadAnswer) (hash : String) (job : Option Job) (rows : List CacheEntryRow) (s : Run)
      → Table.find job_hash hash s.in_flight_by_hash ≡ job
      → IsAccounted p rows s
      → IsAccounted p rows (head_turn c answer job s)
  unfolding head_turn
  head_turn-IsAccounted answer hash none rows s found a = a
  head_turn-IsAccounted answer hash (some j) rows s found a = go j.phase
    where
      go : (phase : Phase) → IsAccounted p rows (head_settled c answer j phase s)
      go heading =
          unfold head_settled in
          settle_head-IsAccounted c.object_key c.version_stamp j answer s hash found a
      go (uploading _) = unfold head_settled in a

  upload_turn-IsAccounted :
      (env : ℕ → Attempt) (hash : String) (job : Option Job) (rows : List CacheEntryRow) (s : Run)
      → Table.find job_hash hash s.in_flight_by_hash ≡ job
      → IsAccounted p rows s
      → IsAccounted p rows (upload_turn c env job s)
  unfolding upload_turn
  upload_turn-IsAccounted env hash none rows s found a = a
  upload_turn-IsAccounted env hash (some j) rows s found a = go j.phase
    where
      go : (phase : Phase) → IsAccounted p rows (upload_settled c env j phase s)
      go heading = unfold upload_settled in a
      go (uploading checksum) =
          unfold upload_settled in
          run_upload_job-IsAccounted c.object_key c.version_stamp c.mode j checksum env s hash found
            a

  turn-IsAccounted :
      (e : Event) (l : Loop)
      → IsAccounted p l.rows l.run
      → Returns (turn c e l) (λ l'. IsAccounted p l'.rows l'.run)
  unfolding turn
  turn-IsAccounted (next_row probe) l a = next_turn-IsAccounted probe l.rows l.run a
  turn-IsAccounted (head_answer hash answer) l a =
      head_turn-IsAccounted answer hash _ l.rows l.run refl a
  turn-IsAccounted (upload_answer hash env) l a =
      upload_turn-IsAccounted env hash _ l.rows l.run refl a

  run_schedule-IsAccounted :
      (events : List Event) (l : Loop)
      → IsAccounted p l.rows l.run
      → Returns (run_schedule c events l) (λ l'. IsAccounted p l'.rows l'.run)
  unfolding run_schedule
  run_schedule-IsAccounted [] l a = a
  run_schedule-IsAccounted (e ∷ events) l a =
      Returns-bind (λ (l' : Loop). IsAccounted p l'.rows l'.run) _ _ _ (turn-IsAccounted e l a)
        (λ l' a'. run_schedule-IsAccounted events l' a')

  delete_pass-IsAccounted :
      (rows : List CacheEntryRow) (s : Run)
      → IsAccounted p rows s
      → Returns (delete_pass c.version_stamp rows s) (λ (s', rest). IsAccounted p rest s')
  unfolding delete_pass
  delete_pass-IsAccounted [] s a = a
  delete_pass-IsAccounted (row ∷ rows) s a =
      go (λ s' a'. delete_pass-IsAccounted rows s' a') row.state
    where
      go :
          ((s' : Run)
            → IsAccounted p rows s'
            → Returns (delete_pass c.version_stamp rows s') (λ (s'', rest). IsAccounted p rest s''))
          → (state : CacheState)
          → Returns {A = Run × List CacheEntryRow}
              (elim (is_deleted state) [
                | true ↦
                    delete_row c.version_stamp row s >>= λ s'. delete_pass c.version_stamp rows s'
                | false ↦ ok (s, row ∷ rows)
              ])
              (λ (s', rest). IsAccounted p rest s')
      go rest deleted =
          Returns-bind (IsAccounted p rows) _ _ _
            (delete_row-IsAccounted p rows c.version_stamp row s a) rest
      go rest created = a
      go rest modified = a
      go rest unchanged = a

  IsAccounted-at_end :
      (l : Loop)
      → IsAccounted p l.rows l.run
      → Returns
          (throw_if_pool_errored l.run.metadata_error >>= λ _.
            throw_if_pool_errored l.run.stream_error >>= λ _. ok l)
          (λ l'. IsAccounted p l'.rows l'.run × (failing l'.run ≡ false))
  unfolding throw_if_pool_errored failing
  IsAccounted-at_end l a = go l.run.metadata_error l.run.stream_error refl refl
    where
      go :
          (metadata stream : Option Failure)
          → l.run.metadata_error ≡ metadata
          → l.run.stream_error ≡ stream
          → Returns
              (throw_if_pool_errored metadata >>= λ _. throw_if_pool_errored stream >>= λ _. ok l)
              (λ l'. IsAccounted p l'.rows l'.run × (failing l'.run ≡ false))
      go (some e) stream q r = tt
      go none (some e) q r = tt
      go none none q r = (a, unfold failing in rw (q, r))

  apply_local_changes-IsAccounted :
      (k : Candidate) (dirty : List CacheEntryRow) (schedule : List Event)
      → contains p (map cache_path dirty) ≡ true
      → Returns
          (apply_local_changes c k dirty schedule)
          (λ l. IsAccounted p l.rows l.run × (failing l.run ≡ false))
  unfolding apply_local_changes
  apply_local_changes-IsAccounted k dirty schedule due =
      Returns-bind (λ (r : Run × List CacheEntryRow). IsAccounted p r.1 r.0) _ _ _
        (delete_pass-IsAccounted dirty (start_run k.0 k.1 k.2 k.3 c.version_stamp) (pending due))
        λ (s, rows) a.
          Returns-bind (λ (l : Loop). IsAccounted p l.rows l.run) _ _ _
            (run_schedule-IsAccounted schedule (record { rows = rows; run = s }) a)
            IsAccounted-at_end

resolved_of_idle :
    (p : String) (rows : List CacheEntryRow) (s : Run)
    → rows ≡ []
    → s.in_flight_by_hash ≡ []
    → failing s ≡ false
    → IsAccounted p rows s
    → resolved p s ≡ true
resolved_of_idle p rows s no_rows no_jobs fine (pending h) =
    absurd (ground (arith, ap (λ l. contains p (map cache_path l)) no_rows))
resolved_of_idle p rows s no_rows no_jobs fine (settled h) = h
resolved_of_idle p rows s no_rows no_jobs fine (aborted h) = cc
resolved_of_idle p rows s no_rows no_jobs fine (riding hash j found h) =
    cc (ap (Table.find job_hash hash) no_jobs, find-nil {K = String} {R = Job} job_hash hash, found)

-- No local change is lost: when a run over the dirty rows has returned, with no row left and no job
-- in flight, whatever the order in which the bucket and the mirror answered, every dirty row
-- was handled, left as a conflict, or reported as failed.
pub no_row_lost :
    (c : Settings) (k : Candidate) (dirty : List CacheEntryRow) (schedule : List Event) {l : Loop}
    (p : String)
    → apply_local_changes c k dirty schedule ≡ ok l
    → l.rows ≡ []
    → l.run.in_flight_by_hash ≡ []
    → contains p (map cache_path dirty) ≡ true
    → resolved p l.run ≡ true
no_row_lost c k dirty schedule {l} p e no_rows no_jobs due =
    let (a, fine) =
      of_Returns (λ (l' : Loop). IsAccounted p l'.rows l'.run × (failing l'.run ≡ false)) _
        (apply_local_changes-IsAccounted p c k dirty schedule due) e in
    resolved_of_idle p l.rows l.run no_rows no_jobs fine a
