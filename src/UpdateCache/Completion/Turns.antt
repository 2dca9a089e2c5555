-- ===== src/UpdateCache/Completion/Turns.antt =====
-- A turn of the scan with the end of the job that it left: the next turn finds no job in flight.
use mathlib.Core.Path.{subst}
use mathlib.Core.Option.{some-ne-none, some-injective}
use sync.Prelude.{
  String, false, Option, none, some, List, [], ◌∷◌, ◌≡◌, refl, sym, ap, ◌∙◌, ◌==◌, option_eq,
  nat_eq, string_eq, inl, inr, Bool-cases, arith, ==-refl,
}
use sync.Prelude.Table
use sync.Prelude.Table.{find-remove, find-nil, key-find}
use sync.Errors.{Result, ok, ◌>>=◌, bind-ok}
use sync.Sync.Rows.{CacheState, CacheEntryRow, cache_path, get_cache}
use sync.Sync.Soundness.Rows.{Returns, of_Returns}
use sync.Sync.MergeJoin.{Step, step_path}
use sync.Sync.MergeJoin.Laws.{IsAligned, NodupSteps, step_at-here}
use sync.UpdateCache.{
  WalkEntry, walk_path, Arguments, HashJob, job_path, Scan, counting, insert, scan_step,
}
use sync.UpdateCache.Expected.{expected, is_dropped, job_row}
use sync.UpdateCache.Steps.{At, get_job, scan_step-other}
use sync.UpdateCache.Reached.{Reached, settled, hashing, IsJobAt, kept, scan_step-here}
use sync.UpdateCache.Run.{
  Event, next_entry, hashed, Pass, settle, finalize_job, end_job, next_step, scan_turn,
  scan_schedule,
}
use sync.UpdateCache.Course.{
  IsOnCourse, coming, met, OnCourse, finalize_job-insert, job_row-path, end_job-OnCourse,
  scan_step-IsOnCourse,
}
use sync.UpdateCache.Completion.Steps.{Succeeds, count-Succeeds, scan_step-Succeeds}

-- No job is in flight.
abbrev pub IsIdle : Scan → Type 0
IsIdle s = (q : String) → get_job q s.jobs ≡ none

pub IsIdle-nil : (jobs : List HashJob) → ((q : String) → get_job q jobs ≡ none) → jobs ≡ []
unfolding Table.find
IsIdle-nil [] idle = refl
IsIdle-nil (j ∷ jobs) idle = absurd (some-ne-none j (sym (first j jobs) ∙ idle j.entry.path))
  where
    first : (j : HashJob) (jobs : List HashJob) → get_job j.entry.path (j ∷ jobs) ≡ some j
    first j jobs = unfold Table.find in rw (==-refl j.entry.path) refl

job_path-IsJobAt :
    (p : String) (e : WalkEntry) (row : Option CacheEntryRow) → IsJobAt p e row → e.path ≡ p
job_path-IsJobAt p e none at = at
job_path-IsJobAt p e (some r) at = at.0

module _ (c : Arguments) (before : String → Option CacheEntryRow)
    (entry : String → Option WalkEntry) where
  -- The job at a path ends well where its expected row exists.
  end_job-Succeeds :
      (p : String) (row : Option CacheEntryRow) (wanted : Result (Option CacheEntryRow)) (s : Scan)
      (j : HashJob)
      → get_job p s.jobs ≡ some j
      → Reached c p row wanted s
      → Succeeds wanted
      → (hash : String) × (c.hash_file j.entry.path ≡ ok hash)
        × (get_cache (job_row c j.entry j.row hash).path s.staged ≡ none)
  end_job-Succeeds p row wanted s j found (settled staged h w) good =
      absurd (some-ne-none j (sym found ∙ h.1))
  end_job-Succeeds p row wanted s j found (hashing i h at w) good =
      let same : i ≡ j = some-injective i j (sym (h.1) ∙ found) in
      let hashed = bind-ok (c.hash_file p) _ (good.0) (sym w ∙ good.1) in
      let at_j = subst (λ (y : HashJob). IsJobAt p y.entry y.row) same at in
      let path : j.entry.path ≡ p = job_path-IsJobAt p j.entry j.row at_j in
      (
        hashed.0,
        ap c.hash_file path ∙ hashed.1,
        rw (job_row-path c p j.entry j.row (hashed.0) at_j) (h.0),
      )

  -- Between two turns of the plan: no error, no job, and every path on its course.
  pub record IsReady (steps : List (Step WalkEntry)) (l : Pass) : Type 0 where
    pub to_come : l.steps ≡ steps
    pub no_error : l.hash_error ≡ none
    pub idle : IsIdle l.scan
    pub each : (p : String) → IsOnCourse c before entry p steps l.scan

  jobs_of_insert : (r : CacheEntryRow) (s : Scan) → Returns (insert r s) (λ s'. s'.jobs ≡ s.jobs)
  unfolding insert
  jobs_of_insert r s = elim (Bool-cases (Table.has cache_path r.path s.staged)) [
    | inl y ↦ rw y tt
    | inr n ↦ rw n refl
  ]

  counted_jobs :
      (r : CacheEntryRow) (k : CacheState) (s : Scan)
      → Returns (insert r (counting k s)) (λ s'. s'.jobs ≡ s.jobs)
  unfolding counting
  counted_jobs r k s = jobs_of_insert r (counting k s)

  -- The job that a turn left, if it left one, ends well and leaves none.
  settled_job :
      (x : Step WalkEntry) (row : Option CacheEntryRow) (steps : List (Step WalkEntry)) (l : Pass)
      → l.steps ≡ steps
      → l.hash_error ≡ none
      → ((q : String) → (step_path walk_path x == q) ≡ false → get_job q l.scan.jobs ≡ none)
      → ((p : String) → IsOnCourse c before entry p steps l.scan)
      → Reached c (step_path walk_path x) row (expected c x) l.scan
      → Succeeds (expected c x)
      → IsReady steps (end_job c (get_job (step_path walk_path x) l.scan.jobs) l)
  settled_job x row steps l here fine others each reached good =
      go (get_job (step_path walk_path x) l.scan.jobs) refl
    where
      go :
          (found : Option HashJob)
          → get_job (step_path walk_path x) l.scan.jobs ≡ found
          → IsReady steps (end_job c found l)
      go none found =
          unfold end_job in
          record {
            to_come = here;
            no_error = fine;
            idle = λ q. elim (Bool-cases (step_path walk_path x == q)) [
              | inl same ↦ subst (λ y. get_job y l.scan.jobs ≡ none) (ground arith) found
              | inr other ↦ others q other
            ];
            each = each;
          }
      go (some j) found =
          let p = step_path walk_path x in
          let good_end = end_job-Succeeds p row (expected c x) l.scan j found reached good in
          let hash = good_end.0 in
          let left : Scan = record l.scan {
            jobs = Table.remove job_path j.entry.path l.scan.jobs;
          } in
          let inserting = finalize_job-insert c j.entry j.row hash left in
          let staged =
            count-Succeeds (job_row c j.entry j.row hash) (inserting.0) left (good_end.2) in
          let s2 = staged.0 in
          let ends : end_job c (some j) l ≡ record l { scan = s2 } =
            unfold end_job settle in
            ap (settle l left) (
              ap (λ (r : Result String). r >>= λ h. finalize_job c j.entry j.row h left)
                (good_end.1)
              ∙ inserting.1
              ∙ staged.1) in
          let same_jobs : s2.jobs ≡ left.jobs =
            of_Returns (λ (s' : Scan). s'.jobs ≡ left.jobs)
              (insert (job_row c j.entry j.row hash) (counting (inserting.0) left))
              (counted_jobs (job_row c j.entry j.row hash) (inserting.0) left) (staged.1) in
          let path : j.entry.path ≡ p = key-find job_path p l.scan.jobs j found in
          let course =
            subst (OnCourse c before entry) (ap (λ o. end_job c o l) found ∙ ends)
              (end_job-OnCourse c before entry p l (inr λ q. rw here (each q))) in
          subst (IsReady steps) (sym ends) record {
            to_come = here;
            no_error = fine;
            idle = λ q.
                ap (get_job q) same_jobs
                ∙ find-remove job_path q j.entry.path l.scan.jobs
                ∙ elim (Bool-cases (j.entry.path == q)) [
                  | inl same ↦ rw same refl
                  | inr other ↦ rw other (others q (rw (sym path) other))
                ];
            each = λ q. elim course [
              | inl (e, failed) ↦ absurd (some-ne-none e (sym failed ∙ fine))
              | inr on ↦ subst (λ y. IsOnCourse c before entry q y s2) here (on q)
            ];
          }

  -- A path that is still to come has nothing yet.
  untouched :
      (x : Step WalkEntry) (steps : List (Step WalkEntry)) (s : Scan)
      → IsOnCourse c before entry (step_path walk_path x) (x ∷ steps) s
      → At (step_path walk_path x) none none (before (step_path walk_path x)) s
  untouched x steps s (coming is_x h) = h
  untouched x steps s (met y gone is_y r) =
      absurd
        (some-ne-none x (sym (step_at-here walk_path (step_path walk_path x) x steps refl) ∙ gone))

  -- One turn of the loop and the end of the job that it may have left.
  pub turns-IsReady :
      (x : Step WalkEntry) (steps : List (Step WalkEntry)) (l : Pass) (events : List Event)
      → NodupSteps walk_path (x ∷ steps)
      → IsAligned walk_path x
      → Succeeds (expected c x)
      → IsReady (x ∷ steps) l
      → (l' : Pass) × (scan_schedule c (next_entry ∷ hashed (step_path walk_path x) ∷ events) l
          ≡ scan_schedule c events l')
        × IsReady steps l'
  turns-IsReady x steps l events (fresh, nodup) aligned good ready =
      let p = step_path walk_path x in
      let s = l.scan in
      let at_p = untouched x steps s (ready.each p) in
      let step = scan_step-Succeeds c x s aligned (at_p.0) good in
      let s1 = step.0 in
      let l1 : Pass = record l { steps = steps; scan = s1 } in
      let turned : scan_turn c next_entry l ≡ ok l1 =
        unfold scan_turn next_step in rw (ready.to_come, step.1) refl in
      let others : (q : String) → (p == q) ≡ false → get_job q s1.jobs ≡ none = λ q other.
        (of_Returns (At q (get_cache q s.staged) none (get_cache q s.cache)) (scan_step c x s)
          (scan_step-other c q (get_cache q s.staged) none (get_cache q s.cache) x s other aligned
            (refl, ready.idle q, refl))
          (step.1)).1 in
      (
        end_job c (get_job p s1.jobs) l1,
        unfold scan_schedule scan_turn in rw turned refl,
        settled_job x (kept (is_dropped c x) (before p)) steps l1 refl (ready.no_error) others
            (λ q.
              of_Returns (IsOnCourse c before entry q steps) (scan_step c x s)
                (scan_step-IsOnCourse c before entry x steps s q fresh aligned (ready.each q))
                (step.1))
            (of_Returns _ (scan_step c x s) (scan_step-here c p (before p) x s refl aligned at_p)
              (step.1))
            good,
      )
