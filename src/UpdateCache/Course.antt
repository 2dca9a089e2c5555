-- ===== src/UpdateCache/Course.antt =====
-- A scan from its start to its end: at every path the loop is still to come, or a job is under way, or
-- the expected row is staged.
use mathlib.Core.Path.{subst}
use mathlib.Core.Option.{some-ne-none, some-injective}
use sync.Prelude.{
  String, false, Option, none, some, List, [], ◌∷◌, ◌≡◌, refl, sym, ◌∙◌, ◌==◌, string_eq, inl, inr,
  ◌⊎◌, Bool-cases, arith, All,
}
use sync.Prelude.Table
use sync.Prelude.Table.{find-remove, find-nil, key-find}
use sync.Errors.{Failure, Result, ok, throw}
use sync.Sync.Rows.{CacheState, CacheEntryRow}
use sync.Sync.Soundness.Rows.{Returns, Returns-map, Returns-bind, bind-Returns, of_Returns}
use sync.Sync.MergeJoin.{Step, step_path}
use sync.Sync.MergeJoin.Laws.{IsAligned, NodupSteps, step_at, step_at-here, step_at-other, join}
use sync.UpdateCache.{
  WalkEntry, walk_path, Arguments, HashJob, job_path, Scan, counting, insert, scan_step,
  finalize_created,
}
use sync.UpdateCache.Expected.{
  expected, is_dropped, job_row, updated_row-path, finalize_existing-insert,
}
use sync.UpdateCache.Steps.{At, At-counting, get_job, insert-here, insert-other, scan_step-other}
use sync.UpdateCache.Reached.{Reached, settled, hashing, IsJobAt, kept, scan_step-here}
use sync.UpdateCache.Run.{
  Event, next_entry, hashed, Pass, keep_error, settle, finalize_job, end_job, next_step, scan_turn,
  scan_schedule,
}

pub finalize_job-insert :
    (c : Arguments) (e : WalkEntry) (row : Option CacheEntryRow) (hash : String) (s : Scan)
    → (k : CacheState) × (finalize_job c e row hash s
        ≡ insert (job_row c e row hash) (counting k s))
unfolding finalize_job finalize_created job_row
finalize_job-insert c e none hash s = (CacheState.created, refl)
finalize_job-insert c e (some r) hash s = finalize_existing-insert e r (some hash) (some e.size) s

pub job_row-path :
    (c : Arguments) (q : String) (e : WalkEntry) (row : Option CacheEntryRow) (hash : String)
    → IsJobAt q e row
    → (job_row c e row hash).path ≡ q
unfolding job_row
job_row-path c q e none hash at = at
job_row-path c q e (some r) hash (at, aligned) =
    updated_row-path r e (some hash) (some e.size) aligned ∙ at

module _ (c : Arguments) (before : String → Option CacheEntryRow)
    (entry : String → Option WalkEntry) where
  pub data IsOnCourse (p : String) (steps : List (Step WalkEntry)) (s : Scan) : Type 0 where
    coming :
        step_at walk_path p steps ≡ join walk_path (before p) (entry p)
        → At p none none (before p) s
        → IsOnCourse p steps s
    met :
        (x : Step WalkEntry)
        → step_at walk_path p steps ≡ none
        → join walk_path (before p) (entry p) ≡ some x
        → Reached c p (kept (is_dropped c x) (before p)) (expected c x) s
        → IsOnCourse p steps s

  -- A job has failed, or every path is on its course.
  abbrev pub OnCourse : Pass → Type 0
  OnCourse l =
      ((e : Failure) × (l.hash_error ≡ some e)) ⊎ ((p : String) → IsOnCourse p l.steps l.scan)

  Reached-kept :
      (p : String) (row : Option CacheEntryRow) (wanted : Result (Option CacheEntryRow)) (s : Scan)
      (m : Result Scan)
      → ((staged : Option CacheEntryRow) (job : Option HashJob)
          → At p staged job row s
          → Returns m (At p staged job row))
      → Reached c p row wanted s
      → Returns m (Reached c p row wanted)
  Reached-kept p row wanted s m keeps (settled staged h w) =
      Returns-map (At p staged none row) _ m (keeps staged none h) (λ s' h'. settled staged h' w)
  Reached-kept p row wanted s m keeps (hashing j h at w) =
      Returns-map (At p none (some j) row) _ m (keeps none (some j) h) (λ s' h'. hashing j h' at w)

  -- What leaves a path alone leaves it on its course.
  IsOnCourse-kept :
      (p : String) (steps steps' : List (Step WalkEntry)) (s : Scan) (m : Result Scan)
      → step_at walk_path p steps' ≡ step_at walk_path p steps
      → ((staged : Option CacheEntryRow) (job : Option HashJob) (row : Option CacheEntryRow)
          → At p staged job row s
          → Returns m (At p staged job row))
      → IsOnCourse p steps s
      → Returns m (IsOnCourse p steps')
  IsOnCourse-kept p steps steps' s m same keeps (coming at h) =
      Returns-map (At p none none (before p)) _ m (keeps none none (before p) h)
        (λ s' h'. coming (same ∙ at) h')
  IsOnCourse-kept p steps steps' s m same keeps (met x gone is_x r) =
      Returns-map (Reached c p (kept (is_dropped c x) (before p)) (expected c x)) _ m
        (Reached-kept p _ _ s m (λ staged job h. keeps staged job _ h) r)
        (λ s' r'. met x (same ∙ gone) is_x r')

  pub scan_step-IsOnCourse :
      (x : Step WalkEntry) (steps : List (Step WalkEntry)) (s : Scan) (p : String)
      → step_at walk_path (step_path walk_path x) steps ≡ none
      → IsAligned walk_path x
      → IsOnCourse p (x ∷ steps) s
      → Returns (scan_step c x s) (IsOnCourse p steps)
  scan_step-IsOnCourse x steps s p fresh aligned on =
      elim (Bool-cases (step_path walk_path x == p)) [
        | inl same ↦
            let at : step_path walk_path x ≡ p = ground arith in
            here at (subst (λ q. step_at walk_path q steps ≡ none) at fresh) on
        | inr other ↦
            IsOnCourse-kept p (x ∷ steps) steps s (scan_step c x s)
              (sym (step_at-other walk_path p x steps other))
              (λ staged job row h. scan_step-other c p staged job row x s other aligned h) on
      ]
    where
      here :
          step_path walk_path x ≡ p
          → step_at walk_path p steps ≡ none
          → IsOnCourse p (x ∷ steps) s
          → Returns (scan_step c x s) (IsOnCourse p steps)
      here at gone (coming is_x h) =
          Returns-map (Reached c p (kept (is_dropped c x) (before p)) (expected c x)) _
            (scan_step c x s) (scan_step-here c p (before p) x s at aligned h)
            (λ s' r. met x gone (sym is_x ∙ step_at-here walk_path p x steps at) r)
      here at gone (met y none_left is_y r) =
          absurd (some-ne-none x (sym (step_at-here walk_path p x steps at) ∙ none_left))

  next_step-OnCourse :
      (l : Pass)
      → NodupSteps walk_path l.steps
      → All (IsAligned walk_path) l.steps
      → OnCourse l
      → Returns
          (next_step c l.steps l)
          (λ l'. NodupSteps walk_path l'.steps × All (IsAligned walk_path) l'.steps × OnCourse l')
  unfolding next_step
  next_step-OnCourse l nodup aligned on = go l.steps refl nodup aligned
    where
      go :
          (steps : List (Step WalkEntry))
          → l.steps ≡ steps
          → NodupSteps walk_path steps
          → All (IsAligned walk_path) steps
          → Returns (next_step c steps l) (λ l'.
            NodupSteps walk_path l'.steps × All (IsAligned walk_path) l'.steps × OnCourse l')
      go [] same nodup aligned = unfold next_step in (rw same tt, rw same tt, on)
      go (x ∷ steps) same (fresh, nodup) (at, aligned) =
          unfold next_step in
          bind-Returns
            (λ l'. NodupSteps walk_path l'.steps × All (IsAligned walk_path) l'.steps × OnCourse l')
            (scan_step c x l.scan) _
            (λ s scanned. (
              nodup,
              aligned,
              elim on [
                | inl failed ↦ inl failed
                | inr fine ↦ inr λ p.
                    of_Returns (IsOnCourse p steps) (scan_step c x l.scan)
                      (scan_step-IsOnCourse x steps l.scan p fresh at
                        (subst (λ y. IsOnCourse p y l.scan) same (fine p)))
                      scanned
              ],
            ))

  error_stays :
      (error : Option Failure) (e : Failure) → (f : Failure) × (keep_error error e ≡ some f)
  unfolding keep_error
  error_stays none e = (e, refl)
  error_stays (some f) e = (f, refl)

  abbrev pub without : HashJob → Scan → Scan
  without j s = record s { jobs = Table.remove job_path j.entry.path s.jobs }

  At-without :
      (j : HashJob) (p : String) (staged : Option CacheEntryRow) (job : Option HashJob)
      (row : Option CacheEntryRow) (s : Scan)
      → (j.entry.path == p) ≡ false
      → At p staged job row s
      → At p staged job row (without j s)
  At-without j p staged job row s other h =
      (h.0, rw (find-remove job_path p j.entry.path s.jobs, other) (h.1), h.2)

  -- The row of the job that ends is staged at its path.
  end_job-here :
      (j : HashJob) (hash : String) (p : String) (k : CacheState)
      (wanted : Result (Option CacheEntryRow)) (row : Option CacheEntryRow) (s : Scan)
      → j.entry.path ≡ p
      → IsJobAt p j.entry j.row
      → c.hash_file p ≡ ok hash
      → get_job p s.jobs ≡ some j
      → Reached c p row wanted s
      → Returns
          (insert (job_row c j.entry j.row hash) (counting k (without j s)))
          (Reached c p row wanted)
  end_job-here j hash p k wanted row s at job answer found (settled staged h w) =
      absurd (some-ne-none j (sym found ∙ h.1))
  end_job-here j hash p k wanted row s at job answer found (hashing i h is_i w) =
      let same : i ≡ j = some-injective i j (sym (h.1) ∙ found) in
      let gone : get_job p (Table.remove job_path j.entry.path s.jobs) ≡ none =
        find-remove job_path p j.entry.path s.jobs ∙ ground (arith, at) in
      let wanted_row : wanted ≡ ok (some (job_row c j.entry j.row hash)) =
        w ∙ rw (answer, same) refl in
      Returns-map (At p (some (job_row c j.entry j.row hash)) none row) _ _
        (insert-here p none row (job_row c j.entry j.row hash) (counting k (without j s))
          (job_row-path c p j.entry j.row hash job)
          (At-counting p none none row k (without j s) (h.0, gone, h.2)))
        (λ s' h'. settled (some (job_row c j.entry j.row hash)) h' wanted_row)

  -- What a job's end does at a path, where no job failed before.
  end_job-IsOnCourse :
      (j : HashJob) (hash : String) (q p : String) (k : CacheState) (steps : List (Step WalkEntry))
      (s : Scan)
      → get_job q s.jobs ≡ some j
      → IsJobAt q j.entry j.row
      → c.hash_file j.entry.path ≡ ok hash
      → IsOnCourse p steps s
      → Returns
          (insert (job_row c j.entry j.row hash) (counting k (without j s)))
          (IsOnCourse p steps)
  end_job-IsOnCourse j hash q p k steps s found job answer on =
      let key : j.entry.path ≡ q = key-find job_path q s.jobs j found in
      elim (Bool-cases (j.entry.path == p)) [
        | inl same ↦
            let at : q ≡ p = ground (arith, key) in
            here (key ∙ at) (subst (λ y. get_job y s.jobs ≡ some j) at found)
              (subst (λ y. IsJobAt y j.entry j.row) at job) on
        | inr other ↦
            IsOnCourse-kept p steps steps s _ refl
              (λ staged job' row h.
                insert-other p staged job' row (job_row c j.entry j.row hash) _
                  (rw (job_row-path c q j.entry j.row hash job, sym key) other)
                  (At-counting p staged job' row k (without j s)
                    (At-without j p staged job' row s other h)))
              on
      ]
    where
      here :
          j.entry.path ≡ p
          → get_job p s.jobs ≡ some j
          → IsJobAt p j.entry j.row
          → IsOnCourse p steps s
          → Returns
              (insert (job_row c j.entry j.row hash) (counting k (without j s)))
              (IsOnCourse p steps)
      here at found job (coming is_x h) = absurd (some-ne-none j (sym found ∙ h.1))
      here at found job (met x gone is_x r) =
          Returns-map (Reached c p (kept (is_dropped c x) (before p)) (expected c x)) _ _
            (end_job-here j hash p k (expected c x) (kept (is_dropped c x) (before p)) s at job
              (subst (λ y. c.hash_file y ≡ ok hash) at answer) found r)
            (λ s' r'. met x gone is_x r')

  job_of :
      (q : String) (steps : List (Step WalkEntry)) (s : Scan) (j : HashJob)
      → get_job q s.jobs ≡ some j
      → IsOnCourse q steps s
      → IsJobAt q j.entry j.row
  job_of q steps s j found (coming at h) = absurd (some-ne-none j (sym found ∙ h.1))
  job_of q steps s j found (met x gone is_x (settled staged h w)) =
      absurd (some-ne-none j (sym found ∙ h.1))
  job_of q steps s j found (met x gone is_x (hashing i h is_i w)) =
      subst (λ (y : HashJob). IsJobAt q y.entry y.row) (some-injective i j (sym (h.1) ∙ found)) is_i

  settle-OnCourse :
      (l : Pass) (left : Scan) (m : Result Scan)
      → ((e : Failure) × (l.hash_error ≡ some e))
        ⊎ ((p : String) → Returns m (IsOnCourse p l.steps))
      → OnCourse (settle l left m)
  unfolding settle
  settle-OnCourse l left (ok s) on = on
  settle-OnCourse l left (throw e) on = inl (error_stays l.hash_error e)

  settle-steps : (l : Pass) (left : Scan) (m : Result Scan) → (settle l left m).steps ≡ l.steps
  unfolding settle
  settle-steps l left (ok s) = refl
  settle-steps l left (throw e) = refl

  end_job-steps : (found : Option HashJob) (l : Pass) → (end_job c found l).steps ≡ l.steps
  unfolding end_job
  end_job-steps none l = refl
  end_job-steps (some j) l = settle-steps l _ _

  pub end_job-OnCourse :
      (q : String) (l : Pass) → OnCourse l → OnCourse (end_job c (get_job q l.scan.jobs) l)
  end_job-OnCourse q l on = go (get_job q l.scan.jobs) refl
    where
      go : (found : Option HashJob) → get_job q l.scan.jobs ≡ found → OnCourse (end_job c found l)
      go none found = unfold end_job in on
      go (some j) found =
          unfold end_job in
          settle-OnCourse l (without j l.scan) _ (elim on [
            | inl failed ↦ inl failed
            | inr fine ↦ inr λ p.
                bind-Returns (IsOnCourse p l.steps) (c.hash_file j.entry.path) _ λ hash answer.
                  let inserting = finalize_job-insert c j.entry j.row hash (without j l.scan) in
                  rw (inserting.1) (
                    end_job-IsOnCourse j hash q p (inserting.0) l.steps l.scan found
                      (job_of q l.steps l.scan j found (fine q)) answer (fine p))
          ])

  scan_turn-OnCourse :
      (e : Event) (l : Pass)
      → NodupSteps walk_path l.steps
      → All (IsAligned walk_path) l.steps
      → OnCourse l
      → Returns
          (scan_turn c e l)
          (λ l'. NodupSteps walk_path l'.steps × All (IsAligned walk_path) l'.steps × OnCourse l')
  unfolding scan_turn
  scan_turn-OnCourse next_entry l nodup aligned on = next_step-OnCourse l nodup aligned on
  scan_turn-OnCourse (hashed q) l nodup aligned on =
      let steps = end_job-steps (get_job q l.scan.jobs) l in
      (rw steps nodup, rw steps aligned, end_job-OnCourse q l on)

  pub scan_schedule-OnCourse :
      (events : List Event) (l : Pass)
      → NodupSteps walk_path l.steps
      → All (IsAligned walk_path) l.steps
      → OnCourse l
      → Returns (scan_schedule c events l) OnCourse
  unfolding scan_schedule
  scan_schedule-OnCourse [] l nodup aligned on = on
  scan_schedule-OnCourse (e ∷ events) l nodup aligned on =
      Returns-bind
        (λ l'. NodupSteps walk_path l'.steps × All (IsAligned walk_path) l'.steps × OnCourse l')
        OnCourse (scan_turn c e l) _ (scan_turn-OnCourse e l nodup aligned on)
        (λ l' (nodup', aligned', on'). scan_schedule-OnCourse events l' nodup' aligned' on')
