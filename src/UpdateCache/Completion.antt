-- ===== src/UpdateCache/Completion.antt =====
-- A run can be brought to its end.
pub mod Steps
pub mod Turns
use mathlib.Core.Path.{subst}
use mathlib.Core.Option.{some-ne-none, some-injective}
use sync.Prelude.{
  ℕ, String, Bool, false, not, ◌&&◌, Option, none, some, List, [], ◌∷◌, ◌++◌, ◌≡◌, refl, sym, ap,
  ◌∙◌, ◌==◌, option_eq, nat_eq, string_eq, inl, inr, Bool-cases, arith, All, ==-refl,
}
use sync.Prelude.Table
use sync.Prelude.Table.{find-remove, find-nil, key-find}
use sync.Errors.{Result, ok, ◌>>=◌, bind-ok}
use sync.Sync.Rows.{EntryType, CacheState, CacheEntryRow, cache_path, get_cache}
use sync.Sync.Soundness.Rows.{Returns, of_Returns}
use sync.Sync.MergeJoin.{Step, step_path, merge_join}
use sync.Sync.MergeJoin.Laws.{
  IsOrder, SortedCache, SortedEntries, IsAligned, NodupSteps, merge_join-NodupSteps, step_at-here,
  merge_join_lem, merge_join-IsAligned,
}
use sync.UpdateCache.{
  WalkEntry, walk_path, Arguments, HashJob, job_path, Scan, counting, insert, remove_stub, is_both,
  created_row, missing_row, is_deleted, is_created, is_ignored, ContentResolution, resolved,
  needs_hash, classify_content, assert_stubbable_real_file, finalize_created, resolve_created,
  resolve_existing, dispatch_created_row, dispatch_existing_directory, dispatch_existing_file,
  dispatch_existing, dispatch_existing_row, build_missing_from_fs_row, scan_step,
}
use sync.UpdateCache.Expected.{
  content_of, hash_if_needed, updated_row, expected, expected_existing, is_dropped, job_row,
  finalize_existing-insert, updated_row-path,
}
use sync.UpdateCache.Steps.{At, get_job, scan_step-other}
use sync.UpdateCache.Reached.{Reached, settled, hashing, IsJobAt, kept, scan_step-here}
use sync.UpdateCache.Run.{
  Event, next_entry, hashed, Pass, settle, finalize_job, end_job, next_step, scan_turn,
  scan_schedule, start_scan, on_idle, Updated, finish, perform_update_cache,
}
use sync.UpdateCache.Course.{
  IsOnCourse, coming, met, OnCourse, finalize_job-insert, job_row-path, end_job-OnCourse,
  scan_step-IsOnCourse,
}
use sync.UpdateCache.Completion.Steps.{Succeeds}
use sync.UpdateCache.Completion.Turns.{IsReady, IsIdle-nil, turns-IsReady}

abbrev pub plan : List (Step WalkEntry) → List Event
plan [] = []
plan (x ∷ steps) = next_entry ∷ hashed (step_path walk_path x) ∷ plan steps

module _ (c : Arguments) (before : String → Option CacheEntryRow)
    (entry : String → Option WalkEntry) where
  plan_completes :
      (steps : List (Step WalkEntry)) (l : Pass)
      → NodupSteps walk_path steps
      → All (IsAligned walk_path) steps
      → All (λ x. Succeeds (expected c x)) steps
      → IsReady c before entry steps l
      → (l' : Pass) × (scan_schedule c (plan steps) l ≡ ok l') × IsReady c before entry [] l'
  plan_completes [] l nodup aligned good ready = (l, unfold scan_schedule in refl, ready)
  plan_completes (x ∷ steps) l nodup (at, aligned) (has_row, good) ready =
      let turned = turns-IsReady c before entry x steps l (plan steps) nodup at has_row ready in
      let rest = plan_completes steps (turned.0) (nodup.1) aligned good (turned.2) in
      (rest.0, turned.1 ∙ rest.1, rest.2)

-- If every path that the walk or cache.db has comes to an expected row (its name leaves room for the
-- suffix of a stub, its stub names known content, its file can be hashed), then a run of
-- performUpdateCache can be brought to its end: under a schedule it returns, with every path met and
-- no job in flight. The two lists are sorted by the order that the loop compares with.
pub update_cache_completes :
    (c : Arguments) (collision_key : String → String) (lt : String → String → Bool) (o : IsOrder lt)
    (cache : List CacheEntryRow) (walk : List WalkEntry)
    → SortedCache lt o cache
    → SortedEntries walk_path lt o walk
    → All (λ x. Succeeds (expected c x)) (merge_join walk_path lt cache walk)
    → (schedule : List Event) × (u : Updated) × (perform_update_cache c collision_key lt cache walk
          schedule
        ≡ ok u)
      × (u.pass.steps ≡ [])
      × (u.pass.scan.jobs ≡ [])
unfolding perform_update_cache finish
update_cache_completes c collision_key lt o cache walk sc se good =
    let before = λ (p : String). get_cache p cache in
    let entry = λ (p : String). Table.find walk_path p walk in
    let steps = merge_join walk_path lt cache walk in
    let start : Pass = record { steps = steps; scan = start_scan cache; hash_error = none } in
    let ready : IsReady c before entry steps start = record {
      to_come = refl;
      no_error = refl;
      idle = λ q. find-nil {K = String} {R = HashJob} job_path q;
      each = λ q. coming (merge_join_lem walk_path lt o q cache walk sc se) (
        find-nil {K = String} {R = CacheEntryRow} cache_path q,
        find-nil {K = String} {R = HashJob} job_path q,
        refl,
      );
    } in
    let run =
      plan_completes c before entry steps start
        (merge_join-NodupSteps walk_path lt o cache walk sc se)
        (merge_join-IsAligned walk_path lt o cache walk) good ready in
    (
      plan steps,
      finish collision_key (run.0),
      rw (run.1) (rw (run.2.no_error) (unfold on_idle in refl)),
      run.2.to_come,
      IsIdle-nil (run.0).scan.jobs run.2.idle,
    )
