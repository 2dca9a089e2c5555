-- ===== src/UpdateCache/Outcome.antt =====
-- What a whole run of performUpdateCache leaves in cache.db.
use mathlib.Core.Path.{subst}
use mathlib.Core.Option.{some-ne-none}
use sync.Prelude.{
  String, Bool, true, false, Option, none, some, List, [], ◌∷◌, ◌++◌, map, ◌≡◌, refl, sym, ap, ◌∙◌,
  ◌==◌, contains, leb, length, string_eq, inl, inr, Bool-cases, arith, if◌then◌else◌,
}
use sync.Prelude.Table
use sync.Prelude.Table.{find-upsert, find-nil}
use sync.Errors.{Failure, ok, ◌>>◌}
use sync.Sync.Rows.{CacheEntryRow, cache_path, get_cache}
use sync.Sync.Soundness.Rows.{Returns, Returns-bind, of_Returns}
use sync.Sync.Reconcile.Laws.{Returns-both}
use sync.Sync.MergeJoin.{Step, merge_join}
use sync.Sync.MergeJoin.Laws.{
  IsOrder, SortedCache, SortedEntries, join, merge_join_lem, merge_join-NodupSteps,
  merge_join-IsAligned, step_at, step_at-nil,
}
use sync.UpdateCache.{WalkEntry, walk_path, Arguments, HashJob, job_path, Scan}
use sync.UpdateCache.Collisions.{collision_path, detect_case_collisions}
use sync.UpdateCache.Expected.{expected, is_dropped}
use sync.UpdateCache.Steps.{get_job}
use sync.UpdateCache.Reached.{settled, hashing, kept}
use sync.UpdateCache.Run.{
  Event, Pass, scan_schedule, start_scan, flush, apply_rows, apply_staged_rows, apply_batch_size,
  on_idle, Updated, finish, perform_update_cache,
}
use sync.UpdateCache.Course.{IsOnCourse, coming, met, OnCourse, scan_schedule-OnCourse}
use sync.UpdateCache.Distinct.{
  IsDistinct, HasDistinct, scan_schedule-HasDistinct, SortedCache-IsDistinct,
}

-- The staged row where there is one, the old one otherwise.
abbrev pub over : Option CacheEntryRow → Option CacheEntryRow → Option CacheEntryRow
over none old = old
over (some r) old = some r

-- Batches of 500 are a manner of writing the rows one by one.
abbrev included : List String → List CacheEntryRow → List CacheEntryRow
included excluded [] = []
included excluded (r ∷ rows) =
    if contains r.path excluded then included excluded rows else r ∷ included excluded rows

flush-append :
    (xs ys cache : List CacheEntryRow) → flush (xs ++ ys) cache ≡ flush ys (flush xs cache)
unfolding flush
flush-append [] ys cache = refl
flush-append (x ∷ xs) ys cache = flush-append xs ys (Table.upsert cache_path x cache)

apply_rows-flush :
    (excluded : List String) (rows batch cache : List CacheEntryRow)
    → apply_rows excluded rows batch cache ≡ flush (included excluded rows) (flush batch cache)
unfolding apply_rows flush
apply_rows-flush excluded [] batch cache = refl
apply_rows-flush excluded (r ∷ rows) batch cache = elim (Bool-cases (contains r.path excluded)) [
  | inl out ↦ rw out (apply_rows-flush excluded rows batch cache)
  | inr inside ↦ rw inside (elim (Bool-cases (leb apply_batch_size (length (batch ++ (r ∷ []))))) [
    | inl full ↦ rw full (
        apply_rows-flush excluded rows [] (flush (batch ++ (r ∷ [])) cache)
        ∙ ap (flush (included excluded rows)) (flush-append batch (r ∷ []) cache))
    | inr more ↦ rw more (
        apply_rows-flush excluded rows (batch ++ (r ∷ [])) cache
        ∙ ap (flush (included excluded rows)) (flush-append batch (r ∷ []) cache))
  ])
]

find-flush :
    (p : String) (rows cache : List CacheEntryRow)
    → IsDistinct rows
    → get_cache p (flush rows cache) ≡ over (get_cache p rows) (get_cache p cache)
unfolding flush Table.find
find-flush p [] cache h = refl
find-flush p (r ∷ rows) cache (first, h) =
    find-flush p rows (Table.upsert cache_path r cache) h ∙ elim (Bool-cases (r.path == p)) [
      | inl same ↦
          let at : r.path ≡ p = ground arith in
          let gone : get_cache p rows ≡ none = subst (λ q. get_cache q rows ≡ none) at first in
          rw (find-upsert cache_path p r cache, same, gone) refl
      | inr other ↦ rw (find-upsert cache_path p r cache, other) refl
    ]

find-included :
    (p : String) (excluded : List String) (rows : List CacheEntryRow)
    → get_cache p (included excluded rows)
      ≡ (if contains p excluded then none else get_cache p rows)
unfolding Table.find
find-included p excluded [] = ground arith
find-included p excluded (r ∷ rows) = ground (arith, find-included p excluded rows)

IsDistinct-included :
    (excluded : List String) (rows : List CacheEntryRow)
    → IsDistinct rows
    → IsDistinct (included excluded rows)
IsDistinct-included excluded [] h = tt
IsDistinct-included excluded (r ∷ rows) (first, h) = elim (Bool-cases (contains r.path excluded)) [
  | inl out ↦ rw out (IsDistinct-included excluded rows h)
  | inr inside ↦
      rw inside
        (find-included r.path excluded rows ∙ rw inside first, IsDistinct-included excluded rows h)
]

pub find-apply_staged_rows :
    (p : String) (staged : List CacheEntryRow) (excluded : List String) (cache : List CacheEntryRow)
    → IsDistinct staged
    → get_cache p (apply_staged_rows staged excluded cache) ≡ (
        if contains p excluded
        then get_cache p cache
        else over (get_cache p staged) (get_cache p cache))
unfolding apply_staged_rows flush
find-apply_staged_rows p staged excluded cache h =
    ap (get_cache p) (apply_rows-flush excluded staged [] cache)
    ∙ find-flush p (included excluded staged) cache (IsDistinct-included excluded staged h)
    ∙ ap (λ o. over o (get_cache p cache)) (find-included p excluded staged)
    ∙ elim (Bool-cases (contains p excluded)) [ inl y ↦ rw y refl | inr n ↦ rw n refl ]

-- What a path holds after a run: its old row where the path is excluded for a collision, otherwise the
-- row that is expected of it, if any, over the old one, unless that is dropped.
abbrev pub IsOutcome :
    Arguments
    → Bool
    → Option (Step WalkEntry)
    → Option CacheEntryRow
    → Option CacheEntryRow
    → Type 0
IsOutcome c excluded none before after = after ≡ none
IsOutcome c excluded (some x) before after =
    (staged : Option CacheEntryRow) × (expected c x ≡ ok staged)
    × (after ≡ (
        if excluded
        then kept (is_dropped c x) before
        else over staged (kept (is_dropped c x) before)))

no_row_of : (b : Option CacheEntryRow) (e : Option WalkEntry) → join walk_path b e ≡ none → b ≡ none
no_row_of none e h = refl
no_row_of (some r) none h = absurd (some-ne-none _ h)
no_row_of (some r) (some e) h = absurd (some-ne-none _ h)

either : (b : Bool) → (if b then none else over none none) ≡ none
either true = refl
either false = refl

IsOutcome-of_idle :
    (c : Arguments) (before : String → Option CacheEntryRow) (entry : String → Option WalkEntry)
    (p : String) (steps : List (Step WalkEntry)) (s : Scan) (excluded : List String)
    → steps ≡ []
    → s.jobs ≡ []
    → IsDistinct s.staged
    → IsOnCourse c before entry p steps s
    → IsOutcome c
        (contains p excluded)
        (join walk_path (before p) (entry p))
        (before p)
        (get_cache p (apply_staged_rows s.staged excluded s.cache))
IsOutcome-of_idle c before entry p steps s excluded no_steps no_jobs distinct (coming at h) =
    let empty : join walk_path (before p) (entry p) ≡ none =
      sym at ∙ ap (step_at walk_path p) no_steps ∙ step_at-nil walk_path p in
    let no_row : before p ≡ none = no_row_of (before p) (entry p) empty in
    rw empty (
      find-apply_staged_rows p s.staged excluded s.cache distinct
      ∙ rw (h.0, h.2, no_row) (either (contains p excluded)))
IsOutcome-of_idle c before entry p steps s excluded no_steps no_jobs distinct
      (met x gone is_x (settled staged h w)) =
    rw is_x
      (staged, w, find-apply_staged_rows p s.staged excluded s.cache distinct ∙ rw (h.0, h.2) refl)
IsOutcome-of_idle c before entry p steps s excluded no_steps no_jobs distinct
      (met x gone is_x (hashing j h is_j w)) =
    absurd (
      some-ne-none j
        (sym (h.1) ∙ ap (get_job p) no_jobs ∙ find-nil {K = String} {R = HashJob} job_path p))

module _ (c : Arguments) (collision_key : String → String) (lt : String → String → Bool)
    (o : IsOrder lt) (cache : List CacheEntryRow) (walk : List WalkEntry) where
  abbrev IsUpdated : String → Updated → Type 0
  IsUpdated p u =
      u.pass.steps ≡ []
      → u.pass.scan.jobs ≡ []
      → IsOutcome c (contains p (map collision_path u.collisions))
          (join walk_path (get_cache p cache) (Table.find walk_path p walk)) (get_cache p cache)
          (get_cache p u.cache)

  abbrev Scanned : Pass → Type 0
  Scanned l =
      OnCourse c (λ p. get_cache p cache) (λ p. Table.find walk_path p walk) l × HasDistinct l.scan

  -- A scan under any schedule, from the start of a run.
  start-Scanned :
      (schedule : List Event)
      → SortedCache lt o cache
      → SortedEntries walk_path lt o walk
      → Returns
          (scan_schedule c schedule (record {
            steps = merge_join walk_path lt cache walk;
            scan = start_scan cache;
            hash_error = none;
          }))
          Scanned
  start-Scanned schedule sc se =
      let before = λ (q : String). get_cache q cache in
      let entry = λ (q : String). Table.find walk_path q walk in
      let start : Pass = record {
        steps = merge_join walk_path lt cache walk;
        scan = start_scan cache;
        hash_error = none;
      } in
      let fresh : OnCourse c before entry start = inr λ q.
        coming (merge_join_lem walk_path lt o q cache walk sc se) (
          find-nil {K = String} {R = CacheEntryRow} cache_path q,
          find-nil {K = String} {R = HashJob} job_path q,
          refl,
        ) in
      Returns-both (OnCourse c before entry) (λ (l : Pass). HasDistinct l.scan) Scanned
        (scan_schedule c schedule start)
        (scan_schedule-OnCourse c before entry schedule start
          (merge_join-NodupSteps walk_path lt o cache walk sc se)
          (merge_join-IsAligned walk_path lt o cache walk) fresh)
        (scan_schedule-HasDistinct c schedule start (tt, SortedCache-IsDistinct lt o cache sc))
        (λ l on distinct. (on, distinct))

  -- What holds of a scan that has met no error holds of a run that returns.
  pub perform_update_cache-Returns :
      (P : Updated → Type 0) (schedule : List Event)
      → SortedCache lt o cache
      → SortedEntries walk_path lt o walk
      → ((l : Pass)
          → ((p : String)
              → IsOnCourse c
                  (λ q. get_cache q cache)
                  (λ q. Table.find walk_path q walk)
                  p
                  l.steps
                  l.scan)
          → HasDistinct l.scan
          → P (finish collision_key l))
      → Returns (perform_update_cache c collision_key lt cache walk schedule) P
  unfolding perform_update_cache
  perform_update_cache-Returns P schedule sc se ends =
      Returns-bind Scanned P _ _ (start-Scanned schedule sc se)
        (λ l scanned. ended l scanned l.hash_error refl)
    where
      ended :
          (l : Pass)
          → Scanned l
          → (error : Option Failure) → l.hash_error ≡ error
          → Returns (on_idle error >> ok (finish collision_key l)) P
      ended l scanned (some e) failed = unfold on_idle in tt
      ended l (on, distinct) none fine =
          unfold on_idle in
          elim on [
            | inl (e, failed) ↦ absurd (some-ne-none e (sym failed ∙ fine))
            | inr each ↦ ends l each distinct
          ]

  perform_update_cache-IsUpdated :
      (schedule : List Event) (p : String)
      → SortedCache lt o cache
      → SortedEntries walk_path lt o walk
      → Returns (perform_update_cache c collision_key lt cache walk schedule) (IsUpdated p)
  unfolding finish
  perform_update_cache-IsUpdated schedule p sc se =
      perform_update_cache-Returns (IsUpdated p) schedule sc se λ l each distinct no_steps no_jobs.
        IsOutcome-of_idle c (λ q. get_cache q cache) (λ q. Table.find walk_path q walk) p l.steps
          l.scan
          (map collision_path (detect_case_collisions collision_key l.scan.staged l.scan.cache))
          no_steps no_jobs distinct.0 (each p)

-- When a run has come to its end, with every path of the walk and of cache.db met and every hash job
-- done, in whatever order the jobs ended, then every path holds what is expected of it alone: the
-- expected row, if there is one, over the old row, unless that is dropped; a path that is excluded for
-- a collision keeps its old row, unless that is dropped. The two lists are sorted by the order that
-- the loop compares with.
pub update_cache_lem :
    (c : Arguments) (collision_key : String → String) (lt : String → String → Bool) (o : IsOrder lt)
    (cache : List CacheEntryRow) (walk : List WalkEntry) (schedule : List Event) (u : Updated)
    (p : String)
    → SortedCache lt o cache
    → SortedEntries walk_path lt o walk
    → perform_update_cache c collision_key lt cache walk schedule ≡ ok u
    → u.pass.steps ≡ []
    → u.pass.scan.jobs ≡ []
    → IsOutcome c
        (contains p (map collision_path u.collisions))
        (join walk_path (get_cache p cache) (Table.find walk_path p walk))
        (get_cache p cache)
        (get_cache p u.cache)
update_cache_lem c collision_key lt o cache walk schedule u p sc se ran =
    of_Returns (IsUpdated c collision_key lt o cache walk p) _
      (perform_update_cache-IsUpdated c collision_key lt o cache walk schedule p sc se) ran
