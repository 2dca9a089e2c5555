-- ===== src/UpdateCache/Distinct.antt =====
-- The staged rows have distinct paths, as the primary key of the staging table has it.
use sync.Prelude.{
  String, Bool, false, not, ◌&&◌, Option, none, some, List, [], ◌∷◌, ◌++◌, ◌≡◌, refl, ◌==◌,
  option_eq, nat_eq, string_eq, inl, inr, Bool-cases, arith, ◌∙◌,
}
use sync.Prelude.Table
use sync.Prelude.Table.{find-append_other, find-remove}
use sync.Errors.{Result, ok, throw}
use sync.Sync.Rows.{EntryType, CacheState, CacheEntryRow, cache_path, get_cache}
use sync.Sync.Soundness.Rows.{Returns, bind-Returns, Returns-bind}
use sync.Sync.MergeJoin.{Step}
use sync.Sync.MergeJoin.Laws.{IsOrder, SortedCache, absent_cache}
use sync.UpdateCache.{
  WalkEntry, Arguments, HashJob, job_path, Scan, counting, insert, remove_stub, is_both, is_deleted,
  is_created, is_ignored, ContentResolution, resolved, needs_hash, classify_content,
  assert_stubbable_real_file, finalize_created, resolve_created, resolve_existing,
  dispatch_created_row, dispatch_existing_directory, dispatch_existing_file, dispatch_existing,
  dispatch_existing_row, build_missing_from_fs_row, scan_step,
}
use sync.UpdateCache.Expected.{finalize_existing-insert}
use sync.UpdateCache.Run.{
  Event, next_entry, hashed, Pass, settle, end_job, next_step, scan_turn, scan_schedule,
}
use sync.UpdateCache.Course.{finalize_job-insert}

abbrev pub IsDistinct : List CacheEntryRow → Type 0
IsDistinct [] = Unit
IsDistinct (r ∷ rows) = (get_cache r.path rows ≡ none) × IsDistinct rows

IsDistinct-append_one :
    (r : CacheEntryRow) (rows : List CacheEntryRow)
    → Table.has cache_path r.path rows ≡ false
    → IsDistinct rows
    → IsDistinct (rows ++ (r ∷ []))
unfolding Table.has Table.find
IsDistinct-append_one r [] free h = (refl, tt)
IsDistinct-append_one r (x ∷ rows) free (first, h) =
    let other : (r.path == x.path) ≡ false = ground (arith, free) in
    let free_rest : Table.has cache_path r.path rows ≡ false =
      unfold Table.has in ground (arith, free) in
    (
      find-append_other cache_path x.path r rows other ∙ first,
      IsDistinct-append_one r rows free_rest h,
    )

IsDistinct-remove :
    (k : String) (rows : List CacheEntryRow)
    → IsDistinct rows
    → IsDistinct (Table.remove cache_path k rows)
unfolding Table.remove
IsDistinct-remove k [] h = tt
IsDistinct-remove k (x ∷ rows) (first, h) = elim (Bool-cases (x.path == k)) [
  | inl same ↦ rw same (IsDistinct-remove k rows h)
  | inr other ↦
      rw other
        (find-remove cache_path x.path k rows ∙ ground (arith, first), IsDistinct-remove k rows h)
]

pub SortedCache-IsDistinct :
    (lt : String → String → Bool) (o : IsOrder lt) (rows : List CacheEntryRow)
    → SortedCache lt o rows
    → IsDistinct rows
SortedCache-IsDistinct lt o [] sorted = tt
SortedCache-IsDistinct lt o (r ∷ rows) (above, sorted) =
    (absent_cache lt o r.path rows above, SortedCache-IsDistinct lt o rows sorted)

-- The staged rows of a scan are distinct, and so are the rows of cache.db.
abbrev pub HasDistinct : Scan → Type 0
HasDistinct s = IsDistinct s.staged × IsDistinct s.cache

insert-HasDistinct :
    (r : CacheEntryRow) (s : Scan) → HasDistinct s → Returns (insert r s) HasDistinct
unfolding insert
insert-HasDistinct r s h = elim (Bool-cases (Table.has cache_path r.path s.staged)) [
  | inl taken ↦ rw taken tt
  | inr free ↦ rw free (IsDistinct-append_one r s.staged free h.0, h.1)
]

count-HasDistinct : (k : CacheState) (s : Scan) → HasDistinct s → HasDistinct (counting k s)
unfolding counting
count-HasDistinct k s h = h

remove_stub-HasDistinct : (e : WalkEntry) (s : Scan) → HasDistinct s → HasDistinct (remove_stub e s)
unfolding remove_stub
remove_stub-HasDistinct e s h = elim (Bool-cases (is_both e)) [ inl y ↦ rw y h | inr n ↦ rw n h ]

counted :
    (k : CacheState) (r : CacheEntryRow) (s : Scan)
    → HasDistinct s
    → Returns (insert r (counting k s)) HasDistinct
counted k r s h = insert-HasDistinct r (counting k s) (count-HasDistinct k s h)

resolve_created-HasDistinct :
    (c : Arguments) (e : WalkEntry) (res : ContentResolution) (s : Scan)
    → HasDistinct s
    → Returns (resolve_created c e res s) HasDistinct
unfolding resolve_created finalize_created
resolve_created-HasDistinct c e (resolved hash size) s h = counted CacheState.created _ s h
resolve_created-HasDistinct c e needs_hash s h = h

resolve_existing-HasDistinct :
    (e : WalkEntry) (r : CacheEntryRow) (res : ContentResolution) (s : Scan)
    → HasDistinct s
    → Returns (resolve_existing e r res s) HasDistinct
unfolding resolve_existing
resolve_existing-HasDistinct e r (resolved hash size) s h =
    let inserting = finalize_existing-insert e r hash size s in
    rw (inserting.1) (counted (inserting.0) _ s h)
resolve_existing-HasDistinct e r needs_hash s h = h

dispatch_existing-HasDistinct :
    (c : Arguments) (type : EntryType) (e : WalkEntry) (r : CacheEntryRow) (s : Scan)
    → HasDistinct s
    → Returns (dispatch_existing c type e r s) HasDistinct
unfolding dispatch_existing dispatch_existing_directory dispatch_existing_file
dispatch_existing-HasDistinct c EntryType.dir e r s h = elim (Bool-cases (is_deleted r.state)) [
  | inl y ↦ rw y (counted CacheState.created _ s h)
  | inr n ↦ rw n (count-HasDistinct CacheState.unchanged s h)
]
dispatch_existing-HasDistinct c EntryType.file e r s h =
    elim (Bool-cases (not (is_both e) && (r.mtime == some e.mtime))) [
      | inl y ↦ rw y (count-HasDistinct CacheState.unchanged s h)
      | inr n ↦ rw n (
          bind-Returns HasDistinct (classify_content c e.type e) _ λ res _.
            resolve_existing-HasDistinct e r res (remove_stub e s) (remove_stub-HasDistinct e s h))
    ]

scan_step-HasDistinct :
    (c : Arguments) (x : Step WalkEntry) (s : Scan)
    → HasDistinct s
    → Returns (scan_step c x s) HasDistinct
unfolding scan_step dispatch_created_row build_missing_from_fs_row dispatch_existing_row
scan_step-HasDistinct c (Step.remote_only e) s h = elim (Bool-cases (is_ignored c e.path)) [
  | inl y ↦ rw y h
  | inr n ↦ rw n (
      bind-Returns HasDistinct (assert_stubbable_real_file c e) _ λ _ _.
        bind-Returns HasDistinct (classify_content c e.type e) _ λ res _.
          resolve_created-HasDistinct c e res (remove_stub e s) (remove_stub-HasDistinct e s h))
]
scan_step-HasDistinct c (Step.local_only r) s h = elim (Bool-cases (is_deleted r.state)) [
  | inl y ↦ rw y h
  | inr n ↦ rw n (counted CacheState.deleted _ s h)
]
scan_step-HasDistinct c (Step.both r e) s h =
    elim (Bool-cases (is_created r.state && is_ignored c e.path)) [
      | inl y ↦ rw y (h.0, IsDistinct-remove e.path s.cache h.1)
      | inr n ↦ rw n (
          bind-Returns HasDistinct (assert_stubbable_real_file c e) _
            λ _ _. dispatch_existing-HasDistinct c e.type e r s h)
    ]

settle-HasDistinct :
    (l : Pass) (left : Scan) (m : Result Scan)
    → HasDistinct left
    → Returns m HasDistinct
    → HasDistinct ((settle l left m).scan)
unfolding settle
settle-HasDistinct l left (ok s) h k = k
settle-HasDistinct l left (throw e) h k = h

end_job-HasDistinct :
    (c : Arguments) (found : Option HashJob) (l : Pass)
    → HasDistinct l.scan
    → HasDistinct ((end_job c found l).scan)
unfolding end_job
end_job-HasDistinct c none l h = h
end_job-HasDistinct c (some j) l h =
    let left = record l.scan { jobs = Table.remove job_path j.entry.path l.scan.jobs } in
    settle-HasDistinct l left _ h (
      bind-Returns HasDistinct (c.hash_file j.entry.path) _ λ hash _.
        let inserting = finalize_job-insert c j.entry j.row hash left in
        rw (inserting.1) (counted (inserting.0) _ left h))

next_step-HasDistinct :
    (c : Arguments) (steps : List (Step WalkEntry)) (l : Pass)
    → HasDistinct l.scan
    → Returns (next_step c steps l) (λ l'. HasDistinct l'.scan)
unfolding next_step
next_step-HasDistinct c [] l h = h
next_step-HasDistinct c (x ∷ steps) l h =
    Returns-bind HasDistinct (λ (l' : Pass). HasDistinct l'.scan) (scan_step c x l.scan) _
      (scan_step-HasDistinct c x l.scan h) (λ s k. k)

scan_turn-HasDistinct :
    (c : Arguments) (e : Event) (l : Pass)
    → HasDistinct l.scan
    → Returns (scan_turn c e l) (λ l'. HasDistinct l'.scan)
unfolding scan_turn
scan_turn-HasDistinct c next_entry l h = next_step-HasDistinct c l.steps l h
scan_turn-HasDistinct c (hashed path) l h = end_job-HasDistinct c _ l h

pub scan_schedule-HasDistinct :
    (c : Arguments) (events : List Event) (l : Pass)
    → HasDistinct l.scan
    → Returns (scan_schedule c events l) (λ l'. HasDistinct l'.scan)
unfolding scan_schedule
scan_schedule-HasDistinct c [] l h = h
scan_schedule-HasDistinct c (e ∷ events) l h =
    Returns-bind (λ (l' : Pass). HasDistinct l'.scan) (λ (l' : Pass). HasDistinct l'.scan)
      (scan_turn c e l) _ (scan_turn-HasDistinct c e l h)
      (λ l' k. scan_schedule-HasDistinct c events l' k)
