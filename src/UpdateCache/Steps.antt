-- ===== src/UpdateCache/Steps.antt =====
-- What one turn of the loop does at its own path and at the others.
use sync.Prelude.{
  ℕ, String, false, not, ◌&&◌, Option, none, some, List, [], ◌∷◌, ◌++◌, ◌≡◌, ◌∙◌, ◌==◌, option_eq,
  nat_eq, string_eq, inl, inr, Bool-cases, arith,
}
use sync.Prelude.Table
use sync.Prelude.Table.{find-append_one, find-append_other, find-append_here, find-remove}
use sync.Sync.Rows.{EntryType, CacheState, CacheEntryRow, cache_path, get_cache}
use sync.Sync.Soundness.Rows.{Returns, bind-Returns}
use sync.Sync.MergeJoin.{Step, step_path}
use sync.Sync.MergeJoin.Laws.{IsAligned}
use sync.UpdateCache.Expected.{finalize_existing-insert, updated_row-path}
use sync.UpdateCache.{
  WalkEntry, walk_path, Arguments, HashJob, job_path, Scan, counting, insert, remove_stub, is_both,
  created_row, missing_row, is_deleted, is_created, is_ignored, ContentResolution, resolved,
  needs_hash, classify_content, assert_stubbable_real_file, finalize_created, finalize_existing,
  resolve_created, resolve_existing, dispatch_created_row, dispatch_existing_directory,
  dispatch_existing_file, dispatch_existing, dispatch_existing_row, build_missing_from_fs_row,
  scan_step,
}

abbrev pub get_job : String → List HashJob → Option HashJob
get_job = Table.find job_path

-- What a scan has at a path: the staged row, the job, and the row of cache.db.
abbrev pub At :
    String → Option CacheEntryRow → Option HashJob → Option CacheEntryRow → Scan → Type 0
At p staged job row s =
    (get_cache p s.staged ≡ staged) × (get_job p s.jobs ≡ job) × (get_cache p s.cache ≡ row)

module _ (p : String) (staged : Option CacheEntryRow) (job : Option HashJob)
    (row : Option CacheEntryRow) where
  pub At-remove_stub :
      (e : WalkEntry) (s : Scan) → At p staged job row s → At p staged job row (remove_stub e s)
  unfolding remove_stub
  At-remove_stub e s h = elim (Bool-cases (is_both e)) [ inl y ↦ rw y h | inr n ↦ rw n h ]

  pub At-counting :
      (k : CacheState) (s : Scan) → At p staged job row s → At p staged job row (counting k s)
  unfolding counting
  At-counting k s h = h

  -- An INSERT at another path.
  pub insert-other :
      (r : CacheEntryRow) (s : Scan)
      → (r.path == p) ≡ false
      → At p staged job row s
      → Returns (insert r s) (At p staged job row)
  unfolding insert
  insert-other r s other h = elim (Bool-cases (Table.has cache_path r.path s.staged)) [
    | inl taken ↦ rw taken tt
    | inr free ↦ rw free (rw (find-append_one cache_path p r s.staged free, other) (h.0), h.1, h.2)
  ]

-- An INSERT at the path itself.
pub insert-here :
    (p : String) (job : Option HashJob) (row : Option CacheEntryRow) (r : CacheEntryRow) (s : Scan)
    → r.path ≡ p
    → At p none job row s
    → Returns (insert r s) (At p (some r) job row)
unfolding insert
insert-here p job row r s at h = elim (Bool-cases (Table.has cache_path r.path s.staged)) [
  | inl taken ↦ rw taken tt
  | inr free ↦ rw free (find-append_one cache_path p r s.staged free ∙ ground (arith, at), h.1, h.2)
]

module _ (c : Arguments) (p : String) (staged : Option CacheEntryRow) (job : Option HashJob)
    (row : Option CacheEntryRow) where
  push-other :
      (j : HashJob) (s : Scan)
      → (j.entry.path == p) ≡ false
      → At p staged job row s
      → At p staged job row (record s { jobs = s.jobs ++ (j ∷ []) })
  push-other j s other h = (h.0, find-append_other job_path p j s.jobs other ∙ h.1, h.2)

  resolve_created-other :
      (e : WalkEntry) (res : ContentResolution) (s : Scan)
      → (e.path == p) ≡ false
      → At p staged job row s
      → Returns (resolve_created c e res s) (At p staged job row)
  unfolding resolve_created finalize_created created_row
  resolve_created-other e (resolved hash size) s other h =
      insert-other p staged job row _ _ other (At-counting p staged job row CacheState.created s h)
  resolve_created-other e needs_hash s other h = push-other _ s other h

  finalize_existing-other :
      (e : WalkEntry) (r : CacheEntryRow) (hash : Option String) (size : Option ℕ) (s : Scan)
      → (e.path == p) ≡ false
      → r.path ≡ e.path
      → At p staged job row s
      → Returns (finalize_existing e r hash size s) (At p staged job row)
  finalize_existing-other e r hash size s other aligned h =
      let inserting = finalize_existing-insert e r hash size s in
      rw (inserting.1) (
        insert-other p staged job row _ _ (rw (updated_row-path r e hash size aligned) other)
          (At-counting p staged job row (inserting.0) s h))

  resolve_existing-other :
      (e : WalkEntry) (r : CacheEntryRow) (res : ContentResolution) (s : Scan)
      → (e.path == p) ≡ false
      → r.path ≡ e.path
      → At p staged job row s
      → Returns (resolve_existing e r res s) (At p staged job row)
  unfolding resolve_existing
  resolve_existing-other e r (resolved hash size) s other aligned h =
      finalize_existing-other e r hash size s other aligned h
  resolve_existing-other e r needs_hash s other aligned h = push-other _ s other h

  dispatch_created_row-other :
      (e : WalkEntry) (s : Scan)
      → (e.path == p) ≡ false
      → At p staged job row s
      → Returns (dispatch_created_row c e s) (At p staged job row)
  unfolding dispatch_created_row
  dispatch_created_row-other e s other h = bind-Returns _ (assert_stubbable_real_file c e) _ λ _ _.
      bind-Returns _ (classify_content c e.type e) _ λ res _.
        resolve_created-other e res (remove_stub e s) other (At-remove_stub p staged job row e s h)

  dispatch_existing-other :
      (type : EntryType) (e : WalkEntry) (r : CacheEntryRow) (s : Scan)
      → (e.path == p) ≡ false
      → r.path ≡ e.path
      → At p staged job row s
      → Returns (dispatch_existing c type e r s) (At p staged job row)
  unfolding dispatch_existing dispatch_existing_directory dispatch_existing_file
  dispatch_existing-other EntryType.dir e r s other aligned h =
      elim (Bool-cases (is_deleted r.state)) [
        | inl y ↦ rw y (
            insert-other p staged job row (created_row e none none r.parent_state_version) _
              (unfold created_row in other) (At-counting p staged job row CacheState.created s h))
        | inr n ↦ rw n (At-counting p staged job row CacheState.unchanged s h)
      ]
  dispatch_existing-other EntryType.file e r s other aligned h =
      elim (Bool-cases (not (is_both e) && (r.mtime == some e.mtime))) [
        | inl y ↦ rw y (At-counting p staged job row CacheState.unchanged s h)
        | inr n ↦ rw n (
            bind-Returns _ (classify_content c e.type e) _ λ res _.
              resolve_existing-other e r res (remove_stub e s) other aligned
                (At-remove_stub p staged job row e s h))
      ]

  -- A turn leaves the other paths as they are.
  pub scan_step-other :
      (x : Step WalkEntry) (s : Scan)
      → (step_path walk_path x == p) ≡ false
      → IsAligned walk_path x
      → At p staged job row s
      → Returns (scan_step c x s) (At p staged job row)
  unfolding scan_step build_missing_from_fs_row dispatch_existing_row
  scan_step-other (Step.remote_only e) s other aligned h = elim (Bool-cases (is_ignored c e.path)) [
    | inl y ↦ rw y h
    | inr n ↦ rw n (dispatch_created_row-other e s other h)
  ]
  scan_step-other (Step.local_only r) s other aligned h = elim (Bool-cases (is_deleted r.state)) [
    | inl y ↦ rw y h
    | inr n ↦ rw n (
        insert-other p staged job row (missing_row r) _ (unfold missing_row in other)
          (At-counting p staged job row CacheState.deleted s h))
  ]
  scan_step-other (Step.both r e) s other aligned h =
      elim (Bool-cases (is_created r.state && is_ignored c e.path)) [
        | inl y ↦ rw y (h.0, h.1, rw (find-remove cache_path p e.path s.cache, other) (h.2))
        | inr n ↦ rw n (
            bind-Returns _ (assert_stubbable_real_file c e) _
              λ _ _. dispatch_existing-other e.type e r s other aligned h)
      ]
