-- ===== src/UpdateCache/Reached.antt =====
-- What one turn of the loop leaves at its own path: the expected row, or a job that will stage it.
use mathlib.Core.Path.{subst}
use sync.Prelude.{
  String, Bool, not, ◌&&◌, Option, none, some, [], ◌∷◌, ◌++◌, ◌≡◌, refl, sym, ap, ◌∙◌, ◌==◌,
  option_eq, nat_eq, if◌then◌else◌, string_eq, inl, inr, Bool-cases, arith,
}
use sync.Prelude.Table.{find-append_here, find-remove}
use sync.Errors.{Result, ok, throw, ◌>>=◌, ◌>>◌, bind_assoc}
use sync.Sync.Rows.{EntryType, CacheState, CacheEntryRow, cache_path}
use sync.Sync.Soundness.Rows.{Returns, Returns-map}
use sync.Sync.MergeJoin.{Step, step_path}
use sync.Sync.MergeJoin.Laws.{IsAligned}
use sync.UpdateCache.{
  WalkEntry, walk_path, Arguments, HashJob, job_path, Scan, counting, insert, remove_stub, is_both,
  created_row, missing_row, is_deleted, is_created, is_ignored, ContentResolution, resolved,
  needs_hash, classify_content, assert_stubbable_real_file, finalize_created, resolve_created,
  resolve_existing, dispatch_created_row, dispatch_existing_directory, dispatch_existing_file,
  dispatch_existing, dispatch_existing_row, build_missing_from_fs_row, scan_step,
}
use sync.UpdateCache.Expected.{
  content_of, hash_if_needed, updated_row, expected, expected_existing, is_dropped, job_row,
  finalize_existing-insert, updated_row-path,
}
use sync.UpdateCache.Steps.{At, At-remove_stub, At-counting, insert-here}

-- The path of a job and of its row.
abbrev pub IsJobAt : String → WalkEntry → Option CacheEntryRow → Type 0
IsJobAt p e none = e.path ≡ p
IsJobAt p e (some r) = (e.path ≡ p) × (r.path ≡ e.path)

module _ (c : Arguments) (p : String) (row : Option CacheEntryRow) where
  pub data Reached (wanted : Result (Option CacheEntryRow)) (s : Scan) : Type 0 where
    settled :
        (staged : Option CacheEntryRow)
        → At p staged none row s
        → wanted ≡ ok staged
        → Reached wanted s
    hashing :
        (j : HashJob)
        → At p none (some j) row s
        → IsJobAt p j.entry j.row
        → wanted ≡ (c.hash_file p >>= λ hash. ok (some (job_row c j.entry j.row hash)))
        → Reached wanted s

  Reached-insert :
      (r : CacheEntryRow) (k : CacheState) (s : Scan)
      → r.path ≡ p
      → At p none none row s
      → Returns (insert r (counting k s)) (Reached (ok (some r)))
  Reached-insert r k s at h =
      Returns-map (At p (some r) none row) _ (insert r (counting k s))
        (insert-here p none row r (counting k s) at (At-counting p none none row k s h))
        (λ s' h'. settled (some r) h' refl)

  Reached-job :
      (e : WalkEntry) (r : Option CacheEntryRow) (s : Scan)
      → IsJobAt p e r
      → e.path ≡ p
      → At p none none row s
      → Reached
          (c.hash_file e.path >>= λ hash. ok (some (job_row c e r hash)))
          (record s { jobs = s.jobs ++ (record { entry = e; row = r } ∷ []) })
  Reached-job e r s job at h =
      hashing (record { entry = e; row = r })
        (h.0, find-append_here job_path p (record { entry = e; row = r }) s.jobs at (h.1), h.2) job
        (ap (λ q. c.hash_file q >>= λ hash. ok (some (job_row c e r hash))) at)

  Reached-bind :
      {A : Type 0} (m : Result A) (k : A → Result Scan) (w : A → Result (Option CacheEntryRow))
      → ((a : A) → Returns (k a) (Reached (w a)))
      → Returns (m >>= k) (Reached (m >>= w))
  Reached-bind (ok a) k w h = h a
  Reached-bind (throw e) k w h = tt

  resolve_created-here :
      (e : WalkEntry) (res : ContentResolution) (s : Scan)
      → e.path ≡ p
      → At p none none row s
      → Returns (resolve_created c e res s) (
          Reached (
            hash_if_needed c e res >>= λ v.
            ok (some (created_row e (v.0) (v.1) (some c.last_synced_version)))))
  unfolding resolve_created finalize_created hash_if_needed job_row
  resolve_created-here e (resolved hash size) s at h =
      Reached-insert (created_row e hash size (some c.last_synced_version)) CacheState.created s
        (unfold created_row in at) h
  resolve_created-here e needs_hash s at h =
      subst (λ w. Reached w (record s { jobs = s.jobs ++ (record { entry = e; row = none } ∷ []) }))
        (sym (bind_assoc (c.hash_file e.path) _ _)) (Reached-job e none s at at h)

  resolve_existing-here :
      (e : WalkEntry) (r : CacheEntryRow) (res : ContentResolution) (s : Scan)
      → e.path ≡ p
      → r.path ≡ e.path
      → At p none none row s
      → Returns
          (resolve_existing e r res s)
          (Reached (hash_if_needed c e res >>= λ v. ok (some (updated_row r e (v.0) (v.1)))))
  unfolding resolve_existing hash_if_needed job_row
  resolve_existing-here e r (resolved hash size) s at aligned h =
      let inserting = finalize_existing-insert e r hash size s in
      rw (inserting.1) (
        Reached-insert (updated_row r e hash size) (inserting.0) s
          (updated_row-path r e hash size aligned ∙ at) h)
  resolve_existing-here e r needs_hash s at aligned h =
      subst
        (λ w. Reached w (record s { jobs = s.jobs ++ (record { entry = e; row = some r } ∷ []) }))
        (sym (bind_assoc (c.hash_file e.path) _ _)) (Reached-job e (some r) s (at, aligned) at h)

  dispatch_existing-here :
      (type : EntryType) (e : WalkEntry) (r : CacheEntryRow) (s : Scan)
      → e.path ≡ p
      → r.path ≡ e.path
      → At p none none row s
      → Returns (dispatch_existing c type e r s) (Reached (expected_existing c type e r))
  unfolding dispatch_existing dispatch_existing_directory dispatch_existing_file expected_existing
      content_of
  dispatch_existing-here EntryType.dir e r s at aligned h = elim (Bool-cases (is_deleted r.state)) [
    | inl y ↦ rw y (
        Reached-insert (created_row e none none r.parent_state_version) CacheState.created s
          (unfold created_row in at) h)
    | inr n ↦ rw n (settled none (At-counting p none none row CacheState.unchanged s h) refl)
  ]
  dispatch_existing-here EntryType.file e r s at aligned h =
      elim (Bool-cases (not (is_both e) && (r.mtime == some e.mtime))) [
        | inl y ↦ rw y (settled none (At-counting p none none row CacheState.unchanged s h) refl)
        | inr n ↦
            rw
              (
                n,
                bind_assoc (classify_content c e.type e) (hash_if_needed c e)
                    (λ v. ok (some (updated_row r e (v.0) (v.1)))),
              )
              (Reached-bind (classify_content c e.type e) _ _ (λ res.
                resolve_existing-here e r res (remove_stub e s) at aligned
                  (At-remove_stub p none none row e s h)))
      ]

  dispatch_created_row-here :
      (e : WalkEntry) (s : Scan)
      → e.path ≡ p
      → At p none none row s
      → Returns (dispatch_created_row c e s) (
          Reached (
            assert_stubbable_real_file c e
            >> (content_of c e >>= λ v.
                ok (some (created_row e (v.0) (v.1) (some c.last_synced_version))))))
  unfolding dispatch_created_row content_of
  dispatch_created_row-here e s at h =
      rw
        (bind_assoc (classify_content c e.type e) (hash_if_needed c e)
          (λ v. ok (some (created_row e (v.0) (v.1) (some c.last_synced_version)))))
        (Reached-bind (assert_stubbable_real_file c e) _ _ λ u.
          Reached-bind (classify_content c e.type e) _ _ λ res.
            resolve_created-here e res (remove_stub e s) at (At-remove_stub p none none row e s h))

abbrev pub kept : Bool → Option CacheEntryRow → Option CacheEntryRow
kept dropped row = if dropped then none else row

module _ (c : Arguments) (p : String) (row : Option CacheEntryRow) where
  -- A turn at its own path, where nothing is staged yet and no job runs.
  pub scan_step-here :
      (x : Step WalkEntry) (s : Scan)
      → step_path walk_path x ≡ p
      → IsAligned walk_path x
      → At p none none row s
      → Returns (scan_step c x s) (Reached c p (kept (is_dropped c x) row) (expected c x))
  unfolding scan_step expected is_dropped build_missing_from_fs_row dispatch_existing_row
  scan_step-here (Step.remote_only e) s at aligned h = elim (Bool-cases (is_ignored c e.path)) [
    | inl y ↦ rw y (settled none h refl)
    | inr n ↦ rw n (dispatch_created_row-here c p row e s at h)
  ]
  scan_step-here (Step.local_only r) s at aligned h = elim (Bool-cases (is_deleted r.state)) [
    | inl y ↦ rw y (settled none h refl)
    | inr n ↦
        rw n
          (Reached-insert c p row (missing_row r) CacheState.deleted s (unfold missing_row in at) h)
  ]
  scan_step-here (Step.both r e) s at aligned h =
      elim (Bool-cases (is_created r.state && is_ignored c e.path)) [
        | inl y ↦ rw y (
            settled none (h.0, h.1, find-remove cache_path p e.path s.cache ∙ ground (arith, at))
              refl)
        | inr n ↦ rw n (
            Reached-bind c p row (assert_stubbable_real_file c e) _ _
              λ u. dispatch_existing-here c p row e.type e r s at aligned h)
      ]
