-- ===== src/UpdateCache/Completion/Steps.antt =====
-- A turn of the scan returns where the expected row of its path exists.
use sync.Prelude.{
  ℕ, String, false, not, ◌&&◌, Option, none, some, [], ◌∷◌, ◌++◌, ◌≡◌, refl, ◌==◌, option_eq,
  nat_eq, string_eq, inl, inr, Bool-cases, arith,
}
use sync.Prelude.Table
use sync.Prelude.Table.{find-remove, find-nil, key-find}
use sync.Errors.{Result, ok, ◌>>=◌, bind-ok}
use sync.Sync.Rows.{EntryType, CacheState, CacheEntryRow, cache_path, get_cache}
use sync.Sync.MergeJoin.{Step, step_path}
use sync.Sync.MergeJoin.Laws.{IsAligned}
use sync.UpdateCache.{
  WalkEntry, walk_path, Arguments, Scan, counting, insert, remove_stub, is_both, created_row,
  missing_row, is_deleted, is_created, is_ignored, ContentResolution, resolved, needs_hash,
  classify_content, assert_stubbable_real_file, finalize_created, resolve_created, resolve_existing,
  dispatch_created_row, dispatch_existing_directory, dispatch_existing_file, dispatch_existing,
  dispatch_existing_row, build_missing_from_fs_row, scan_step,
}
use sync.UpdateCache.Expected.{
  content_of, hash_if_needed, updated_row, expected, expected_existing, finalize_existing-insert,
  updated_row-path,
}

-- It returns.
abbrev pub Succeeds {ℓ} : {A : Type ℓ} → Result A → Type ℓ
Succeeds {A = A} m = (a : A) × (m ≡ ok a)

insert-Succeeds :
    (r : CacheEntryRow) (s : Scan) → get_cache r.path s.staged ≡ none → Succeeds (insert r s)
unfolding insert
insert-Succeeds r s free =
    let untaken : Table.has cache_path r.path s.staged ≡ false = unfold Table.has in ground arith in
    (record s { staged = s.staged ++ (r ∷ []) }, rw untaken refl)

pub count-Succeeds :
    (r : CacheEntryRow) (k : CacheState) (s : Scan)
    → get_cache r.path s.staged ≡ none
    → Succeeds (insert r (counting k s))
count-Succeeds r k s free = insert-Succeeds r (counting k s) (unfold counting in free)

stub_keeps :
    (p : String) (e : WalkEntry) (s : Scan)
    → get_cache p s.staged ≡ none
    → get_cache p (remove_stub e s).staged ≡ none
unfolding remove_stub
stub_keeps p e s h = elim (Bool-cases (is_both e)) [ inl y ↦ rw y h | inr n ↦ rw n h ]

Succeeds-bind :
    {A B : Type 0} (m : Result A) (f : A → Result B)
    → Succeeds m
    → ((a : A) → m ≡ ok a → Succeeds (f a))
    → Succeeds (m >>= f)
Succeeds-bind m f (a, e) h = rw e (h a e)

module _ (c : Arguments) where
  resolve_created-Succeeds :
      (e : WalkEntry) (res : ContentResolution) (s : Scan)
      → get_cache e.path s.staged ≡ none
      → Succeeds (resolve_created c e res s)
  unfolding resolve_created finalize_created
  resolve_created-Succeeds e (resolved hash size) s free =
      count-Succeeds (created_row e hash size (some c.last_synced_version)) CacheState.created s
        (unfold created_row in free)
  resolve_created-Succeeds e needs_hash s free = (_, refl)

  resolve_existing-Succeeds :
      (e : WalkEntry) (r : CacheEntryRow) (res : ContentResolution) (s : Scan)
      → r.path ≡ e.path
      → get_cache e.path s.staged ≡ none
      → Succeeds (resolve_existing e r res s)
  unfolding resolve_existing
  resolve_existing-Succeeds e r (resolved hash size) s aligned free =
      let inserting = finalize_existing-insert e r hash size s in
      rw (inserting.1) (
        count-Succeeds (updated_row r e hash size) (inserting.0) s
          (rw (updated_row-path r e hash size aligned) free))
  resolve_existing-Succeeds e r needs_hash s aligned free = (_, refl)

  classified :
      (e : WalkEntry) (v : Option String × Option ℕ)
      → content_of c e ≡ ok v
      → Succeeds (classify_content c e.type e)
  unfolding content_of
  classified e v h =
      let first = bind-ok (classify_content c e.type e) (hash_if_needed c e) v h in
      (first.0, first.1)

  dispatch_existing-Succeeds :
      (type : EntryType) (e : WalkEntry) (r : CacheEntryRow) (s : Scan)
      → r.path ≡ e.path
      → get_cache e.path s.staged ≡ none
      → Succeeds (expected_existing c type e r)
      → Succeeds (dispatch_existing c type e r s)
  unfolding dispatch_existing dispatch_existing_directory dispatch_existing_file expected_existing
  dispatch_existing-Succeeds EntryType.dir e r s aligned free h =
      elim (Bool-cases (is_deleted r.state)) [
        | inl y ↦ rw y (
            count-Succeeds (created_row e none none r.parent_state_version) CacheState.created s
              (unfold created_row in free))
        | inr n ↦ rw n (_, refl)
      ]
  dispatch_existing-Succeeds EntryType.file e r s aligned free h =
      elim (Bool-cases (not (is_both e) && (r.mtime == some e.mtime))) [
        | inl y ↦ rw y (_, refl)
        | inr n ↦
            let answered = rw n at h in
            let hashed = bind-ok (content_of c e) _ (answered.0) (answered.1) in
            rw n (
              Succeeds-bind (classify_content c e.type e) _ (classified e (hashed.0) (hashed.1))
                (λ res _.
                  resolve_existing-Succeeds e r res (remove_stub e s) aligned
                    (stub_keeps e.path e s free)))
      ]

  -- A turn does not throw where nothing is staged at its path and the expected row exists.
  pub scan_step-Succeeds :
      (x : Step WalkEntry) (s : Scan)
      → IsAligned walk_path x
      → get_cache (step_path walk_path x) s.staged ≡ none
      → Succeeds (expected c x)
      → Succeeds (scan_step c x s)
  unfolding scan_step expected dispatch_created_row build_missing_from_fs_row dispatch_existing_row
  scan_step-Succeeds (Step.remote_only e) s aligned free h =
      elim (Bool-cases (is_ignored c e.path)) [
        | inl y ↦ rw y (_, refl)
        | inr n ↦
            let answered = rw n at h in
            let stubbable = bind-ok (assert_stubbable_real_file c e) _ (answered.0) (answered.1) in
            let hashed = bind-ok (content_of c e) _ (answered.0) (stubbable.2) in
            rw n (
              Succeeds-bind (assert_stubbable_real_file c e) _ (stubbable.0, stubbable.1)
                λ _ _.
                  Succeeds-bind (classify_content c e.type e) _ (classified e (hashed.0) (hashed.1))
                    λ res _.
                      resolve_created-Succeeds e res (remove_stub e s) (stub_keeps e.path e s free))
      ]
  scan_step-Succeeds (Step.local_only r) s aligned free h = elim (Bool-cases (is_deleted r.state)) [
    | inl y ↦ rw y (_, refl)
    | inr n ↦
        rw n (count-Succeeds (missing_row r) CacheState.deleted s (unfold missing_row in free))
  ]
  scan_step-Succeeds (Step.both r e) s aligned free h =
      elim (Bool-cases (is_created r.state && is_ignored c e.path)) [
        | inl y ↦ rw y (_, refl)
        | inr n ↦
            let answered = rw n at h in
            let stubbable = bind-ok (assert_stubbable_real_file c e) _ (answered.0) (answered.1) in
            rw n (
              Succeeds-bind (assert_stubbable_real_file c e) _ (stubbable.0, stubbable.1)
                λ _ _.
                  dispatch_existing-Succeeds e.type e r s aligned free (answered.0, stubbable.2))
      ]
