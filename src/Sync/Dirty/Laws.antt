-- ===== src/Sync/Dirty/Laws.antt =====
-- `iterateDirty` lists each dirty row of the table once, and no other.
pub mod Distinct
use mathlib.Core.Path.{subst}
use sync.Prelude.{
  String, Bool, true, false, ◌||◌, ◌&&◌, ==-refl, Option, none, some, List, [], ◌∷◌, ◌++◌, ◌≡◌,
  refl, sym, ap, ◌∙◌, arith, All, map, contains, ◌==◌, string_eq, Bool-cases, inl, inr,
}
use sync.Prelude.Table
use sync.Db.Ordered.{order_by, order_by-Sorted, find-order_by, Sorted}
use sync.Sync.Rows.{CacheState, CacheEntryRow, cache_path, get_cache}
use sync.Sync.MergeJoin.Laws.{IsOrder}
use sync.Sync.Reconcile.Laws.{NodupPaths}
use sync.Sync.Dirty.{is_dirty, is_deleted_row, deleted_rows, changed_rows, iterate_dirty}
use sync.Sync.Dirty.Laws.Distinct.{
  has_path, has_path-append, dirty_rows, listed-NodupPaths, has_path-dirty, has_path-deleted,
  has_path-changed,
}

abbrev pub state_of : Option CacheEntryRow → Bool
state_of none = false
state_of (some r) = is_dirty r.state

dirty_of_deleted : (c : CacheState) → is_deleted_row c ≡ true → is_dirty c ≡ true
dirty_of_deleted CacheState.deleted h = refl
dirty_of_deleted CacheState.created h = refl
dirty_of_deleted CacheState.modified h = refl
dirty_of_deleted CacheState.unchanged h = cc

has_path-dirty_cons :
    (p : String) (r : CacheEntryRow) (rows : List CacheEntryRow)
    → has_path p (dirty_rows (r ∷ rows))
      ≡ ((r.path == p && is_dirty r.state) || has_path p (dirty_rows rows))
unfolding deleted_rows changed_rows
has_path-dirty_cons p r rows =
    let split = has_path-append p (deleted_rows rows) (changed_rows rows) in
    elim (Bool-cases (is_deleted_row r.state)) [
      | inl h ↦ let k = dirty_of_deleted r.state h in rw (h, k) (ground arith)
      | inr h ↦ elim (Bool-cases (is_dirty r.state)) [
        | inl k ↦
            let later = has_path-append p (deleted_rows rows) (r ∷ changed_rows rows) in
            rw (h, k, later, split) (ground arith)
        | inr k ↦ rw (h, k) (ground arith)
      ]
    ]

-- A path is listed exactly if its row is dirty.
dirty_lem :
    (p : String) (rows : List CacheEntryRow)
    → NodupPaths rows
    → has_path p (dirty_rows rows) ≡ state_of (get_cache p rows)
unfolding Table.find deleted_rows changed_rows
dirty_lem p [] nodup = refl
dirty_lem p (r ∷ rows) (fresh, nodup) =
    has_path-dirty_cons p r rows ∙ elim (Bool-cases (r.path == p)) [
      | inl same ↦
          let path : r.path ≡ p = ground arith in
          let none_left : has_path p (dirty_rows rows) ≡ false =
            subst (λ q. has_path q (dirty_rows rows) ≡ false) path
              (has_path-dirty r.path rows fresh) in
          rw (same, none_left) (ground arith)
      | inr other ↦ rw other (dirty_lem p rows nodup)
    ]

-- A dirty row that is listed is the row of its path.
found_at :
    (r : CacheEntryRow) (rows xs : List CacheEntryRow)
    → has_path r.path xs ≡ false
    → All (λ x. get_cache x.path rows ≡ some x) xs
    → All (λ x. get_cache x.path (r ∷ rows) ≡ some x) xs
unfolding Table.find
found_at r rows [] h k = tt
found_at r rows (x ∷ xs) h k =
    let other : (r.path == x.path) ≡ false = ground arith in
    (rw other k.0, found_at r rows xs (ground arith) k.1)

deleted-found :
    (rows : List CacheEntryRow)
    → NodupPaths rows
    → All (λ x. get_cache x.path rows ≡ some x) (deleted_rows rows)
unfolding deleted_rows
deleted-found [] nodup = tt
deleted-found (r ∷ rows) (fresh, nodup) =
    let rest =
      found_at r rows (deleted_rows rows) (has_path-deleted r.path rows fresh)
        (deleted-found rows nodup) in
    elim (Bool-cases (is_deleted_row r.state)) [
      | inl h ↦ rw h (unfold Table.find in rw (==-refl r.path) refl, rest)
      | inr h ↦ rw h rest
    ]

changed-found :
    (rows : List CacheEntryRow)
    → NodupPaths rows
    → All (λ x. get_cache x.path rows ≡ some x) (changed_rows rows)
unfolding changed_rows
changed-found [] nodup = tt
changed-found (r ∷ rows) (fresh, nodup) =
    let rest =
      found_at r rows (changed_rows rows) (has_path-changed r.path rows fresh)
        (changed-found rows nodup) in
    elim (Bool-cases (is_deleted_row r.state)) [
      | inl h ↦ rw h rest
      | inr h ↦ elim (Bool-cases (is_dirty r.state)) [
        | inl k ↦ rw (h, k) (unfold Table.find in rw (==-refl r.path) refl, rest)
        | inr k ↦ rw (h, k) rest
      ]
    ]

All-append :
    (P : CacheEntryRow → Type 0) (xs ys : List CacheEntryRow)
    → All P xs
    → All P ys
    → All P (xs ++ ys)
All-append P [] ys h k = k
All-append P (x ∷ xs) ys h k = (h.0, All-append P xs ys h.1 k)

module _ (lt : String → String → Bool) (o : IsOrder lt) (cache : List CacheEntryRow) where
  -- `iterateDirty` lists a path exactly if cache.db has a dirty row for it.
  pub iterate_dirty_lem :
      (p : String)
      → contains p (map cache_path (iterate_dirty lt cache)) ≡ state_of (get_cache p cache)
  unfolding iterate_dirty
  iterate_dirty_lem p =
      dirty_lem p (order_by cache_path lt cache) (listed-NodupPaths lt o cache)
      ∙ ap state_of (find-order_by cache_path lt o p cache)

  pub iterate_dirty-found : All (λ x. get_cache x.path cache ≡ some x) (iterate_dirty lt cache)
  unfolding iterate_dirty
  iterate_dirty-found =
      let rows = order_by cache_path lt cache in
      let nodup = listed-NodupPaths lt o cache in
      All-found (dirty_rows rows) (
        All-append (λ x. get_cache x.path rows ≡ some x) (deleted_rows rows) (changed_rows rows)
          (deleted-found rows nodup) (changed-found rows nodup))
    where
      All-found :
          (xs : List CacheEntryRow)
          → All (λ x. get_cache x.path (order_by cache_path lt cache) ≡ some x) xs
          → All (λ x. get_cache x.path cache ≡ some x) xs
      All-found [] h = tt
      All-found (x ∷ xs) h =
          (sym (find-order_by cache_path lt o x.path cache) ∙ h.0, All-found xs h.1)
