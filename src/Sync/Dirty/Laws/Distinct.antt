-- ===== src/Sync/Dirty/Laws/Distinct.antt =====
-- `iterateDirty` lists no path twice.
use sync.Prelude.{
  String, Bool, true, false, ◌||◌, List, [], ◌∷◌, ◌++◌, ◌≡◌, refl, arith, All, map, contains,
  string_eq, Bool-cases, inl, inr,
}
use sync.Db.Ordered.{order_by, order_by-Sorted, Sorted}
use sync.Sync.Rows.{CacheEntryRow, cache_path}
use sync.Sync.MergeJoin.Laws.{IsOrder}
use sync.Sync.Reconcile.Laws.{NodupPaths}
use sync.Sync.Dirty.{is_dirty, is_deleted_row, deleted_rows, changed_rows, iterate_dirty}

abbrev pub has_path : String → List CacheEntryRow → Bool
has_path p rows = contains p (map cache_path rows)

pub has_path-append :
    (p : String) (xs ys : List CacheEntryRow)
    → has_path p (xs ++ ys) ≡ (has_path p xs || has_path p ys)
has_path-append p [] ys = refl
has_path-append p (x ∷ xs) ys = ground (arith, has_path-append p xs ys)

pub has_path-deleted :
    (p : String) (rows : List CacheEntryRow)
    → has_path p rows ≡ false
    → has_path p (deleted_rows rows) ≡ false
unfolding deleted_rows
has_path-deleted p [] h = refl
has_path-deleted p (r ∷ rows) h = ground (arith, has_path-deleted p rows)

pub has_path-changed :
    (p : String) (rows : List CacheEntryRow)
    → has_path p rows ≡ false
    → has_path p (changed_rows rows) ≡ false
unfolding changed_rows
has_path-changed p [] h = refl
has_path-changed p (r ∷ rows) h = ground (arith, has_path-changed p rows)

abbrev pub dirty_rows : List CacheEntryRow → List CacheEntryRow
dirty_rows rows = deleted_rows rows ++ changed_rows rows

pub has_path-dirty :
    (p : String) (rows : List CacheEntryRow)
    → has_path p rows ≡ false
    → has_path p (dirty_rows rows) ≡ false
has_path-dirty p rows h =
    let a = has_path-deleted p rows h in
    let b = has_path-changed p rows h in
    rw (has_path-append p (deleted_rows rows) (changed_rows rows), a, b)

-- No row of the first list has the path of one of the second.
abbrev Apart : List CacheEntryRow → List CacheEntryRow → Type 0
Apart xs ys = All (λ x. has_path x.path ys ≡ false) xs

Apart-cons :
    (r : CacheEntryRow) (xs ys : List CacheEntryRow)
    → has_path r.path xs ≡ false
    → Apart xs ys
    → Apart xs (r ∷ ys)
Apart-cons r [] ys h k = tt
Apart-cons r (x ∷ xs) ys h k = (ground arith, Apart-cons r xs ys (ground arith) k.1)

deleted-Apart :
    (rows : List CacheEntryRow) → NodupPaths rows → Apart (deleted_rows rows) (changed_rows rows)
unfolding deleted_rows changed_rows
deleted-Apart [] nodup = tt
deleted-Apart (r ∷ rows) (fresh, nodup) =
    let ih = deleted-Apart rows nodup in
    elim (Bool-cases (is_deleted_row r.state)) [
      | inl h ↦ rw h (has_path-changed r.path rows fresh, ih)
      | inr h ↦ elim (Bool-cases (is_dirty r.state)) [
        | inl k ↦
            rw (h, k)
              (Apart-cons r (deleted_rows rows) (changed_rows rows)
                (has_path-deleted r.path rows fresh) ih)
        | inr k ↦ rw (h, k) ih
      ]
    ]

append-NodupPaths :
    (xs ys : List CacheEntryRow)
    → NodupPaths xs
    → NodupPaths ys
    → Apart xs ys
    → NodupPaths (xs ++ ys)
append-NodupPaths [] ys h k a = k
append-NodupPaths (x ∷ xs) ys (fresh, h) k (apart, a) =
    (rw (has_path-append x.path xs ys, fresh, apart) refl, append-NodupPaths xs ys h k a)

deleted-NodupPaths : (rows : List CacheEntryRow) → NodupPaths rows → NodupPaths (deleted_rows rows)
unfolding deleted_rows
deleted-NodupPaths [] nodup = tt
deleted-NodupPaths (r ∷ rows) (fresh, nodup) = elim (Bool-cases (is_deleted_row r.state)) [
  | inl h ↦ rw h (has_path-deleted r.path rows fresh, deleted-NodupPaths rows nodup)
  | inr h ↦ rw h (deleted-NodupPaths rows nodup)
]

changed-NodupPaths : (rows : List CacheEntryRow) → NodupPaths rows → NodupPaths (changed_rows rows)
unfolding changed_rows
changed-NodupPaths [] nodup = tt
changed-NodupPaths (r ∷ rows) (fresh, nodup) =
    let ih = changed-NodupPaths rows nodup in
    elim (Bool-cases (is_deleted_row r.state)) [
      | inl h ↦ rw h ih
      | inr h ↦ elim (Bool-cases (is_dirty r.state)) [
        | inl k ↦ rw (h, k) (has_path-changed r.path rows fresh, ih)
        | inr k ↦ rw (h, k) ih
      ]
    ]

dirty-NodupPaths : (rows : List CacheEntryRow) → NodupPaths rows → NodupPaths (dirty_rows rows)
dirty-NodupPaths rows nodup =
    append-NodupPaths (deleted_rows rows) (changed_rows rows) (deleted-NodupPaths rows nodup)
      (changed-NodupPaths rows nodup) (deleted-Apart rows nodup)

module _ (lt : String → String → Bool) (o : IsOrder lt) where
  has_path-above :
      (p : String) (rows : List CacheEntryRow)
      → All (λ d. lt p d.path ≡ true) rows
      → has_path p rows ≡ false
  has_path-above p [] h = refl
  has_path-above p (r ∷ rows) h =
      let no = o.irreflexive p in ground (arith, has_path-above p rows h.1)

  Sorted-NodupPaths : (rows : List CacheEntryRow) → Sorted cache_path lt rows → NodupPaths rows
  Sorted-NodupPaths [] s = tt
  Sorted-NodupPaths (r ∷ rows) s = (has_path-above r.path rows s.0, Sorted-NodupPaths rows s.1)

  pub listed-NodupPaths : (cache : List CacheEntryRow) → NodupPaths (order_by cache_path lt cache)
  listed-NodupPaths cache =
      Sorted-NodupPaths (order_by cache_path lt cache) (order_by-Sorted cache_path lt o cache)

  pub iterate_dirty-NodupPaths : (cache : List CacheEntryRow) → NodupPaths (iterate_dirty lt cache)
  unfolding iterate_dirty
  iterate_dirty-NodupPaths cache =
      dirty-NodupPaths (order_by cache_path lt cache) (listed-NodupPaths cache)
