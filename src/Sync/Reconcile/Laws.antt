-- ===== src/Sync/Reconcile/Laws.antt =====
-- What reconciliation leaves in the cache, row by row.
use mathlib.Core.Path.{subst}
use sync.Prelude.{
  String, false, Option, none, some, List, [], ◌∷◌, ◌≡◌, refl, sym, ◌∙◌, ◌≢◌, arith, map, contains,
  string_eq, ◌==◌, ==-refl, All,
}
use sync.Prelude.Table.{find-upsert, find-remove}
use sync.Errors.{Result, ok, throw}
use sync.Sync.Rows.{
  CacheEntryRow, CacheState, created, modified, deleted, unchanged, cache_path, get_cache,
}
use sync.Sync.Candidate.{Handled, get_handled}
use sync.Sync.Soundness.Rows.{Returns, Returns-bind, Returns-map}
use sync.Sync.Reconcile.{clean, stamp_in, stamp_row, reconcile_state, reconcile_cache_after_commit}

-- What the cache holds at a row's path once the row is reconciled.
abbrev pub Reconciles : CacheState → CacheEntryRow → Option String → Option CacheEntryRow → Type 0
Reconciles deleted row stamp found = found ≡ none
Reconciles _ row none found = ⊥
Reconciles _ row (some stamp) found = found ≡ some (clean row stamp)

-- No path stands twice, as the primary key of the table has it.
abbrev pub NodupPaths : List CacheEntryRow → Type 0
NodupPaths [] = Unit
NodupPaths (row ∷ rows) = (contains row.path (map cache_path rows) ≡ false) × NodupPaths rows

pub Returns-both {ℓ} :
    {A : Type ℓ} (P Q R : A → Type 0) (m : Result A)
    → Returns m P
    → Returns m Q
    → ((a : A) → P a → Q a → R a)
    → Returns m R
Returns-both P Q R (ok a) h k f = f a h k
Returns-both P Q R (throw e) h k f = tt

abbrev pub AtRow : CacheEntryRow → List Handled → List CacheEntryRow → Type 0
AtRow row handled cache =
    Reconciles row.state row (stamp_in (get_handled row.path handled)) (get_cache row.path cache)

module _ (row : CacheEntryRow) (handled : List Handled) (cache : List CacheEntryRow) where
  stamp_row-find :
      (state : CacheState) (stamp : Option String)
      → state ≢ deleted
      → Returns
          (stamp_row row stamp cache)
          (λ cache'. Reconciles state row stamp (get_cache row.path cache'))
  unfolding stamp_row
  stamp_row-find state none dirty = tt
  stamp_row-find deleted (some stamp) dirty = absurd (dirty refl)
  stamp_row-find created (some stamp) dirty = rw (find-upsert, ==-refl row.path)
  stamp_row-find modified (some stamp) dirty = rw (find-upsert, ==-refl row.path)
  stamp_row-find unchanged (some stamp) dirty = rw (find-upsert, ==-refl row.path)

  reconcile_state-find :
      (state : CacheState)
      → Returns (reconcile_state state row handled cache) (λ cache'.
        Reconciles state row (stamp_in (get_handled row.path handled)) (get_cache row.path cache'))
  unfolding reconcile_state
  reconcile_state-find deleted = rw (find-remove, ==-refl row.path)
  reconcile_state-find created = stamp_row-find created _ (λ e. cc)
  reconcile_state-find modified = stamp_row-find modified _ (λ e. cc)
  reconcile_state-find unchanged = stamp_row-find unchanged _ (λ e. cc)

  stamp_row-other :
      (p : String) (stamp : Option String)
      → (row.path == p) ≡ false
      → Returns (stamp_row row stamp cache) (λ cache'. get_cache p cache' ≡ get_cache p cache)
  unfolding stamp_row
  stamp_row-other p none other = tt
  stamp_row-other p (some stamp) other = rw (find-upsert, other)

  reconcile_state-other :
      (p : String) (state : CacheState)
      → (row.path == p) ≡ false
      → Returns
          (reconcile_state state row handled cache)
          (λ cache'. get_cache p cache' ≡ get_cache p cache)
  unfolding reconcile_state
  reconcile_state-other p deleted other = rw (find-remove, other)
  reconcile_state-other p created other = stamp_row-other p _ other
  reconcile_state-other p modified other = stamp_row-other p _ other
  reconcile_state-other p unchanged other = stamp_row-other p _ other

-- Paths with no row keep what the cache holds for them.
pub reconcile_others :
    (p : String) (rows : List CacheEntryRow) (handled : List Handled) (cache : List CacheEntryRow)
    → contains p (map cache_path rows) ≡ false
    → Returns
        (reconcile_cache_after_commit rows handled cache)
        (λ cache'. get_cache p cache' ≡ get_cache p cache)
unfolding reconcile_cache_after_commit
reconcile_others p [] handled cache absent = refl
reconcile_others p (row ∷ rows) handled cache absent =
    Returns-bind (λ (cache' : List CacheEntryRow). get_cache p cache' ≡ get_cache p cache) _ _ _
      (reconcile_state-other row handled cache p row.state (ground arith))
      λ cache' e.
        Returns-map (λ (t : List CacheEntryRow). get_cache p t ≡ get_cache p cache') _ _
          (reconcile_others p rows handled cache' (ground arith)) (λ t q. q ∙ e)

-- After a reconciliation of rows of different paths that returns, each of them is gone from the cache if it was a delete,
-- and otherwise stands there as `unchanged`, at the stamp that was handed over for its path.
pub reconcile_each :
    (rows : List CacheEntryRow) (handled : List Handled) (cache : List CacheEntryRow)
    → NodupPaths rows
    → Returns
        (reconcile_cache_after_commit rows handled cache)
        (λ cache'. All (λ row. AtRow row handled cache') rows)
unfolding reconcile_cache_after_commit
reconcile_each [] handled cache nodup = tt
reconcile_each (row ∷ rows) handled cache (fresh, nodup) =
    Returns-bind (AtRow row handled) _ _ _ (reconcile_state-find row handled cache row.state)
      λ cache' at_row.
        Returns-both (λ (t : List CacheEntryRow). get_cache row.path t ≡ get_cache row.path cache')
          _ _ _ (reconcile_others row.path rows handled cache' fresh)
          (reconcile_each rows handled cache' nodup)
          λ t same rest. (
            subst (Reconciles row.state row (stamp_in (get_handled row.path handled))) (sym same)
                at_row,
            rest,
          )
