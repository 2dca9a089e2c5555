-- ===== src/Sync/Commit/AtPaths.antt =====
-- What the pull and the reconciliation make of the row of one path.
use mathlib.Core.Path.{subst}
use mathlib.Core.Option.{some-injective}
use sync.Prelude.{
  String, Bool, true, false, Option, none, some, List, [], ◌∷◌, ◌≡◌, refl, sym, ap, ◌∙◌, arith, All,
  map, contains, string_eq, Bool-cases, inl, inr,
}
use sync.Prelude.Table
use sync.Prelude.Table.{has_of_find}
use sync.Errors.{ok}
use sync.Sync.Rows.{CacheEntryRow, EntryRow, cache_path, get_cache}
use sync.Sync.Dirty.{iterate_dirty, is_dirty}
use sync.Sync.Dirty.Laws.{state_of, iterate_dirty_lem, iterate_dirty-found}
use sync.Sync.Dirty.Laws.Distinct.{iterate_dirty-NodupPaths}
use sync.Sync.Candidate.{Handled, handled_path, get_handled}
use sync.Sync.ApplyLocal.{stamp_of}
use sync.Sync.Soundness.Rows.{of_Returns}
use sync.Sync.ApplyRemote.Steps.{IsRow}
use sync.Sync.ApplyRemote.Course.{Converged}
use sync.Sync.MergeJoin.Laws.{IsOrder}
use sync.Sync.Reconcile.{filter_by_path, reconcile_cache_after_commit, stamp_in}
use sync.Sync.Reconcile.Laws.{Reconciles, AtRow, reconcile_each, reconcile_others}
use sync.Sync.FastForward.{row_of_path, contains-filter_by_path, filter_by_path-NodupPaths}

-- What a reconciliation makes of the row of a path, by whether it is dirty and was handled.
abbrev pub Reconciled : Bool → Option CacheEntryRow → Option Handled → Option CacheEntryRow → Type 0
Reconciled true (some r) (some h) found = Reconciles r.state r h.stamp found
Reconciled true (some r) none found = found ≡ some r
Reconciled _ before handled found = found ≡ before

-- What a sync makes of the row that a path had after the scan, by whether it is dirty, was handled,
-- and by the entry of the state.db that the machine comes to: a dirty row that was not handled stays;
-- one that was handled is gone if it was a delete, and is otherwise unchanged at the version of the
-- path's entry; and at any other path the cache agrees with the entry.
abbrev pub Settled :
    Bool → Option CacheEntryRow → Option Handled → Option EntryRow → Option CacheEntryRow → Type 0
Settled true none handled entry found = ⊥
Settled true (some r) none entry found = found ≡ some r
Settled true (some r) (some h) entry found =
    Reconciles r.state r h.stamp found × (h.stamp ≡ stamp_of entry)
Settled false before handled entry found = Converged false before entry found

IsRow-clean : (e : EntryRow) (found : Option CacheEntryRow) → IsRow e found → state_of found ≡ false
IsRow-clean e none row = absurd row
IsRow-clean e (some r) (hash, type, state, version) = ap is_dirty state

Converged-clean :
    (before : Option CacheEntryRow) (entry : Option EntryRow) (found : Option CacheEntryRow)
    → state_of before ≡ false
    → Converged false before entry found
    → state_of found ≡ false
Converged-clean before none found clean c = ap state_of c
Converged-clean none (some e) found clean c = IsRow-clean e found c
Converged-clean (some r) (some e) found clean (inl (hash, same)) = ap state_of same ∙ clean
Converged-clean (some r) (some e) found clean (inr row) = IsRow-clean e found row

Settled-dirty :
    (before : Option CacheEntryRow) (handled : Option Handled) (entry : Option EntryRow)
    (found : Option CacheEntryRow)
    → state_of before ≡ true
    → ((h : Handled) → handled ≡ some h → h.stamp ≡ stamp_of entry)
    → Reconciled true before handled found
    → Settled true before handled entry found
Settled-dirty none handled entry found dirty stamped r = cc
Settled-dirty (some r) none entry found dirty stamped same = same
Settled-dirty (some r) (some h) entry found dirty stamped done = (done, stamped h refl)

clean-Reconciled :
    (before found : Option CacheEntryRow) (handled : Option Handled)
    → Reconciled false before handled found
    → found ≡ before
clean-Reconciled none found handled r = r
clean-Reconciled (some x) found handled r = r

-- The pull and the reconciliation, one after the other.
pub Settled-of :
    (dirty : Bool) (before pulled found : Option CacheEntryRow) (handled : Option Handled)
    (entry : Option EntryRow)
    → state_of before ≡ dirty
    → ((h : Handled) → handled ≡ some h → h.stamp ≡ stamp_of entry)
    → Converged dirty before entry pulled
    → Reconciled (state_of pulled) pulled handled found
    → Settled dirty before handled entry found
Settled-of true before pulled found handled entry at stamped same done =
    let same_state = ap state_of same ∙ at in
    Settled-dirty before handled entry found at stamped (
      subst (λ x. Reconciled true x handled found) same
        (subst (λ d. Reconciled d pulled handled found) same_state done))
Settled-of false before pulled found handled entry at stamped converged done =
    let clean = Converged-clean before entry pulled at converged in
    let same =
      clean-Reconciled pulled found handled
        (subst (λ d. Reconciled d pulled handled found) clean done) in
    subst (Converged false before entry) (sym same) converged

-- A property of the rows that the filter lets through.
All-filter :
    (P : CacheEntryRow → Type 0) (handled : List Handled) (rows : List CacheEntryRow)
    → All P rows
    → All P (filter_by_path rows handled)
unfolding filter_by_path
All-filter P handled [] h = tt
All-filter P handled (r ∷ rows) h = elim (Bool-cases (Table.has handled_path r.path handled)) [
  | inl k ↦ rw k (h.0, All-filter P handled rows h.1)
  | inr k ↦ rw k (All-filter P handled rows h.1)
]

All-both :
    (P Q : CacheEntryRow → Type 0) (rows : List CacheEntryRow)
    → All P rows
    → All Q rows
    → All (λ r. P r × Q r) rows
All-both P Q [] h k = tt
All-both P Q (r ∷ rows) h k = ((h.0, k.0), All-both P Q rows h.1 k.1)

unhandled :
    (p : String) (handled : List Handled) (rows : List CacheEntryRow)
    → get_handled p handled ≡ none
    → contains p (map cache_path (filter_by_path rows handled)) ≡ false
unfolding filter_by_path Table.has
unhandled p handled [] h = refl
unhandled p handled (r ∷ rows) h = ground (arith, unhandled p handled rows h)

Reconciled-of :
    (d : Bool) (before : Option CacheEntryRow) (handled : Option Handled)
    (found : Option CacheEntryRow)
    → state_of before ≡ d
    → (d ≡ false → found ≡ before)
    → (handled ≡ none → found ≡ before)
    → ((h : Handled) (r : CacheEntryRow)
        → handled ≡ some h
        → before ≡ some r
        → d ≡ true
        → Reconciles r.state r h.stamp found)
    → Reconciled d before handled found
Reconciled-of true none handled found at clean unknown done = absurd (cc at)
Reconciled-of true (some r) none found at clean unknown done = unknown refl
Reconciled-of true (some r) (some h) found at clean unknown done = done h r refl refl refl
Reconciled-of false none handled found at clean unknown done = clean refl
Reconciled-of false (some r) handled found at clean unknown done = clean refl

module _ (lt : String → String → Bool) (o : IsOrder lt) (cache : List CacheEntryRow)
    (handled : List Handled) where
  abbrev pub rows : List CacheEntryRow
  rows = filter_by_path (iterate_dirty lt cache) handled

  -- A path whose row is not dirty, or that was not handled, is left as it is.
  left_alone :
      (p : String) (cache' : List CacheEntryRow)
      → reconcile_cache_after_commit rows handled cache ≡ ok cache'
      → contains p (map cache_path rows) ≡ false
      → get_cache p cache' ≡ get_cache p cache
  left_alone p cache' ran absent =
      of_Returns (λ t. get_cache p t ≡ get_cache p cache) _
        (reconcile_others p rows handled cache absent) ran

  at_dirty :
      (p : String) (h : Handled) (r : CacheEntryRow) (cache' : List CacheEntryRow)
      → reconcile_cache_after_commit rows handled cache ≡ ok cache'
      → get_handled p handled ≡ some h
      → get_cache p cache ≡ some r
      → state_of (get_cache p cache) ≡ true
      → Reconciles r.state r h.stamp (get_cache p cache')
  at_dirty p h r cache' ran known found dirty =
      let each : All (λ row. AtRow row handled cache') rows =
        of_Returns (λ t. All (λ row. AtRow row handled t) rows) _
          (reconcile_each rows handled cache (
            filter_by_path-NodupPaths handled (iterate_dirty lt cache)
              (iterate_dirty-NodupPaths lt o cache)))
          ran in
      let own : All (λ row. get_cache row.path cache ≡ some row) rows =
        All-filter (λ row. get_cache row.path cache ≡ some row) handled (iterate_dirty lt cache)
          (iterate_dirty-found lt o cache) in
      let both =
        All-both (λ row. AtRow row handled cache') (λ row. get_cache row.path cache ≡ some row) rows
          each own in
      let (row, path, (at_row, here)) =
        row_of_path handled
          (λ row. AtRow row handled cache' × (get_cache row.path cache ≡ some row)) p
          (iterate_dirty lt cache) both (iterate_dirty_lem lt o cache p ∙ dirty)
          (has_of_find {K = String} handled_path p h handled known) in
      let same : row ≡ r =
        some-injective row r (sym here ∙ ap (λ q. get_cache q cache) path ∙ found) in
      let at_path : Reconciles row.state row (stamp_in (get_handled p handled))
          (get_cache p cache') =
        subst
          (λ q. Reconciles row.state row (stamp_in (get_handled q handled)) (get_cache q cache'))
          path at_row in
      subst (λ x. Reconciles x.state x h.stamp (get_cache p cache')) same
        (subst (λ x. Reconciles row.state row x (get_cache p cache')) (ap stamp_in known) at_path)

  pub reconciled_lem :
      (p : String) (cache' : List CacheEntryRow)
      → reconcile_cache_after_commit rows handled cache ≡ ok cache'
      → Reconciled
          (state_of (get_cache p cache))
          (get_cache p cache)
          (get_handled p handled)
          (get_cache p cache')
  reconciled_lem p cache' ran =
      let alone = left_alone p cache' ran in
      Reconciled-of (state_of (get_cache p cache)) (get_cache p cache) (get_handled p handled)
        (get_cache p cache') refl
        (λ clean. alone (
          contains-filter_by_path handled p (iterate_dirty lt cache)
            (iterate_dirty_lem lt o cache p ∙ clean)))
        (λ unknown. alone (unhandled p handled (iterate_dirty lt cache) unknown))
        (λ h r known found dirty. at_dirty p h r cache' ran known found dirty)
