-- ===== src/Sync/FastForward.antt =====
-- A run of `applyLocalChangesToCandidate` followed by `reconcileCacheAfterCommit`: the baselines that
-- the cache gets are the versions of the candidate's own entries.
use mathlib.Core.Option.{none-ne-some}
use sync.Prelude.{
  ℕ, String, Bool, true, false, Option, none, some, List, [], ◌∷◌, ◌≡◌, ◌⊎◌, refl, sym, ap, ◌∙◌,
  arith, map, contains, string_eq, option_eq, inl, inr, Bool-cases, ◌==◌, if◌then◌else◌, All,
  Option-cases,
}
use sync.Prelude.Table
use sync.Prelude.Table.{find_of_has, key-find}
use sync.Errors.{ok}
use sync.Sync.Rows.{
  EntryRow, ObjectRow, CacheEntryRow, CacheState, created, modified, deleted, unchanged, cache_path,
  get_cache, get_entry,
}
use sync.Sync.Conflict.{apply, decide_local_change}
use sync.Sync.Conflict.Laws.{AtBaseline, decide_apply}
use sync.Sync.Candidate.{Handled, handled_path, get_handled}
use sync.Sync.ApplyLocal.{stamp_of}
use sync.Sync.Schedule.{Event, Loop, Settings, Candidate, apply_local_changes}
use sync.Sync.Soundness.{IsSound}
use sync.Sync.Soundness.Jobs.{Sound}
use sync.Sync.Soundness.Rows.{of_Returns}
use sync.Sync.Soundness.Schedules.{IsReferenced, apply_local_changes-Sound}
use sync.Sync.Reconcile.{filter_by_path, reconcile_cache_after_commit, stamp_in}
use sync.Sync.Reconcile.Laws.{NodupPaths, Reconciles, AtRow, reconcile_each}

module _ (handled : List Handled) where
  pub contains-filter_by_path :
      (p : String) (rows : List CacheEntryRow)
      → contains p (map cache_path rows) ≡ false
      → contains p (map cache_path (filter_by_path rows handled)) ≡ false
  unfolding filter_by_path
  contains-filter_by_path p [] h = refl
  contains-filter_by_path p (row ∷ rows) h = ground (arith, contains-filter_by_path p rows)

  pub filter_by_path-NodupPaths :
      (rows : List CacheEntryRow) → NodupPaths rows → NodupPaths (filter_by_path rows handled)
  unfolding filter_by_path
  filter_by_path-NodupPaths [] nodup = tt
  filter_by_path-NodupPaths (row ∷ rows) (fresh, nodup) =
      elim (Bool-cases (Table.has handled_path row.path handled)) [
        | inl e ↦
            rw e (contains-filter_by_path row.path rows fresh, filter_by_path-NodupPaths rows nodup)
        | inr e ↦ rw e (filter_by_path-NodupPaths rows nodup)
      ]

  All-tail :
      (P : CacheEntryRow → Type 0) (row : CacheEntryRow) (rows : List CacheEntryRow) (known : Bool)
      → All P (if known then row ∷ filter_by_path rows handled else filter_by_path rows handled)
      → All P (filter_by_path rows handled)
  All-tail P row rows true all = all.1
  All-tail P row rows false all = all

  All-head :
      (P : CacheEntryRow → Type 0) (row : CacheEntryRow) (rows : List CacheEntryRow) (known : Bool)
      → known ≡ true
      → All P (if known then row ∷ filter_by_path rows handled else filter_by_path rows handled)
      → P row
  All-head P row rows true e all = all.0
  All-head P row rows false e all = cc

  -- The row of a path that the filter lets through.
  pub row_of_path :
      (P : CacheEntryRow → Type 0) (p : String) (rows : List CacheEntryRow)
      → All P (filter_by_path rows handled)
      → contains p (map cache_path rows) ≡ true
      → Table.has handled_path p handled ≡ true
      → (row : CacheEntryRow) × (row.path ≡ p) × P row
  unfolding filter_by_path
  row_of_path P p [] all due known = cc
  row_of_path P p (row ∷ rows) all due known = elim (Bool-cases (row.path == p)) [
    | inl same ↦
        let path : row.path ≡ p = ground arith in
        (row, path, All-head P row rows _ (rw path known) all)
    | inr other ↦ row_of_path P p rows (All-tail P row rows _ all) (ground arith) known
  ]

baseline_of_stamp :
    (edit : CacheEntryRow) (state : CacheState) (existing : Option EntryRow) (stamp : String)
    → (state ≡ modified) ⊎ (state ≡ deleted)
    → edit.parent_state_version ≡ some stamp
    → stamp_of existing ≡ some stamp
    → AtBaseline edit state existing
baseline_of_stamp edit modified (some e) stamp s p q = q ∙ sym p
baseline_of_stamp edit deleted (some e) stamp s p q = q ∙ sym p
baseline_of_stamp edit modified none stamp s p q = absurd (none-ne-some stamp q)
baseline_of_stamp edit deleted none stamp s p q = absurd (none-ne-some stamp q)
baseline_of_stamp edit created existing stamp s p q = ground arith
baseline_of_stamp edit unchanged existing stamp s p q = ground arith

-- A row that the cache still holds after it was reconciled is at the stamp that was handed over.
baseline_of_row :
    (state : CacheState) (row : CacheEntryRow) (stamp : Option String)
    (found : Option CacheEntryRow) (r : CacheEntryRow)
    → Reconciles state row stamp found
    → found ≡ some r
    → (v : String) × (stamp ≡ some v) × (r.parent_state_version ≡ some v)
baseline_of_row deleted row stamp found r h e = cc
baseline_of_row created row (some v) found r h e = (v, refl, ground arith)
baseline_of_row modified row (some v) found r h e = (v, refl, ground arith)
baseline_of_row unchanged row (some v) found r h e = (v, refl, ground arith)
baseline_of_row created row none found r h e = absurd h
baseline_of_row modified row none found r h e = absurd h
baseline_of_row unchanged row none found r h e = absurd h

stamp_agrees :
    {orig entries : List EntryRow} {objects : List ObjectRow} {handled : List Handled} {applied : ℕ}
    (p v : String)
    → IsSound orig handled entries objects applied
    → stamp_in (get_handled p handled) ≡ some v
    → stamp_of (get_entry p entries) ≡ some v
stamp_agrees {handled} p v sound e = elim (Option-cases (get_handled p handled)) [
  | inl q ↦ cc (ap stamp_in q)
  | inr (h, q) ↦ sym (sound.stamped p h q) ∙ sym (ap stamp_in q) ∙ e
]

-- No false conflict after a sync: when a run over rows of different paths has returned, from a state
-- whose entries name only listed objects, and the rows that it handled are reconciled, then an edit
-- or delete of a handled path on top of the row that the cache now holds is decided as apply against
-- the entry of the run's candidate.
pub next_change_applies :
    (c : Settings) (k : Candidate) (dirty : List CacheEntryRow) (schedule : List Event) (l : Loop)
    (cache cache' : List CacheEntryRow) (p : String) (r edit : CacheEntryRow)
    → IsReferenced k.0 k.2
    → NodupPaths dirty
    → apply_local_changes c k dirty schedule ≡ ok l
    → reconcile_cache_after_commit
        (filter_by_path dirty l.run.handled_paths)
        l.run.handled_paths
        cache
      ≡ ok cache'
    → contains p (map cache_path dirty) ≡ true
    → Table.has handled_path p l.run.handled_paths ≡ true
    → get_cache p cache' ≡ some r
    → edit.parent_state_version ≡ r.parent_state_version
    → (edit.state ≡ modified) ⊎ (edit.state ≡ deleted)
    → decide_local_change edit (get_entry p l.run.entries) ≡ ok apply
next_change_applies c k dirty schedule l cache cache' p r edit referenced nodup ran reconciled due
      known found same dirty_edit =
    let handled = l.run.handled_paths in
    let sound : Sound k.0 l.run =
      of_Returns (λ (l' : Loop). Sound k.0 l'.run) _
        (apply_local_changes-Sound c k dirty schedule referenced) ran in
    let each : All (λ row. AtRow row handled cache') (filter_by_path dirty handled) =
      of_Returns (λ t. All (λ row. AtRow row handled t) (filter_by_path dirty handled)) _
        (reconcile_each (filter_by_path dirty handled) handled cache
          (filter_by_path-NodupPaths handled dirty nodup))
        reconciled in
    let (row, path, at_row) =
      row_of_path handled (λ row. AtRow row handled cache') p dirty each due known in
    let (v, stamp, parent) = baseline_of_row row.state row _ _ r at_row (rw path found) in
    (decide_apply edit (get_entry p l.run.entries)).1 (
      baseline_of_stamp edit edit.state _ v dirty_edit (same ∙ parent)
        (stamp_agrees p v sound (rw path at stamp)))
