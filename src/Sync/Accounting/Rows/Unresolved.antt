-- ===== src/Sync/Accounting/Rows/Unresolved.antt =====
-- A row that a pass has taken off its list and not yet resolved.
use sync.Prelude.{
  String, true, Option, List, ◌∷◌, ◌≡◌, refl, ◌∙◌, ◌||◌, ◌⊎◌, inl, inr, map, contains, arith,
  string_eq, Bool-cases, ◌==◌,
}
use mathlib.Core.List.{map-append}
use sync.Prelude.Table.{has-upsert}
use sync.Sync.Rows.{CacheEntryRow, cache_path}
use sync.Sync.Candidate.{Run, handled_path, set_handled, write_entry, add_conflict}
use sync.Sync.Accounting.{
  IsAccounted, pending, settled, riding, aborted, resolved, failing, contains-append,
}
use sync.Sync.Accounting.Jobs.{resolved-write_entry}

-- A path is the row's own, or is accounted for with the rows behind it.
abbrev pub Due : String → CacheEntryRow → List CacheEntryRow → Run → Type 0
Due p row rows s = (row.path ≡ p) ⊎ IsAccounted p rows s

pub Due-of_IsAccounted :
    (p : String) (row : CacheEntryRow) (rows : List CacheEntryRow) (s : Run)
    → IsAccounted p (row ∷ rows) s
    → Due p row rows s
Due-of_IsAccounted p row rows s (pending h) = elim (Bool-cases (contains p (map cache_path rows))) [
  | inl more ↦ inr (pending more)
  | inr last ↦ inl (ground arith)
]
Due-of_IsAccounted p row rows s (settled h) = inr (settled h)
Due-of_IsAccounted p row rows s (aborted h) = inr (aborted h)
Due-of_IsAccounted p row rows s (riding hash j found h) = inr (riding hash j found h)

-- A step that resolves the row and leaves the jobs alone.
pub resolve-IsAccounted :
    (p : String) (row : CacheEntryRow) (rows : List CacheEntryRow) (s s' : Run)
    → s'.in_flight_by_hash ≡ s.in_flight_by_hash
    → failing s' ≡ failing s
    → ((row.path == p || resolved p s) ≡ true → resolved p s' ≡ true)
    → Due p row rows s
    → IsAccounted p rows s'
resolve-IsAccounted p row rows s s' jobs fails keep (inl same) = settled (keep (ground arith))
resolve-IsAccounted p row rows s s' jobs fails keep (inr (pending h)) = pending h
resolve-IsAccounted p row rows s s' jobs fails keep (inr (settled h)) =
    settled (keep (ground arith))
resolve-IsAccounted p row rows s s' jobs fails keep (inr (aborted h)) = aborted (fails ∙ h)
resolve-IsAccounted p row rows s s' jobs fails keep (inr (riding hash j found h)) =
    riding hash j (rw jobs found) h

module _ (p : String) (rows : List CacheEntryRow) where
  pub add_conflict-IsAccounted :
      (row : CacheEntryRow) (reason : String) (s : Run)
      → Due p row rows s
      → IsAccounted p rows (add_conflict row.path reason s)
  unfolding add_conflict failing resolved
  add_conflict-IsAccounted row reason s =
      resolve-IsAccounted p row rows s _ refl refl
        λ h. rw (map-append, contains-append p) (ground arith)

  pub set_handled-IsAccounted :
      (row : CacheEntryRow) (stamp : Option String) (s : Run)
      → Due p row rows s
      → IsAccounted p rows (set_handled row.path stamp s)
  unfolding set_handled failing resolved
  set_handled-IsAccounted row stamp s = resolve-IsAccounted p row rows s _ refl refl λ h.
      ground (
        arith,
        has-upsert handled_path p (record { path = row.path; stamp = stamp }) s.handled_paths,
      )

  pub write_entry-IsAccounted :
      (version : String) (row : CacheEntryRow) (hash : Option String) (s : Run)
      → Due p row rows s
      → IsAccounted p rows (write_entry version row.path row.type hash s)
  unfolding write_entry set_handled failing
  write_entry-IsAccounted version row hash s =
      resolve-IsAccounted p row rows s _ refl refl
        (resolved-write_entry p version row.path row.type hash s)

-- Counters and claims do not matter.
pub Due-frame :
    (p : String) (row : CacheEntryRow) (rows : List CacheEntryRow) (s s' : Run)
    → s'.in_flight_by_hash ≡ s.in_flight_by_hash
    → failing s' ≡ failing s
    → resolved p s' ≡ resolved p s
    → Due p row rows s
    → Due p row rows s'
Due-frame p row rows s s' jobs fails keeps (inl same) = inl same
Due-frame p row rows s s' jobs fails keeps (inr (pending h)) = inr (pending h)
Due-frame p row rows s s' jobs fails keeps (inr (settled h)) = inr (settled (keeps ∙ h))
Due-frame p row rows s s' jobs fails keeps (inr (aborted h)) = inr (aborted (fails ∙ h))
Due-frame p row rows s s' jobs fails keeps (inr (riding hash j found h)) =
    inr (riding hash j (rw jobs found) h)
