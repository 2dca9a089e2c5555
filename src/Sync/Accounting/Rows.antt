-- ===== src/Sync/Accounting/Rows.antt =====
-- The accounting through the two passes over the dirty rows.
pub mod Unresolved
use sync.Prelude.{
  ℕ, String, Bool, true, Option, none, some, List, [], ◌∷◌, ◌++◌, ◌+◌, ◌≡◌, refl, ◌∙◌, ◌||◌, ◌⊎◌,
  inl, inr, map, contains, arith, string_eq, Bool-cases, ◌==◌, ==-refl,
}
use mathlib.Core.List.{map-append}
use sync.Prelude.Table
use sync.Prelude.Table.{has-upsert, find-upsert, find-remove, key-find}
use sync.Sync.Rows.{
  EntryType, file, dir, CacheState, created, EntryRow, CacheEntryRow, has_object, get_entry,
  cache_path,
}
use sync.Sync.Conflict.{LocalChangeDecision, apply, noop, conflict, decide_local_change}
use sync.Sync.Candidate.{
  SourceRow, Job, Run, handled_path, job_hash, set_handled, write_entry, add_conflict,
  delete_with_history,
}
use sync.Sync.ApplyLocal.{
  MirrorProbe, probed, probe_failed, delete_applied, delete_decided, delete_row, change_row,
  attached, attach, new_job, open_job, claim, sized_job, new_content, file_content, apply_file,
  apply_change, change_decided, change_uncollided, change_checked, stamp_of,
}
use sync.Sync.Soundness.Rows.{Returns, bind-Returns}
use sync.Sync.Accounting.{
  IsAccounted, pending, settled, riding, aborted, resolved, failing, contains-append,
}
use sync.Sync.Accounting.Jobs.{resolved-write_entry}
use sync.Sync.Accounting.Rows.Unresolved.{
  Due, Due-of_IsAccounted, resolve-IsAccounted, add_conflict-IsAccounted, set_handled-IsAccounted,
  write_entry-IsAccounted, Due-frame,
}

source_paths-append :
    (p : String) (row : CacheEntryRow) (sources : List SourceRow)
    → contains p (
        map
          (λ (r : SourceRow). r.path)
          (sources ++ (record { path = row.path; type = row.type } ∷ [])))
      ≡ (contains p (map (λ (r : SourceRow). r.path) sources) || row.path == p)
source_paths-append p row [] = ground arith
source_paths-append p row (r ∷ sources) = ground (arith, source_paths-append p row sources)

module _ (p : String) (rows : List CacheEntryRow) where
  attach-IsAccounted :
      (row : CacheEntryRow) (j : Job) (s : Run) (hash : String)
      → Table.find job_hash hash s.in_flight_by_hash ≡ some j
      → Due p row rows s
      → IsAccounted p rows (attach row j s)
  unfolding attach failing resolved
  attach-IsAccounted row j s hash found (inl same) =
      riding j.hash (attached row j) (rw (find-upsert, ==-refl j.hash))
        (ground (arith, source_paths-append p row j.source_rows))
  attach-IsAccounted row j s hash found (inr (pending h)) = pending h
  attach-IsAccounted row j s hash found (inr (settled h)) = settled h
  attach-IsAccounted row j s hash found (inr (aborted h)) = aborted h
  attach-IsAccounted row j s hash found (inr (riding hash' j' found' h)) =
      elim (Bool-cases (j.hash == hash')) [
        | inl same ↦ riding hash' (attached row j) (rw (find-upsert, same)) (
            ground (
              arith,
              source_paths-append p row j.source_rows,
              key-find job_hash hash s.in_flight_by_hash j found,
            ))
        | inr other ↦ riding hash' j' (rw (find-upsert, other) found') h
      ]

  open_job-IsAccounted :
      (verify : Bool) (row : CacheEntryRow) (hash : String) (size : ℕ) (needs : Bool) (s : Run)
      → Table.find job_hash hash s.in_flight_by_hash ≡ none
      → Due p row rows s
      → IsAccounted p rows (open_job verify row hash size needs s)
  unfolding open_job failing resolved
  open_job-IsAccounted verify row hash size needs s fresh (inl same) =
      riding hash (new_job verify row hash size needs (has_object hash s.objects))
        (rw (find-upsert, ==-refl hash)) (ground arith)
  open_job-IsAccounted verify row hash size needs s fresh (inr (pending h)) = pending h
  open_job-IsAccounted verify row hash size needs s fresh (inr (settled h)) = settled h
  open_job-IsAccounted verify row hash size needs s fresh (inr (aborted h)) = aborted h
  open_job-IsAccounted verify row hash size needs s fresh (inr (riding hash' j' found' h)) =
      elim (Bool-cases (hash == hash')) [
        | inl same ↦ absurd (ground arith)
        | inr other ↦ riding hash' j' (rw (find-upsert, other) found') h
      ]

  sized_job-IsAccounted :
      (verify : Bool) (row : CacheEntryRow) (hash : String) (size : Option ℕ) (needs : Bool)
      (s : Run)
      → Table.find job_hash hash s.in_flight_by_hash ≡ none
      → Due p row rows s
      → Returns (sized_job verify row hash size needs s) (IsAccounted p rows)
  unfolding sized_job
  sized_job-IsAccounted verify row hash none needs s fresh due = tt
  sized_job-IsAccounted verify row hash (some n) needs s fresh due =
      open_job-IsAccounted verify row hash n needs s fresh due

  deduped-IsAccounted :
      (version : String) (row : CacheEntryRow) (hash : Option String) (s : Run)
      → Due p row rows s
      → IsAccounted p rows (
          write_entry version row.path row.type hash
            (record s { deduped_objects = s.deduped_objects + 1 }))
  unfolding failing resolved
  deduped-IsAccounted version row hash s due =
      write_entry-IsAccounted p rows version row hash _
        (Due-frame p row rows s _ refl refl refl due)

  new_content-IsAccounted :
      (version : String) (verify : Bool) (row : CacheEntryRow) (hash : String) (probe : MirrorProbe)
      (s : Run)
      → Table.find job_hash hash s.in_flight_by_hash ≡ none
      → Due p row rows s
      → Returns (new_content version verify row hash probe s) (IsAccounted p rows)
  unfolding new_content
  new_content-IsAccounted version verify row hash (probe_failed m) s fresh due = tt
  new_content-IsAccounted version verify row hash (probed needs) s fresh due =
      elim (Bool-cases (has_object hash s.objects)) [
        | inr e ↦ rw e (sized_job-IsAccounted verify row hash row.size needs s fresh due)
        | inl e ↦ elim (Bool-cases needs) [
          | inl n ↦ rw (e, n) (sized_job-IsAccounted verify row hash row.size true s fresh due)
          | inr n ↦ rw (e, n) (deduped-IsAccounted version row (some hash) s due)
        ]
      ]

  file_content-IsAccounted :
      (version : String) (verify : Bool) (row : CacheEntryRow) (hash : String) (job : Option Job)
      (probe : MirrorProbe) (s : Run)
      → Table.find job_hash hash s.in_flight_by_hash ≡ job
      → Due p row rows s
      → Returns (file_content version verify row hash job probe s) (IsAccounted p rows)
  unfolding file_content
  file_content-IsAccounted version verify row hash (some j) probe s found due =
      attach-IsAccounted row j s hash found due
  file_content-IsAccounted version verify row hash none probe s found due =
      new_content-IsAccounted version verify row hash probe s found due

  claim-Due :
      (collision_key : String → String) (row : CacheEntryRow) (state : CacheState) (s : Run)
      → Due p row rows s
      → Due p row rows (claim collision_key row state s)
  unfolding claim failing resolved
  claim-Due collision_key row created s due = Due-frame p row rows s _ refl refl refl due
  claim-Due collision_key row _ s due = due

  apply_change-IsAccounted :
      (collision_key : String → String) (version : String) (verify : Bool) (row : CacheEntryRow)
      (type : EntryType) (hash : Option String) (probe : MirrorProbe) (s : Run)
      → row.hash ≡ hash
      → Due p row rows s
      → Returns (apply_change collision_key version verify row type probe s) (IsAccounted p rows)
  unfolding apply_change apply_file
  apply_change-IsAccounted collision_key version verify row dir hash probe s q due =
      write_entry-IsAccounted p rows version row none s due
  apply_change-IsAccounted collision_key version verify row file none probe s q due =
      rw (q, apply_file) tt
  apply_change-IsAccounted collision_key version verify row file (some hash) probe s q due =
      elim (Bool-cases (hash == "")) [
        | inl empty ↦ rw (q, apply_file, empty) tt
        | inr given ↦
            rw (q, apply_file, given)
              (file_content-IsAccounted version verify row hash _ probe _ refl
                (claim-Due collision_key row row.state s due))
      ]

  change_decided-IsAccounted :
      (collision_key : String → String) (version : String) (verify : Bool) (row : CacheEntryRow)
      (existing : Option EntryRow) (decision : LocalChangeDecision) (probe : MirrorProbe) (s : Run)
      → Due p row rows s
      → Returns
          (change_decided collision_key version verify row existing decision probe s)
          (IsAccounted p rows)
  unfolding change_decided
  change_decided-IsAccounted collision_key version verify row existing (conflict r) probe s due =
      add_conflict-IsAccounted p rows row r s due
  change_decided-IsAccounted collision_key version verify row existing noop probe s due =
      set_handled-IsAccounted p rows row (stamp_of existing) s due
  change_decided-IsAccounted collision_key version verify row existing apply probe s due =
      apply_change-IsAccounted collision_key version verify row row.type row.hash probe s refl due

  change_checked-IsAccounted :
      (collision_key : String → String) (version : String) (verify : Bool) (row : CacheEntryRow)
      (other : Option String) (probe : MirrorProbe) (s : Run)
      → Due p row rows s
      → Returns (change_checked collision_key version verify row other probe s) (IsAccounted p rows)
  unfolding change_checked change_uncollided
  change_checked-IsAccounted collision_key version verify row (some other) probe s due =
      add_conflict-IsAccounted p rows row _ s due
  change_checked-IsAccounted collision_key version verify row none probe s due =
      bind-Returns (IsAccounted p rows) (decide_local_change row (get_entry row.path s.entries)) _
        λ decision h.
          change_decided-IsAccounted collision_key version verify row _ decision probe s due

  pub change_row-IsAccounted :
      (collision_key : String → String) (version : String) (verify : Bool) (row : CacheEntryRow)
      (probe : MirrorProbe) (s : Run)
      → IsAccounted p (row ∷ rows) s
      → Returns (change_row collision_key version verify row probe s) (IsAccounted p rows)
  unfolding change_row
  change_row-IsAccounted collision_key version verify row probe s a =
      change_checked-IsAccounted collision_key version verify row _ probe s
        (Due-of_IsAccounted p row rows s a)

  delete_applied-IsAccounted :
      (version : String) (row : CacheEntryRow) (existing : Option EntryRow) (s : Run)
      → Due p row rows s
      → Returns (delete_applied version row existing s) (IsAccounted p rows)
  unfolding delete_applied delete_with_history set_handled failing resolved
  delete_applied-IsAccounted version row none s due = tt
  delete_applied-IsAccounted version row (some e) s due =
      resolve-IsAccounted p row rows s _ refl refl
        (λ h. ground (
          arith,
          has-upsert handled_path p (record { path = row.path; stamp = none }) s.handled_paths,
        ))
        due

  delete_decided-IsAccounted :
      (version : String) (row : CacheEntryRow) (existing : Option EntryRow)
      (decision : LocalChangeDecision) (s : Run)
      → Due p row rows s
      → Returns (delete_decided version row existing decision s) (IsAccounted p rows)
  unfolding delete_decided
  delete_decided-IsAccounted version row existing (conflict r) s due =
      add_conflict-IsAccounted p rows row r s due
  delete_decided-IsAccounted version row existing noop s due =
      set_handled-IsAccounted p rows row none s due
  delete_decided-IsAccounted version row existing apply s due =
      delete_applied-IsAccounted version row existing s due

  pub delete_row-IsAccounted :
      (version : String) (row : CacheEntryRow) (s : Run)
      → IsAccounted p (row ∷ rows) s
      → Returns (delete_row version row s) (IsAccounted p rows)
  unfolding delete_row
  delete_row-IsAccounted version row s a =
      bind-Returns (IsAccounted p rows) (decide_local_change row (get_entry row.path s.entries)) _
        λ decision h.
          delete_decided-IsAccounted version row _ decision s (Due-of_IsAccounted p row rows s a)
