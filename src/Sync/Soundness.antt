-- ===== src/Sync/Soundness.antt =====
-- The invariant of a run between any two events: the stamps that it hands to the cache are those of
-- the entries, paths that it has not handled keep their entry, no entry names unknown content, and
-- while nothing was applied the entries are those of the start.
pub mod Jobs
pub mod Rows
pub mod Schedules
use sync.Prelude.{ℕ, ◌+◌, String, true, Option, none, some, List, ◌≡◌, arith, string_eq}
use sync.Prelude.Table
use sync.Prelude.Table.{find-upsert, find-remove, has-upsert}
use sync.Sync.Rows.{EntryType, EntryRow, ObjectRow, get_entry, has_object, entry_path, object_hash}
use sync.Sync.Candidate.{Handled, get_handled, handled_path}
use sync.Sync.ApplyLocal.{stamp_of}

pub record IsSound (orig : List EntryRow) (handled : List Handled) (entries : List EntryRow)
    (objects : List ObjectRow) (applied : ℕ) : Type 0 where
  pub stamped :
      (p : String) (h : Handled)
      → get_handled p handled ≡ some h
      → h.stamp ≡ stamp_of (get_entry p entries)
  pub untouched :
      (p : String) → get_handled p handled ≡ none → get_entry p entries ≡ get_entry p orig
  pub referenced :
      (p : String) (e : EntryRow) (hash : String)
      → get_entry p entries ≡ some e
      → e.hash ≡ some hash
      → has_object hash objects ≡ true
  pub idle : applied ≡ 0 → entries ≡ orig

-- The content that a written entry names is known.
abbrev pub Known : Option String → List ObjectRow → Type 0
Known none objects = Unit
Known (some hash) objects = has_object hash objects ≡ true

module _ {orig : List EntryRow} {handled : List Handled} {entries : List EntryRow}
    {objects : List ObjectRow} {applied : ℕ}
    (s : IsSound orig handled entries objects applied) where
  pub write-IsSound :
      (path : String) (type : EntryType) (hash : Option String) (version : String)
      → Known hash objects
      → IsSound orig
          (Table.upsert handled_path (record { path = path; stamp = some version }) handled)
          (Table.upsert entry_path
            (record { path = path; type = type; hash = hash; state_version = version })
            entries)
          objects
          (applied + 1)
  write-IsSound path type hash version known = record {
    stamped = λ p h. rw (find-upsert, find-upsert) (ground (arith, s.stamped p h));
    untouched = λ p. rw (find-upsert, find-upsert) (ground (arith, s.untouched p));
    referenced = λ p e x. rw find-upsert (ground (arith, s.referenced p e x));
    idle = λ e. absurd (omega (arith, e));
  }

  pub delete-IsSound :
      (path : String)
      → IsSound orig
          (Table.upsert handled_path (record { path = path; stamp = none }) handled)
          (Table.remove entry_path path entries)
          objects
          (applied + 1)
  delete-IsSound path = record {
    stamped = λ p h. rw (find-upsert, find-remove) (ground (arith, s.stamped p h));
    untouched = λ p. rw (find-upsert, find-remove) (ground (arith, s.untouched p));
    referenced = λ p e x. rw find-remove (ground (arith, s.referenced p e x));
    idle = λ e. absurd (omega (arith, e));
  }

  -- A path that is left alone is handled at the stamp that its entry has.
  pub keep-IsSound :
      (path : String)
      → IsSound orig
          (Table.upsert handled_path
            (record { path = path; stamp = stamp_of (get_entry path entries) })
            handled)
          entries
          objects
          applied
  keep-IsSound path = record {
    stamped = λ p h. rw find-upsert (ground (arith, s.stamped p h));
    untouched = λ p. rw find-upsert (ground (arith, s.untouched p));
    referenced = s.referenced;
    idle = s.idle;
  }

  pub object-IsSound :
      (o : ObjectRow) → IsSound orig handled entries (Table.upsert object_hash o objects) applied
  object-IsSound o = record {
    stamped = s.stamped;
    untouched = s.untouched;
    referenced = λ p e x q r. rw has-upsert (ground (arith, s.referenced p e x q r));
    idle = s.idle;
  }
