-- ===== src/UpdateCache/Baseline.antt =====
-- What a scan keeps of a row: the version that it is based on, and that it is dirty.
use mathlib.Core.Path.{subst}
use mathlib.Core.Option.{none-ne-some, some-injective}
use sync.Prelude.{
  ℕ, String, Bool, true, false, not, ◌&&◌, Option, none, some, ◌≡◌, refl, ◌==◌, option_eq, nat_eq,
  string_eq, inl, inr, Bool-cases, if◌then◌else◌,
}
use sync.Errors.{ok, ◌>>=◌, ok-injective, bind-ok}
use sync.Sync.Rows.{EntryType, CacheState, CacheEntryRow}
use sync.Sync.MergeJoin.{Step}
use sync.UpdateCache.{
  WalkEntry, Arguments, is_both, is_created, is_deleted, is_ignored, created_row, changed_row,
  assert_stubbable_real_file,
}
use sync.UpdateCache.Expected.{content_of, updated_row, expected_existing, expected}

-- A staged row against the one it replaces.
abbrev pub KeepsBase : CacheEntryRow → CacheEntryRow → Type 0
KeepsBase r row =
    (row.parent_state_version ≡ r.parent_state_version)
    × (row.state ≡ CacheState.unchanged → (r.state ≡ CacheState.unchanged) × (row.hash ≡ r.hash))

changed_row-KeepsBase :
    (state : CacheState) (r : CacheEntryRow) (e : WalkEntry) (hash : Option String)
    (size : Option ℕ)
    → r.state ≡ state
    → KeepsBase r (changed_row state r e hash size)
unfolding changed_row
changed_row-KeepsBase CacheState.created r e hash size at = (refl, λ h. absurd (cc (h, at)))
changed_row-KeepsBase CacheState.modified r e hash size at = (refl, λ h. absurd (cc (h, at)))
changed_row-KeepsBase CacheState.deleted r e hash size at = (refl, λ h. absurd (cc h))
changed_row-KeepsBase CacheState.unchanged r e hash size at = (refl, λ h. absurd (cc h))

updated_row-KeepsBase :
    (r : CacheEntryRow) (e : WalkEntry) (hash : Option String) (size : Option ℕ)
    → KeepsBase r (updated_row r e hash size)
unfolding updated_row
updated_row-KeepsBase r e hash size = elim (Bool-cases (hash == r.hash)) [
  | inl same ↦ rw same (refl, λ h. (h, refl))
  | inr differs ↦ rw differs (changed_row-KeepsBase r.state r e hash size refl)
]

expected_existing-KeepsBase :
    (c : Arguments) (type : EntryType) (e : WalkEntry) (r row : CacheEntryRow)
    → expected_existing c type e r ≡ ok (some row)
    → KeepsBase r row
unfolding expected_existing
expected_existing-KeepsBase c EntryType.dir e r row h = dir (is_deleted r.state) h
  where
    dir :
        (gone : Bool)
        → ok (if gone then some (created_row e none none r.parent_state_version) else none)
          ≡ ok (some row)
        → KeepsBase r row
    dir true h =
        subst (KeepsBase r) (some-injective _ row (ok-injective h))
          (unfold created_row in (refl, λ k. absurd (cc k)))
    dir false h = absurd (none-ne-some row (ok-injective h))
expected_existing-KeepsBase c EntryType.file e r row h =
    file (not (is_both e) && (r.mtime == some e.mtime)) h
  where
    file :
        (same : Bool)
        → (if same
            then ok none
            else content_of c e >>= λ v. ok (some (updated_row r e (v.0) (v.1))))
          ≡ ok (some row)
        → KeepsBase r row
    file true h = absurd (none-ne-some row (ok-injective h))
    file false h =
        let hashed = bind-ok (content_of c e) _ (some row) h in
        subst (KeepsBase r) (some-injective _ row (ok-injective (hashed.2)))
          (updated_row-KeepsBase r e (hashed.0.0) (hashed.0.1))

-- The row that is expected of a path which cache.db knows and the walk finds keeps the version that
-- the old row was based on, and is unchanged only if the old row was and has the same hash: a local
-- change that was not sent yet stays one.
pub expected-KeepsBase :
    (c : Arguments) (r row : CacheEntryRow) (e : WalkEntry)
    → expected c (Step.both r e) ≡ ok (some row)
    → KeepsBase r row
unfolding expected
expected-KeepsBase c r row e h = go (is_created r.state && is_ignored c e.path) h
  where
    go :
        (dropped : Bool)
        → (if dropped
            then ok none
            else assert_stubbable_real_file c e >>= λ _. expected_existing c e.type e r)
          ≡ ok (some row)
        → KeepsBase r row
    go true h = absurd (none-ne-some row (ok-injective h))
    go false h =
        let stubbable = bind-ok (assert_stubbable_real_file c e) _ (some row) h in
        expected_existing-KeepsBase c e.type e r row (stubbable.2)
