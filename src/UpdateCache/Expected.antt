-- ===== src/UpdateCache/Expected.antt =====
-- The row that a scan stages at a path, as a function of what is there: no job, no schedule and no
-- other path.
use sync.Prelude.{
  ℕ, String, Bool, false, not, ◌&&◌, Option, none, some, ◌≡◌, refl, ◌==◌, if◌then◌else◌, nat_eq,
  string_eq, option_eq, Bool-cases, inl, inr,
}
use sync.Errors.{Result, ok, ◌>>=◌, ◌>>◌}
use sync.Sync.Rows.{EntryType, CacheState, CacheEntryRow}
use sync.Sync.MergeJoin.{Step}
use sync.UpdateCache.{
  WalkEntry, Arguments, Scan, ContentResolution, resolved, needs_hash, classify_content,
  assert_stubbable_real_file, counting, insert, created_row, missing_row, changed_row, next_state,
  is_deleted, is_created, is_both, is_ignored, finalize_existing,
}

unfoldable pub hash_if_needed :
    Arguments → WalkEntry → ContentResolution → Result (Option String × Option ℕ)
hash_if_needed c e (resolved hash size) = ok (hash, size)
hash_if_needed c e needs_hash = c.hash_file e.path >>= λ hash. ok (some hash, some e.size)

-- The hash and the size of an entry.
unfoldable pub content_of : Arguments → WalkEntry → Result (Option String × Option ℕ)
unfolding hash_if_needed
content_of c e = classify_content c e.type e >>= hash_if_needed c e

unfoldable pub updated_row : CacheEntryRow → WalkEntry → Option String → Option ℕ → CacheEntryRow
updated_row r e hash size =
    if hash == r.hash then record r { mtime = some e.mtime } else changed_row r.state r e hash size

unfoldable pub expected_existing :
    Arguments → EntryType → WalkEntry → CacheEntryRow → Result (Option CacheEntryRow)
unfolding content_of updated_row
expected_existing c EntryType.dir e r =
    ok (if is_deleted r.state then some (created_row e none none r.parent_state_version) else none)
expected_existing c EntryType.file e r =
    if not (is_both e) && (r.mtime == some e.mtime)
    then ok none
    else content_of c e >>= λ v. ok (some (updated_row r e (v.0) (v.1)))

unfoldable pub expected : Arguments → Step WalkEntry → Result (Option CacheEntryRow)
unfolding content_of expected_existing
expected c (Step.remote_only e) =
    if is_ignored c e.path
    then ok none
    else assert_stubbable_real_file c e
      >> (content_of c e >>= λ v.
          ok (some (created_row e (v.0) (v.1) (some c.last_synced_version))))
expected c (Step.local_only r) = ok (if is_deleted r.state then none else some (missing_row r))
expected c (Step.both r e) =
    if is_created r.state && is_ignored c e.path
    then ok none
    else assert_stubbable_real_file c e >> expected_existing c e.type e r

-- Whether the row of cache.db is dropped.
unfoldable pub is_dropped : Arguments → Step WalkEntry → Bool
is_dropped c (Step.remote_only e) = false
is_dropped c (Step.local_only r) = false
is_dropped c (Step.both r e) = is_created r.state && is_ignored c e.path

pub finalize_existing-insert :
    (e : WalkEntry) (r : CacheEntryRow) (hash : Option String) (size : Option ℕ) (s : Scan)
    → (k : CacheState) × (finalize_existing e r hash size s
        ≡ insert (updated_row r e hash size) (counting k s))
unfolding finalize_existing updated_row
finalize_existing-insert e r hash size s = elim (Bool-cases (hash == r.hash)) [
  | inl same ↦ (CacheState.unchanged, rw same refl)
  | inr differs ↦ (next_state r.state, rw differs refl)
]

changed_row-path :
    (state : CacheState) (r : CacheEntryRow) (e : WalkEntry) (hash : Option String)
    (size : Option ℕ)
    → r.path ≡ e.path
    → (changed_row state r e hash size).path ≡ e.path
unfolding changed_row
changed_row-path CacheState.created r e hash size h = h
changed_row-path CacheState.modified r e hash size h = h
changed_row-path CacheState.deleted r e hash size h = refl
changed_row-path CacheState.unchanged r e hash size h = refl

pub updated_row-path :
    (r : CacheEntryRow) (e : WalkEntry) (hash : Option String) (size : Option ℕ)
    → r.path ≡ e.path
    → (updated_row r e hash size).path ≡ e.path
unfolding updated_row
updated_row-path r e hash size h = elim (Bool-cases (hash == r.hash)) [
  | inl same ↦ rw same h
  | inr differs ↦ rw differs (changed_row-path r.state r e hash size h)
]

-- The row of a job whose file has this hash.
unfoldable pub job_row : Arguments → WalkEntry → Option CacheEntryRow → String → CacheEntryRow
unfolding updated_row created_row
job_row c e none hash = created_row e (some hash) (some e.size) (some c.last_synced_version)
job_row c e (some r) hash = updated_row r e (some hash) (some e.size)
