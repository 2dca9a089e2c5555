-- ===== src/Sync/Gc.antt =====
-- src/sync/gc.ts with the orphan queries of src/db/repositories/objects-repository.ts: the objects
-- that no current entry names are taken out of state.db, the new version is committed by a
-- conditional PUT of `/current`, and only then are their keys deleted. A rival's commit may land
-- before the PUT; the snapshot of an attempt that loses, which nothing names, is not kept. Encryption, the mirror, the local copies and progress are left out.
pub mod Laws
use sync.Prelude.{
  ℕ, zero, suc, ◌+◌, String, Bool, true, false, not, Option, none, some, List, [], ◌∷◌, ◌++◌,
  length, ◌==◌, ◌||◌, contains, map, if◌then◌else◌, string_eq, option_eq, nat_eq,
}
use sync.Prelude.Table
use sync.Errors.{Result, ok, throw, corruption, too_many_commits, ◌>>=◌}
use sync.Sync.Rows.{EntryRow, ObjectRow, object_hash}

-- The tables of one state.db that garbage collection reads and writes.
pub record StateDb : Type 0 where
  pub entries : List EntryRow
  pub objects : List ObjectRow
  pub versions : List String

-- `hash IN (SELECT DISTINCT hash FROM entries WHERE hash IS NOT NULL)`
unfoldable pub referenced : String → List EntryRow → Bool
referenced hash [] = false
referenced hash (e ∷ entries) = e.hash == some hash || referenced hash entries

-- `stageOrphansForDeletion`
unfoldable pub stage_orphans : List EntryRow → List ObjectRow → List ObjectRow
stage_orphans entries [] = []
stage_orphans entries (o ∷ objects) =
    let rest = stage_orphans entries objects in if referenced o.hash entries then rest else o ∷ rest

-- `deleteStagedOrphans`
unfoldable pub delete_staged_orphans : List ObjectRow → List ObjectRow → List ObjectRow
delete_staged_orphans staged [] = []
delete_staged_orphans staged (o ∷ objects) =
    let rest = delete_staged_orphans staged objects in
    if contains o.hash (map object_hash staged) then rest else o ∷ rest

-- `totalSize` of `countOrphaned` and `countStagedOrphans`
unfoldable pub total_size : List ObjectRow → ℕ
total_size [] = 0
total_size (o ∷ objects) = o.size + total_size objects

-- `/current`, the state.db of each version, and the keys of the bucket's objects.
pub record Vault : Type 0 where
  pub current : String
  pub snapshots : List (String × StateDb)
  pub keys : List String

abbrev pub stamp_of_snapshot : String × StateDb → String
stamp_of_snapshot (stamp, db) = stamp

pub record GcResult : Type 0 where
  pub orphan_count : ℕ
  pub reclaimed_bytes : ℕ
  pub applied : Bool

-- `deleteObject` for each staged orphan.
unfoldable pub delete_keys : List ObjectRow → List String → List String
delete_keys [] keys = keys
delete_keys (o ∷ staged) keys = Table.remove (λ k. k) o.s3_key (delete_keys staged keys)

unfoldable pub collected : String → StateDb → List ObjectRow → StateDb
collected stamp db staged = record {
  entries = db.entries;
  objects = delete_staged_orphans staged db.objects;
  versions = db.versions ++ (stamp ∷ []);
}

-- The commit and the sweep, once the conditional PUT is accepted.
unfoldable pub commit_collection : String → StateDb → List ObjectRow → Vault → Vault
unfolding delete_keys collected
commit_collection stamp db staged v = record {
  current = stamp;
  snapshots = Table.upsert stamp_of_snapshot (stamp, collected stamp db staged) v.snapshots;
  keys = delete_keys staged v.keys;
}

abbrev result_of : List ObjectRow → Bool → GcResult
result_of staged applied = record {
  orphan_count = length staged;
  reclaimed_bytes = total_size staged;
  applied = applied;
}

-- One attempt: an answer, or none if a rival's commit has moved `/current`.
unfoldable pub gc_staged :
    String → Option Vault → StateDb → List ObjectRow → Vault → Option GcResult × Vault
unfolding commit_collection
gc_staged stamp rival db [] v = (some (result_of [] false), v)
gc_staged stamp none db (o ∷ staged) v =
    (some (result_of (o ∷ staged) true), commit_collection stamp db (o ∷ staged) v)
gc_staged stamp (some v') db (o ∷ staged) v = (none, v')

unfoldable pub gc_attempt :
    String
    → Option Vault
    → Bool
    → Option (String × StateDb)
    → Vault
    → Result (Option GcResult × Vault)
unfolding gc_staged
gc_attempt stamp rival apply none v = throw (corruption v.current)
gc_attempt stamp rival false (some (_, db)) v =
    ok (some (result_of (stage_orphans db.entries db.objects) false), v)
gc_attempt stamp rival true (some (_, db)) v =
    ok (gc_staged stamp rival db (stage_orphans db.entries db.objects) v)

-- `MAX_CAS_ATTEMPTS`
abbrev pub max_cas_attempts : ℕ
max_cas_attempts = 5

unfoldable pub gc_continue :
    (Vault → Result (GcResult × Vault)) → Option GcResult × Vault → Result (GcResult × Vault)
gc_continue again (some r, v) = ok (r, v)
gc_continue again (none, v) = again v

-- The loop, by the attempts that are left: `stamps n` is the fresh version stamp of the attempt and
-- `rivals n` the vault that a rival's commit leaves, if one lands first.
unfoldable pub gc_loop :
    (ℕ → String) → (ℕ → Vault → Option Vault) → Bool → ℕ → Vault → Result (GcResult × Vault)
unfolding gc_attempt gc_continue
gc_loop stamps rivals apply zero v = throw too_many_commits
gc_loop stamps rivals apply (suc left) v =
    gc_attempt (stamps left) (rivals left v) apply
      (Table.find stamp_of_snapshot v.current v.snapshots) v
    >>= gc_continue (gc_loop stamps rivals apply left)

unfoldable pub perform_gc :
    (ℕ → String) → (ℕ → Vault → Option Vault) → Bool → Vault → Result (GcResult × Vault)
unfolding gc_loop
perform_gc stamps rivals apply v = gc_loop stamps rivals apply max_cas_attempts v
