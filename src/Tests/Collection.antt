-- ===== src/Tests/Collection.antt =====
-- A collection of one orphan beside one object in use, and the class of an object with two paths.
use mathlib.Core.Path.{subst}
use mathlib.Core.Option.{some-injective}
use sync.Prelude.{
  ◌≤◌, ◌<◌, String, true, false, none, some, List, [], ◌∷◌, ◌≡◌, ◌↔◌, refl, sym, ◌∙◌, ◌==◌, All,
  contains, arith, string_eq, option_eq, if◌then◌else◌,
}
use sync.Prelude.Table
use sync.Prelude.Table.{find, remove, upsert}
use sync.Errors.{ok}
use sync.S3.Storage
use sync.S3.Storage.Laws.{IsRestored, acts_until_correct, resolve_warmest}
use sync.Sync.Rows.{EntryRow, ObjectRow, file, get_object}
use sync.Sync.Gc.{
  StateDb, Vault, referenced, stage_orphans, delete_staged_orphans, stamp_of_snapshot, perform_gc,
  total_size,
}
use sync.Sync.Gc.Laws.{IsIntact, IsKeyed, IsHealthy, collects_exactly, perform_gc-IsHealthy}

abbrev used : ObjectRow
used = record { hash = "h2"; s3_key = "h2"; size = 4; ciphertext_checksum = "crc2" }

abbrev orphan : ObjectRow
orphan = record { hash = "h9"; s3_key = "h9"; size = 6; ciphertext_checksum = "crc9" }

abbrev entries : List EntryRow
entries = record { path = "a"; type = file; hash = some "h2"; state_version = "v1" } ∷ []

abbrev db : StateDb
db = record { entries = entries; objects = used ∷ orphan ∷ []; versions = "v1" ∷ [] }

abbrev vault : Vault
vault = record { current = "v1"; snapshots = ("v1", db) ∷ []; keys = "h2" ∷ "h9" ∷ [] }

abbrev swept : Vault
swept = record {
  current = "v2";
  snapshots =
      ("v1", db)
      ∷ ("v2", record { entries = entries; objects = used ∷ []; versions = "v1" ∷ "v2" ∷ [] })
      ∷ [];
  keys = "h2" ∷ [];
}

db-IsIntact : IsIntact db ("h2" ∷ "h9" ∷ [])
unfolding referenced find
db-IsIntact hash h = (used, ground arith, ground arith)

vault_found : Table.find stamp_of_snapshot "v1" (("v1", db) ∷ []) ≡ some ("v1", db)
unfolding find
vault_found = ground arith

vault-IsHealthy : IsHealthy (λ hash. hash) vault
vault-IsHealthy stamp found_db found =
    subst
      (λ (x : String × StateDb).
        IsIntact x.1 ("h2" ∷ "h9" ∷ []) × IsKeyed (λ hash. hash) x.1.objects)
      (some-injective ("v1", db) (stamp, found_db) (sym vault_found ∙ found))
      (db-IsIntact, (refl, (refl, tt)))

ran :
    perform_gc (λ n. "v2") (λ n v. none) true vault
    ≡ ok (record { orphan_count = 1; reclaimed_bytes = 6; applied = true }, swept)
unfolding perform_gc find upsert remove string_eq option_eq stage_orphans delete_staged_orphans
    referenced total_size
ran = refl

perform_gc-IsHealthy_example : IsHealthy (λ hash. hash) swept
perform_gc-IsHealthy_example =
    perform_gc-IsHealthy (λ hash. hash) (λ a b e. e) (λ n. "v2") (λ n v. none) true vault
      {r = record { orphan_count = 1; reclaimed_bytes = 6; applied = true }} {v' = swept}
      (λ n v v' healthy e. cc) vault-IsHealthy ran

collects_exactly_example :
    get_object "h9"
      (delete_staged_orphans (stage_orphans entries (used ∷ orphan ∷ [])) (used ∷ orphan ∷ []))
    ≡ (if referenced "h9" entries then get_object "h9" (used ∷ orphan ∷ []) else none)
collects_exactly_example = collects_exactly "h9" entries (used ∷ orphan ∷ [])

-- A header that names a copy until 100.
abbrev header : String → Storage.ParsedRestoreHeader
header text = record { ongoing = false; expiry_date = some 100 }

acts_until_correct_example :
    let action =
      Storage.decide_storage_class_action Storage.glacier Storage.standard
        (Storage.classify_archive_status header (some "GLACIER") (some "expiry-date") 7) in
    ((action ≡ Storage.already_correct) ↔ (Storage.glacier ≡ Storage.standard))
    × ((action ≡ Storage.finalize_copy) ↔ ((0 < 1) × IsRestored header (some "expiry-date") 7))
acts_until_correct_example =
    acts_until_correct header Storage.glacier Storage.standard (some "GLACIER") (some "expiry-date")
      7 refl

abbrev cold : Storage.StoragePolicyRow
cold = record { glob = some "old"; target_class = Storage.deep_archive }

abbrev warm : Storage.StoragePolicyRow
warm = record { glob = none; target_class = Storage.standard }

abbrev target : String → Storage.SupportedStorageClass
target path = Storage.evaluate_path_target_class (λ pattern p. pattern == p) path (cold ∷ []) warm

resolve_warmest_example :
    (r : Storage.HashPolicyEvaluation) × (Storage.resolve_hash_target_class
        (λ pattern p. pattern == p)
        ("old" ∷ "new" ∷ [])
        (cold ∷ [])
        warm
      ≡ ok r)
    × All
        (λ path. Storage.coldness_order r.target_class ≤ Storage.coldness_order (target path))
        ("old" ∷ "new" ∷ [])
    × ((path : String) × (contains path ("old" ∷ "new" ∷ []) ≡ true)
        × (target path ≡ r.target_class))
    × ((r.conflicted ≡ false) ↔ All (λ path. target path ≡ r.target_class) ("old" ∷ "new" ∷ []))
resolve_warmest_example =
    resolve_warmest (λ pattern p. pattern == p) "old" ("new" ∷ []) (cold ∷ []) warm
