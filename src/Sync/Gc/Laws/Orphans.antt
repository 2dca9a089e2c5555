-- ===== src/Sync/Gc/Laws/Orphans.antt =====
-- The deletion of staged orphans from the rows of a version and from the keys of the bucket.
use sync.Prelude.{
  String, true, false, none, List, [], ◌∷◌, ◌≡◌, refl, ◌∙◌, ◌==◌, All, contains, map, arith,
  string_eq, option_eq, if◌then◌else◌,
}
use sync.Prelude.Table
use sync.Prelude.Table.{find, remove, find-upsert, key-find}
use sync.Sync.Rows.{EntryRow, ObjectRow, object_hash, get_object}
use sync.Sync.Gc.{referenced, stage_orphans, delete_staged_orphans, delete_keys}

pub contains-remove :
    (k j : String) (keys : List String)
    → (j == k) ≡ false
    → contains k (Table.remove (λ x. x) j keys) ≡ contains k keys
unfolding remove
contains-remove k j [] other = refl
contains-remove k j (x ∷ keys) other = ground (arith, contains-remove k j keys other)

pub delete_keys-other :
    (k : String) (staged : List ObjectRow) (keys : List String)
    → All (λ o. (o.s3_key == k) ≡ false) staged
    → contains k (delete_keys staged keys) ≡ contains k keys
unfolding delete_keys
delete_keys-other k [] keys all = refl
delete_keys-other k (o ∷ staged) keys (other, all) =
    contains-remove k o.s3_key (delete_keys staged keys) other ∙ delete_keys-other k staged keys all

pub delete_staged_orphans-other :
    (hash : String) (staged objects : List ObjectRow)
    → contains hash (map object_hash staged) ≡ false
    → get_object hash (delete_staged_orphans staged objects) ≡ get_object hash objects
unfolding delete_staged_orphans find
delete_staged_orphans-other hash staged [] kept = refl
delete_staged_orphans-other hash staged (o ∷ objects) kept =
    ground (arith, delete_staged_orphans-other hash staged objects kept)

pub stage_orphans-other :
    (hash : String) (entries : List EntryRow) (objects : List ObjectRow)
    → referenced hash entries ≡ true
    → contains hash (map object_hash (stage_orphans entries objects)) ≡ false
unfolding stage_orphans
stage_orphans-other hash entries [] h = refl
stage_orphans-other hash entries (o ∷ objects) h =
    ground (arith, stage_orphans-other hash entries objects h)

pub delete_staged_orphans-find :
    (hash : String) (staged objects : List ObjectRow)
    → get_object hash (delete_staged_orphans staged objects)
      ≡ (if contains hash (map object_hash staged) then none else get_object hash objects)
unfolding delete_staged_orphans find
delete_staged_orphans-find hash staged [] = ground arith
delete_staged_orphans-find hash staged (o ∷ objects) =
    ground (arith, delete_staged_orphans-find hash staged objects)

pub stage_orphans-contains :
    (hash : String) (entries : List EntryRow) (objects : List ObjectRow)
    → referenced hash entries ≡ false
    → contains hash (map object_hash (stage_orphans entries objects))
      ≡ contains hash (map object_hash objects)
unfolding stage_orphans
stage_orphans-contains hash entries [] h = refl
stage_orphans-contains hash entries (o ∷ objects) h =
    ground (arith, stage_orphans-contains hash entries objects h)

pub find_of_absent :
    (hash : String) (objects : List ObjectRow)
    → contains hash (map object_hash objects) ≡ false
    → get_object hash objects ≡ none
unfolding find
find_of_absent hash [] h = refl
find_of_absent hash (o ∷ objects) h = ground (arith, find_of_absent hash objects)
