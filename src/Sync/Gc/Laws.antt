-- ===== src/Sync/Gc/Laws.antt =====
-- Garbage collection keeps what the current version names.
pub mod Orphans
use mathlib.Core.Path.{subst}
use mathlib.Core.Option.{some-injective}
use sync.Prelude.{
  ℕ, zero, suc, String, Bool, true, false, Option, none, some, List, [], ◌∷◌, ◌≡◌, refl, sym, ◌∙◌,
  ◌==◌, ==-refl, All, contains, map, arith, inl, inr, Bool-cases, string_eq, option_eq,
  if◌then◌else◌,
}
use sync.Prelude.Table
use sync.Prelude.Table.{find, remove, find-upsert, key-find}
use sync.Errors.{ok}
use sync.Sync.Rows.{EntryRow, ObjectRow, object_hash, get_object}
use sync.Sync.Soundness.Rows.{Returns, Returns-bind, of_Returns}
use sync.Sync.Gc.{
  StateDb, referenced, stage_orphans, delete_staged_orphans, Vault, stamp_of_snapshot, GcResult,
  delete_keys, collected, commit_collection, gc_staged, gc_attempt, gc_continue, gc_loop,
  perform_gc, max_cas_attempts,
}
use sync.Sync.Gc.Laws.Orphans.{
  contains-remove, delete_keys-other, delete_staged_orphans-other, stage_orphans-other,
  delete_staged_orphans-find, stage_orphans-contains, find_of_absent,
}

-- Every content that an entry names has its object's row, and the bucket holds the object.
abbrev pub IsIntact : StateDb → List String → Type 0
IsIntact db keys =
    (hash : String)
    → referenced hash db.entries ≡ true
    → (o : ObjectRow) × (get_object hash db.objects ≡ some o) × (contains o.s3_key keys ≡ true)

module _ (object_key : String → String) where
  -- Keys are given by content.
  abbrev pub IsKeyed : List ObjectRow → Type 0
  IsKeyed = All (λ o. o.s3_key ≡ object_key o.hash)

  -- The current version of a vault is intact and keyed by content.
  abbrev pub IsHealthy : Vault → Type 0
  IsHealthy v =
      (stamp : String) (db : StateDb)
      → Table.find stamp_of_snapshot v.current v.snapshots ≡ some (stamp, db)
      → IsIntact db v.keys × IsKeyed db.objects

-- A collection takes out exactly the orphans: an object that some entry names keeps its row, and no
-- other object has one.
pub collects_exactly :
    (hash : String) (entries : List EntryRow) (objects : List ObjectRow)
    → get_object hash (delete_staged_orphans (stage_orphans entries objects) objects)
      ≡ (if referenced hash entries then get_object hash objects else none)
collects_exactly hash entries objects = elim (Bool-cases (referenced hash entries)) [
  | inl named ↦ rw named (
      delete_staged_orphans-other hash (stage_orphans entries objects) objects
        (stage_orphans-other hash entries objects named))
  | inr orphan ↦ rw orphan (
      ground (
        arith,
        delete_staged_orphans-find hash (stage_orphans entries objects) objects,
        stage_orphans-contains hash entries objects orphan,
        find_of_absent hash objects,
      ))
]

module _ (object_key : String → String)
    (injective : (a b : String) → object_key a ≡ object_key b → a ≡ b) where
  s3_key_of_keyed :
      (hash : String) (objects : List ObjectRow) (o : ObjectRow)
      → IsKeyed object_key objects
      → get_object hash objects ≡ some o
      → o.s3_key ≡ object_key hash
  unfolding find
  s3_key_of_keyed hash [] o keyed h = cc
  s3_key_of_keyed hash (x ∷ objects) o (k, keyed) h =
      ground (arith, s3_key_of_keyed hash objects o keyed)

  s3_key-staged :
      (hash : String) (entries : List EntryRow) (objects : List ObjectRow)
      → referenced hash entries ≡ true
      → IsKeyed object_key objects
      → All (λ o. (o.s3_key == object_key hash) ≡ false) (stage_orphans entries objects)
  unfolding stage_orphans
  s3_key-staged hash entries [] h keyed = tt
  s3_key-staged hash entries (o ∷ objects) h (k, keyed) =
      elim (Bool-cases (referenced o.hash entries)) [
        | inl r ↦ rw r (s3_key-staged hash entries objects h keyed)
        | inr r ↦ rw r (
          ground (arith, injective o.hash hash, k, h, r),
          s3_key-staged hash entries objects h keyed,
        )
      ]

  IsKeyed-deleted :
      (staged objects : List ObjectRow)
      → IsKeyed object_key objects
      → IsKeyed object_key (delete_staged_orphans staged objects)
  unfolding delete_staged_orphans
  IsKeyed-deleted staged [] keyed = tt
  IsKeyed-deleted staged (o ∷ objects) (k, keyed) =
      elim (Bool-cases (contains o.hash (map object_hash staged))) [
        | inl c ↦ rw c (IsKeyed-deleted staged objects keyed)
        | inr c ↦ rw c (k, IsKeyed-deleted staged objects keyed)
      ]

  collected-IsIntact :
      (stamp : String) (db : StateDb) (keys : List String)
      → IsIntact db keys
      → IsKeyed object_key db.objects
      → IsIntact
          (collected stamp db (stage_orphans db.entries db.objects))
          (delete_keys (stage_orphans db.entries db.objects) keys)
  unfolding collected
  collected-IsIntact stamp db keys intact keyed hash h =
      let (o, found, held) = intact hash h in
      let staged = stage_orphans db.entries db.objects in
      let key : o.s3_key ≡ object_key hash = s3_key_of_keyed hash db.objects o keyed found in
      (
        o,
        delete_staged_orphans-other hash staged db.objects
              (stage_orphans-other hash db.entries db.objects h)
            ∙ found,
        delete_keys-other o.s3_key staged keys
              (rw key (s3_key-staged hash db.entries db.objects h keyed))
            ∙ held,
      )

  commit_collection-IsHealthy :
      (stamp : String) (db : StateDb) (staged : List ObjectRow) (v : Vault)
      → stage_orphans db.entries db.objects ≡ staged
      → IsIntact db v.keys
      → IsKeyed object_key db.objects
      → IsHealthy object_key (commit_collection stamp db staged v)
  unfolding commit_collection
  commit_collection-IsHealthy stamp db staged v e intact keyed s db' found =
      let hit : Table.find stamp_of_snapshot stamp
            (Table.upsert stamp_of_snapshot (stamp, collected stamp db staged) v.snapshots)
          ≡ some (stamp, collected stamp db staged) =
        rw (find-upsert, ==-refl stamp) in
      let same : (stamp, collected stamp db staged) ≡ (s, db') =
        some-injective (stamp, collected stamp db staged) (s, db') (sym hit ∙ found) in
      let whole : IsIntact (collected stamp db staged) (delete_keys staged v.keys) =
        subst (λ t. IsIntact (collected stamp db t) (delete_keys t v.keys)) e
          (collected-IsIntact stamp db v.keys intact keyed) in
      let keys : IsKeyed object_key (collected stamp db staged).objects =
        unfold collected in IsKeyed-deleted staged db.objects keyed in
      (
        subst (λ (x : String × StateDb). IsIntact x.1 (delete_keys staged v.keys)) same whole,
        subst (λ (x : String × StateDb). IsKeyed object_key x.1.objects) same keys,
      )

  -- A rival's commit leaves a vault whose current version is intact.
  abbrev pub RivalsHealthy : (ℕ → Vault → Option Vault) → Type 0
  RivalsHealthy rivals =
      (n : ℕ) (v v' : Vault)
      → IsHealthy object_key v
      → rivals n v ≡ some v'
      → IsHealthy object_key v'

  gc_staged-IsHealthy :
      (stamp : String) (rival : Option Vault) (db : StateDb) (staged : List ObjectRow) (v : Vault)
      → stage_orphans db.entries db.objects ≡ staged
      → IsHealthy object_key v
      → IsIntact db v.keys
      → IsKeyed object_key db.objects
      → ((v' : Vault) → rival ≡ some v' → IsHealthy object_key v')
      → IsHealthy object_key (gc_staged stamp rival db staged v).1
  unfolding gc_staged
  gc_staged-IsHealthy stamp rival db [] v e healthy intact keyed safe = healthy
  gc_staged-IsHealthy stamp none db (o ∷ staged) v e healthy intact keyed safe =
      commit_collection-IsHealthy stamp db (o ∷ staged) v e intact keyed
  gc_staged-IsHealthy stamp (some v') db (o ∷ staged) v e healthy intact keyed safe = safe v' refl

  gc_attempt-IsHealthy :
      (stamp : String) (rival : Option Vault) (apply : Bool) (snapshot : Option (String × StateDb))
      (v : Vault)
      → Table.find stamp_of_snapshot v.current v.snapshots ≡ snapshot
      → IsHealthy object_key v
      → ((v' : Vault) → rival ≡ some v' → IsHealthy object_key v')
      → Returns (gc_attempt stamp rival apply snapshot v) (λ (r, v'). IsHealthy object_key v')
  unfolding gc_attempt
  gc_attempt-IsHealthy stamp rival apply none v found healthy safe = tt
  gc_attempt-IsHealthy stamp rival false (some (s, db)) v found healthy safe = healthy
  gc_attempt-IsHealthy stamp rival true (some (s, db)) v found healthy safe =
      let (intact, keyed) = healthy s db found in
      gc_staged-IsHealthy stamp rival db (stage_orphans db.entries db.objects) v refl healthy intact
        keyed safe

  gc_loop-IsHealthy :
      (stamps : ℕ → String) (rivals : ℕ → Vault → Option Vault) (apply : Bool) (left : ℕ)
      (v : Vault)
      → RivalsHealthy rivals
      → IsHealthy object_key v
      → Returns (gc_loop stamps rivals apply left v) (λ (r, v'). IsHealthy object_key v')
  unfolding gc_loop
  gc_loop-IsHealthy stamps rivals apply zero v safe healthy = tt
  gc_loop-IsHealthy stamps rivals apply (suc left) v safe healthy =
      Returns-bind (λ (x : Option GcResult × Vault). IsHealthy object_key x.1) _ _ _
        (gc_attempt-IsHealthy (stamps left) (rivals left v) apply _ v refl healthy
          (λ v' e. safe left v v' healthy e))
        (λ x h. continue (λ v' h'. gc_loop-IsHealthy stamps rivals apply left v' safe h') x h)
    where
      continue :
          ((v' : Vault)
            → IsHealthy object_key v'
            → Returns (gc_loop stamps rivals apply left v') (λ (r, v''). IsHealthy object_key v''))
          → (x : Option GcResult × Vault) → IsHealthy object_key x.1
          → Returns
              (gc_continue (gc_loop stamps rivals apply left) x)
              (λ (r, v''). IsHealthy object_key v'')
      continue again (some r, v') h = unfold gc_continue in h
      continue again (none, v') h = unfold gc_continue in again v' h

-- Garbage collection takes nothing that is still named: if every content that the current version's
-- entries name has its row and its object in the bucket, under a key of its own, and rivals that
-- commit between its attempts keep that so, then it holds of the vault that a run leaves.
pub perform_gc-IsHealthy :
    (object_key : String → String)
    (injective : (a b : String) → object_key a ≡ object_key b → a ≡ b) (stamps : ℕ → String)
    (rivals : ℕ → Vault → Option Vault) (apply : Bool) (v : Vault) {r : GcResult} {v' : Vault}
    → RivalsHealthy object_key injective rivals
    → IsHealthy object_key v
    → perform_gc stamps rivals apply v ≡ ok (r, v')
    → IsHealthy object_key v'
unfolding perform_gc
perform_gc-IsHealthy object_key injective stamps rivals apply v safe healthy ran =
    of_Returns (λ (x : GcResult × Vault). IsHealthy object_key x.1) _
      (gc_loop-IsHealthy object_key injective stamps rivals apply max_cas_attempts v safe healthy)
      ran
