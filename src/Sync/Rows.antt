-- ===== src/Sync/Rows.antt =====
-- The rows of the two databases (src/db/repositories/): `entries`, `entry_deletions` and `objects`
-- of state.db, and `entries` of cache.db. A table is a list of rows under its primary key.
-- A nullable column is an `Option`.
use sync.Prelude.{ℕ, String, Bool, true, false, Option, List, string_eq}
use sync.Prelude.Table

pub data EntryType : Type 0 where
  file dir : EntryType

abbrev pub is_file : EntryType → Bool
is_file file = true
is_file dir = false

pub record EntryRow : Type 0 where
  pub path : String
  pub type : EntryType
  pub hash : Option String
  pub state_version : String

pub record EntryDeletionRow : Type 0 where
  pub path : String
  pub type : EntryType
  pub hash : Option String
  pub introduced_in_version : String
  pub deleted_in_version : String

pub data CacheState : Type 0 where
  created modified deleted unchanged : CacheState

pub record CacheEntryRow : Type 0 where
  pub path : String
  pub type : EntryType
  pub mtime : Option ℕ
  pub hash : Option String
  pub size : Option ℕ
  pub state : CacheState
  pub parent_state_version : Option String

pub record ObjectRow : Type 0 where
  pub hash : String
  pub s3_key : String
  pub size : ℕ
  pub ciphertext_checksum : String

abbrev pub entry_path : EntryRow → String
entry_path e = e.path

abbrev pub cache_path : CacheEntryRow → String
cache_path r = r.path

abbrev pub object_hash : ObjectRow → String
object_hash o = o.hash

-- `EntriesRepository.get`, `CacheEntriesRepository.get`, `ObjectsRepository.get` and `has`.
abbrev pub get_entry : String → List EntryRow → Option EntryRow
get_entry = Table.find entry_path

abbrev pub get_cache : String → List CacheEntryRow → Option CacheEntryRow
get_cache = Table.find cache_path

abbrev pub get_object : String → List ObjectRow → Option ObjectRow
get_object = Table.find object_hash

abbrev pub has_object : String → List ObjectRow → Bool
has_object = Table.has object_hash
