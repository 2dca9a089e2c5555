-- ===== src/Fs/Disk.antt =====
-- The files that the sync passes read and write, by absolute path: real content (by its hash), stubs
-- (by the hash that they declare) and directories. `stubPathFor` is of src/fs/stub.ts. A `write` does
-- not fail here; `mkdir_sync` and `rename_sync` may.
use sync.Prelude.{
  Option, none, some, true, false, if◌then◌else◌, String, ◌<>◌, Bool, not, ◌&&◌, List, [], ◌∷◌,
  string_eq,
}
use sync.Prelude.Table

pub data Content : Type 0 where
  bytes : String → Content
  stub : String → Content
  directory : Content

pub record Node : Type 0 where
  pub path : String
  pub content : Content

abbrev pub node_path : Node → String
node_path n = n.path

unfoldable pub stub_path_for : String → String
stub_path_for path = path <> ".stub"

unfoldable pub exists : String → List Node → Bool
exists path disk = Table.has node_path path disk

unfoldable pub write : String → Content → List Node → List Node
write path content disk = Table.upsert node_path (record { path = path; content = content }) disk

abbrev directory_at : Option Node → Bool
directory_at none = false
directory_at (some n) = elim n.content [ directory ↦ true | _ ↦ false ]

unfoldable pub is_directory : String → List Node → Bool
is_directory path disk = directory_at (Table.find node_path path disk)

-- `mkdirSync(path, { recursive: true })` over the directories down to the path itself: those that are
-- missing are made, and a file on the way ends it with an error code.
abbrev pub mkdir_code : List String → String
mkdir_code [] = "EEXIST"
mkdir_code (p ∷ paths) = "ENOTDIR"

unfoldable pub mkdir_sync : List String → List Node → Option String × List Node
unfolding write
mkdir_sync [] disk = (none, disk)
mkdir_sync (p ∷ paths) disk = elim (Table.find node_path p disk) [
  | none ↦ mkdir_sync paths (write p directory disk)
  | some n ↦ elim n.content [
    | directory ↦ mkdir_sync paths disk
    | _ ↦ (some (mkdir_code paths), disk)
  ]
]

-- `renameSync` of a file, which throws where a directory stands.
abbrev pub rename_found : String → String → Option Node → List Node → Option (List Node)
rename_found source dest none disk = none
rename_found source dest (some n) disk =
    if is_directory dest disk
    then none
    else some (write dest n.content (Table.remove node_path source disk))

unfoldable pub rename_sync : String → String → List Node → Option (List Node)
unfolding is_directory write
rename_sync source dest disk = rename_found source dest (Table.find node_path source disk) disk

-- `rmSync`, which throws at a directory, and `rmdirSync`, which throws at anything else and at a
-- directory that is not empty; their callers ignore what they throw.
unfoldable pub rm_sync : String → List Node → List Node
unfolding is_directory
rm_sync path disk = if is_directory path disk then disk else Table.remove node_path path disk

unfoldable pub rmdir_sync : Bool → String → List Node → List Node
unfolding is_directory
rmdir_sync is_empty path disk =
    if is_directory path disk && is_empty then Table.remove node_path path disk else disk

-- `currentlyStubBacked` of src/sync/apply-remote-changes.ts.
unfoldable pub currently_stub_backed : String → List Node → Bool
unfolding exists stub_path_for
currently_stub_backed path disk = not (exists path disk) && exists (stub_path_for path) disk
