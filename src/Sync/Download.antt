-- ===== src/Sync/Download.antt =====
-- One attempt of a download of src/sync/apply-remote-changes.ts: the temporary file beside the target,
-- and `durableRename` of src/fs/durable.ts.
pub mod Laws
use sync.Prelude.{ℕ, String, Option, none, some, List, ◌==◌, take, if◌then◌else◌, string_eq}
use sync.Fs.Disk.{Node, bytes, write, exists, rm_sync, mkdir_sync, rename_sync}
use sync.S3.Retry.{ErrorChain, nothing, error, Attempted, returned, rejected}

-- What one attempt of a download meets: the GET fails; the object is missing; `mkdirSync` fails, other
-- than for a file on the way, after it has made some directories; the stream or the temporary file
-- fails, or the decryption is refused, with what the temporary file holds by then, if there is one; or
-- it decrypts to content of some hash, and `durableRename` may fail, other than for a directory in
-- the way.
pub data GetAnswer : Type 0 where
  failed : ErrorChain → GetAnswer
  missing : GetAnswer
  unmade : ℕ → ErrorChain → GetAnswer
  broken : Option String → ErrorChain → GetAnswer
  refused : Option String → GetAnswer
  decrypted : String → Option ErrorChain → GetAnswer

abbrev pub corruption_error : ErrorChain
corruption_error = error (some "CorruptionError") none none nothing

abbrev pub fs_error : String → ErrorChain
fs_error code = error (some "Error") (some code) none nothing

abbrev pub after_mkdir :
    Option String × List Node
    → (List Node → Attempted (Unit {0}) × List Node)
    → Attempted (Unit {0}) × List Node
after_mkdir (none, disk) go_on = go_on disk
after_mkdir (some code, disk) go_on = (rejected (fs_error code), disk)

abbrev pub partly_written : String → Option String → List Node → List Node
partly_written tmp_path none disk = disk
partly_written tmp_path (some hash) disk = write tmp_path (bytes hash) disk

-- `if (fs.existsSync(tmpPath)) fs.rmSync(tmpPath)`
unfoldable pub discard : String → List Node → List Node
unfolding rm_sync exists
discard tmp_path disk = if exists tmp_path disk then rm_sync tmp_path disk else disk

abbrev pub renamed : Option (List Node) → List Node → Attempted (Unit {0}) × List Node
renamed none disk = (rejected (fs_error "EISDIR"), disk)
renamed (some disk') disk = (returned tt, disk')

-- `durableRename`. What fails in it before the file is renamed leaves the temporary file, since it is
-- called outside the `try`; the sync of the directory after it never throws.
unfoldable pub durable_rename :
    String → String → Option ErrorChain → List Node → Attempted (Unit {0}) × List Node
unfolding rename_sync
durable_rename tmp_path dest_path (some e) disk = (rejected e, disk)
durable_rename tmp_path dest_path none disk = renamed (rename_sync tmp_path dest_path disk) disk

-- The operation that `withS3Retry` repeats.
unfoldable pub download_attempt :
    String
    → List String
    → String
    → String
    → GetAnswer
    → List Node
    → Attempted (Unit {0}) × List Node
unfolding mkdir_sync discard durable_rename write rm_sync
download_attempt absolute_path parents tmp_path hash (failed e) disk = (rejected e, disk)
download_attempt absolute_path parents tmp_path hash missing disk =
    (rejected corruption_error, disk)
download_attempt absolute_path parents tmp_path hash (unmade n e) disk =
    after_mkdir (mkdir_sync (take n parents) disk) λ disk'. (rejected e, disk')
download_attempt absolute_path parents tmp_path hash (broken written e) disk =
    after_mkdir (mkdir_sync parents disk)
      λ disk'. (rejected e, discard tmp_path (partly_written tmp_path written disk'))
download_attempt absolute_path parents tmp_path hash (refused written) disk =
    after_mkdir (mkdir_sync parents disk)
      λ disk'. (rejected corruption_error, discard tmp_path (partly_written tmp_path written disk'))
download_attempt absolute_path parents tmp_path hash (decrypted computed_hash failure) disk =
    after_mkdir (mkdir_sync parents disk) λ disk'.
      let written = write tmp_path (bytes computed_hash) disk' in
      if computed_hash == hash
      then durable_rename tmp_path absolute_path failure written
      else (rejected corruption_error, rm_sync tmp_path written)
