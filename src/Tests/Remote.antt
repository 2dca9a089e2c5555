-- ===== src/Tests/Remote.antt =====
-- One file that changed in the vault and one that is new there: a download that is throttled once,
-- and a stub.
use sync.Prelude.{
  ℕ, zero, suc, String, true, false, none, some, List, [], ◌∷◌, ◌<>◌, ◌≡◌, refl, contains,
  string_eq, nat_eq, option_eq,
}
use sync.Errors.{ok}
use sync.Fs.Disk.{
  Node, bytes, stub, directory, write, stub_path_for, currently_stub_backed, exists, is_directory,
  rm_sync, mkdir_sync, rename_sync,
}
use sync.Sync.Download.{GetAnswer, broken, decrypted, download_attempt, discard, durable_rename}
use sync.Fs.GlobMatch.{matches_any_glob}
use sync.Prelude.Table.{find, has, upsert, remove}
use native.Mathlib.Decide.{ℕ_discrete}
use sync.Sync.Schedule.{throw_if_pool_errored}
use sync.Sync.MergeJoin.{merge_join}
use sync.S3.Retry.{nothing, error, with_s3_retry, is_transient_s3_error}
use sync.Sync.Rows.{EntryRow, CacheEntryRow, file, unchanged, get_cache, get_entry}
use sync.Sync.ApplyRemote.{
  Arguments, Download, Event, next_path, download_answer, Pass, apply_remote_changes, run_download,
  remote_schedule, remote_turn, apply_step, settle_download,
}
use sync.Sync.ApplyRemote.Course.{Converged}
use sync.Sync.ApplyRemote.Convergence.{cache_converges}
use sync.Tests.Order.{less, less-IsOrder}

abbrev arguments : Arguments
arguments = record {
  absolute = λ path. "/home/" <> path;
  parents = λ path. "/home" ∷ [];
  in_tree_temp_path = λ path n. "/home/.sync1-tmp";
  mtime = λ path. 9;
  is_empty = λ path. true;
  matches = λ pattern path. false;
  ignore_globs = [];
  exclude_paths = [];
  objects =
      record { hash = "h2"; s3_key = "objects/h2"; size = 4; ciphertext_checksum = "crc2" }
      ∷ record { hash = "h3"; s3_key = "objects/h3"; size = 5; ciphertext_checksum = "crc3" }
      ∷ [];
}

abbrev old_row : CacheEntryRow
old_row = record {
  path = "a";
  type = file;
  mtime = some 1;
  hash = some "h1";
  size = some 3;
  state = unchanged;
  parent_state_version = some "v1";
}

abbrev changed : EntryRow
changed = record { path = "a"; type = file; hash = some "h2"; state_version = "v2" }

abbrev added : EntryRow
added = record { path = "b"; type = file; hash = some "h3"; state_version = "v2" }

abbrev folder : List Node
folder =
    record { path = "/home"; content = directory }
    ∷ record { path = "/home/a"; content = bytes "h1" }
    ∷ []

abbrev throttled_once : ℕ → GetAnswer
throttled_once (suc zero) = broken (some "h0") (error (some "SlowDown") none none nothing)
throttled_once _ = decrypted "h2" none

abbrev schedule : List Event
schedule = next_path ∷ next_path ∷ download_answer "a" throttled_once 2 ∷ []

abbrev new_row : String → String → ℕ → CacheEntryRow
new_row path hash size = record {
  path = path;
  type = file;
  mtime = some 9;
  hash = some hash;
  size = some size;
  state = unchanged;
  parent_state_version = some "v2";
}

abbrev end : Pass
end = record {
  steps = [];
  run = record {
    cache = new_row "a" "h2" 4 ∷ new_row "b" "h3" 5 ∷ [];
    disk =
        record { path = "/home"; content = directory }
        ∷ record { path = "/home/a"; content = bytes "h2" }
        ∷ record { path = "/home/b.stub"; content = stub "h3" }
        ∷ [];
    downloads = [];
    stream_error = none;
    created = 1;
    modified = 1;
    deleted = 0;
    ignored_but_synced = [];
  };
}

ran :
    apply_remote_changes arguments less (old_row ∷ []) (changed ∷ added ∷ []) folder schedule
    ≡ ok end
unfolding apply_remote_changes remote_schedule remote_turn merge_join less apply_step find has
    upsert remove with_s3_retry run_download is_transient_s3_error string_eq nat_eq option_eq
    ℕ_discrete throw_if_pool_errored matches_any_glob currently_stub_backed write stub_path_for
    settle_download mkdir_sync rename_sync exists is_directory rm_sync download_attempt discard
    durable_rename
ran = refl

ordered : less "a" "b" ≡ true
unfolding less nat_eq
ordered = refl

cache_converges_example :
    Converged
      (contains "b" arguments.exclude_paths)
      (get_cache "b" (old_row ∷ []))
      (get_entry "b" (changed ∷ added ∷ []))
      (get_cache "b" end.run.cache)
cache_converges_example =
    cache_converges arguments less less-IsOrder (old_row ∷ []) (changed ∷ added ∷ []) folder
      schedule end "b" (tt, tt) ((ordered, tt), (tt, tt)) ran refl refl

abbrev download : Download
download = record { path = "a"; hash = "h2"; size = 4; state_version = "v2" }
