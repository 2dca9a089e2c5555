-- ===== src/Tests/Local.antt =====
-- The sync of one new file, from the dirty row to the reconciled cache.
use mathlib.Core.Option.{none-ne-some}
use native.Mathlib.Decide.{ℕ_discrete}
use sync.Prelude.{
  ℕ, true, false, none, some, List, [], ◌∷◌, ◌<>◌, ◌≡◌, ◌↔◌, refl, inl, map, contains, All,
  string_eq, nat_eq, option_eq,
}
use sync.Prelude.Table
use sync.Prelude.Table.{find, has, upsert, remove}
use sync.Errors.{ok}
use sync.Sync.Rows.{
  CacheEntryRow, file, created, modified, unchanged, get_entry, get_cache, cache_path,
}
use sync.Sync.Candidate.{handled_path, set_handled, write_entry, upsert_object, clear_job}
use sync.Sync.Conflict.{decide_local_change, apply, noop}
use sync.Sync.Conflict.Laws.{
  AtBaseline, Reconciled, applied_entry, decide_apply, decide_noop, decide_replay,
}
use sync.Sync.Upload.{
  Attempt, fail, run_upload_job, finish_job, job_end, with_mirror_retry, commit_job, run_sinks,
  run_unit, write_attached, write_sources,
}
use sync.Sync.ApplyLocal.{
  probed, delete_pass, change_row, collision, collides_with, find_by_normalized_path, open_job,
  apply_change, apply_file, attach, change_checked, change_decided, change_uncollided, claim,
  file_content, new_content, sized_job,
}
use sync.Sync.Schedule.{
  run_schedule, turn, next_turn, take_row, throw_if_pool_errored, upload_settled, upload_turn,
  Event, next_row, upload_answer, Settings, Candidate, Loop, apply_local_changes,
}
use sync.Sync.Accounting.{resolved}
use sync.Sync.Accounting.Schedules.{no_row_lost}
use sync.Sync.Soundness.Jobs.{Sound}
use sync.Sync.Soundness.Rows.{Returns}
use sync.Sync.Soundness.Schedules.{IsReferenced, apply_local_changes-Sound}
use sync.Sync.Reconcile.{filter_by_path, reconcile_cache_after_commit}
use sync.Sync.Reconcile.Laws.{AtRow, reconcile_each}
use sync.Sync.FastForward.{next_change_applies}

abbrev settings : Settings
settings = record {
  collision_key = λ path. path;
  object_key = λ hash. "objects/" <> hash;
  version_stamp = "v2";
  verify_remote = false;
  mode = fail;
}

abbrev new_file : CacheEntryRow
new_file = record {
  path = "a.txt";
  type = file;
  mtime = some 7;
  hash = some "h1";
  size = some 3;
  state = created;
  parent_state_version = none;
}

abbrev accepted : ℕ → Attempt
accepted _ = record {
  current_size = 3;
  current_mtime = 7;
  upstream_error = none;
  s3_checksum = some "crc";
  mirror_failure = none;
}

abbrev empty_vault : Candidate
empty_vault = ([], [], [], "v1" ∷ [])

abbrev schedule : List Event
schedule = next_row (probed false) ∷ upload_answer "h1" accepted ∷ []

-- The loop at the end of the run.
abbrev end : Loop
end = record {
  rows = [];
  run = record {
    entries = record { path = "a.txt"; type = file; hash = some "h1"; state_version = "v2" } ∷ [];
    deletions = [];
    objects =
        record { hash = "h1"; s3_key = "objects/h1"; size = 3; ciphertext_checksum = "crc" } ∷ [];
    versions = "v1" ∷ "v2" ∷ [];
    in_flight_by_hash = [];
    in_flight_by_normalized_path = record { normalized = "a.txt"; path = "a.txt" } ∷ [];
    uploaded_objects = 1;
    mirrored_objects = 0;
    mirror_failures = 0;
    deduped_objects = 0;
    applied_count = 1;
    handled_paths = record { path = "a.txt"; stamp = some "v2" } ∷ [];
    conflicts = [];
    failed = [];
    metadata_error = none;
    stream_error = none;
  };
}

ran : apply_local_changes settings empty_vault (new_file ∷ []) schedule ≡ ok end
unfolding apply_local_changes string_eq delete_pass run_schedule turn change_row collision
    collides_with find_by_normalized_path find decide_local_change has open_job upsert
    run_upload_job finish_job job_end with_mirror_retry nat_eq ℕ_discrete option_eq remove
    apply_change apply_file attach change_checked change_decided change_uncollided claim
    file_content new_content sized_job clear_job set_handled upsert_object write_entry next_turn
    take_row throw_if_pool_errored upload_settled upload_turn commit_job run_sinks run_unit
    write_attached write_sources
ran = refl

new_file_due : contains "a.txt" (map cache_path (new_file ∷ [])) ≡ true
unfolding string_eq
new_file_due = refl

no_row_lost_example : resolved "a.txt" end.run ≡ true
no_row_lost_example =
    no_row_lost settings empty_vault (new_file ∷ []) schedule {l = end} "a.txt" ran refl refl
      new_file_due

empty_vault-IsReferenced : IsReferenced [] []
unfolding find
empty_vault-IsReferenced p e hash h = absurd (none-ne-some e h)

apply_local_changes-Sound_example :
    Returns
      (apply_local_changes settings empty_vault (new_file ∷ []) schedule)
      (λ l. Sound [] l.run)
apply_local_changes-Sound_example =
    apply_local_changes-Sound settings empty_vault (new_file ∷ []) schedule empty_vault-IsReferenced

abbrev cache : List CacheEntryRow
cache = new_file ∷ []

abbrev clean_file : CacheEntryRow
clean_file = record new_file { state = unchanged; parent_state_version = some "v2" }

abbrev edited : CacheEntryRow
edited = record clean_file { state = modified; hash = some "h2" }

reconciled :
    reconcile_cache_after_commit
      (filter_by_path cache end.run.handled_paths)
      end.run.handled_paths
      cache
    ≡ ok (clean_file ∷ [])
unfolding reconcile_cache_after_commit filter_by_path string_eq has find upsert
reconciled = refl

file_handled : Table.has handled_path "a.txt" end.run.handled_paths ≡ true
unfolding has string_eq find
file_handled = refl

clean_file_found : get_cache "a.txt" (clean_file ∷ []) ≡ some clean_file
unfolding find string_eq
clean_file_found = refl

next_change_applies_example :
    decide_local_change edited (get_entry "a.txt" end.run.entries) ≡ ok apply
next_change_applies_example =
    next_change_applies settings empty_vault cache schedule end cache (clean_file ∷ []) "a.txt"
      clean_file edited empty_vault-IsReferenced (refl, tt) ran reconciled new_file_due file_handled
      clean_file_found refl (inl refl)

reconcile_each_example :
    Returns
      (reconcile_cache_after_commit cache end.run.handled_paths cache)
      (λ cache'. All (λ row. AtRow row end.run.handled_paths cache') cache)
reconcile_each_example = reconcile_each cache end.run.handled_paths cache (refl, tt)

decide_apply_example :
    (decide_local_change edited (get_entry "a.txt" end.run.entries) ≡ ok apply)
    ↔ AtBaseline edited modified (get_entry "a.txt" end.run.entries)
decide_apply_example = decide_apply edited (get_entry "a.txt" end.run.entries)

decide_noop_example :
    (decide_local_change new_file (get_entry "a.txt" end.run.entries) ≡ ok noop)
    ↔ Reconciled new_file created (get_entry "a.txt" end.run.entries)
decide_noop_example = decide_noop new_file (get_entry "a.txt" end.run.entries)

decide_replay_example : decide_local_change new_file (applied_entry new_file "v2" created) ≡ ok noop
decide_replay_example = decide_replay new_file "v2" (λ e. cc) (none-ne-some "v2") (λ e. cc)
