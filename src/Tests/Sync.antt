-- ===== src/Tests/Sync.antt =====
-- A whole sync: the folder has one new file, which is uploaded and committed as version v2.
use native.Mathlib.Decide.{ℕ_discrete}
use sync.Prelude.{
  ℕ, String, true, false, Option, none, some, [], ◌∷◌, ◌<>◌, ◌≡◌, refl, sym, ◌∙◌, string_eq, nat_eq,
  option_eq,
}
use sync.Prelude.Table
use sync.Prelude.Acts.{finished, Post}
use sync.Errors.{ok}
use sync.UpdateCache.{WalkRepresentation}
use sync.UpdateCache.Run as ScanRun
use sync.Sync.Rows.{CacheEntryRow, CacheState, EntryType}
use sync.Sync.Upload.{Attempt, fail}
use sync.Sync.ApplyLocal.{probed}
use sync.Sync.Schedule as Local
use sync.Sync.ApplyRemote as Remote
use sync.S3.Retry.{nothing}
use sync.Sync.CommitPointer.{PointerStore, Turn}
use sync.Sync.Snapshot.{Tables, SnapshotCodec}
use sync.Sync.Commit.Bucket.{Request}
use sync.Sync.Commit.Phases.{Surroundings, folded, apply_local}
use sync.Sync.Commit.{SyncResult, State, Environment, perform_sync}
use sync.Sync.Commit.Held.{has_version}
use sync.Sync.Commit.Keeps.Lift.{IsAligned, IsForeign, Done}
use sync.Sync.Commit.Keeps.{perform_sync-IsAligned}
use mathlib.Core.Option.{none-ne-some}
use sync.Sync.Soundness.Schedules.{IsReferenced}
use sync.Sync.Commit.{sync_candidate}
use sync.Sync.Commit.Phases.Effects.{Nothing, IsListed, AreListed}
use sync.Sync.Commit.Settles.{IsSettled, sync_candidate-IsSettled}
use sync.Tests.Order.{less, less-IsOrder}
use sync.Db.Ordered.{order_by, place}
use sync.Fs.GlobMatch.{matches_any_glob}
use sync.UpdateCache.{scan_step}
use sync.Sync.Dirty.{iterate_dirty, deleted_rows, changed_rows}
use sync.Sync.MergeJoin.{merge_join}
use sync.Sync.Conflict.{decide_local_change}
use sync.Sync.Candidate.{set_handled, write_entry, upsert_object, clear_job}
use sync.Sync.Upload.{
  run_upload_job, finish_job, job_end, with_mirror_retry, commit_job, run_sinks, run_unit,
  write_attached, write_sources,
}
use sync.Sync.ApplyLocal.{
  delete_pass, change_row, collision, collides_with, find_by_normalized_path, open_job,
  apply_change, apply_file, attach, change_checked, change_decided, change_uncollided, claim,
  file_content, new_content, sized_job,
}

abbrev store : PointerStore
store = record {
  State = Option String;
  body = λ s. s;
  etag = λ s. s;
  put = λ s v. some v;
  body-put = λ s v. refl;
  body_of_etag = λ s t e p q. p ∙ sym q;
}

abbrev codec : SnapshotCodec
codec = record {
  Context = ℕ;
  Body = Tables;
  seal = λ c t. ok t;
  open_body = λ b. ok b;
  open-seal = λ c t b e. sym e;
}

abbrev first : Tables
first = record {
  entries = [];
  deletions = [];
  objects = [];
  versions = "v1" ∷ [];
  ignore_globs = [];
}

abbrev start : State store codec
start = record {
  machine = record {
    state_db = first;
    last_synced = "v1";
    marker = false;
    cache = [];
    disk = [];
    candidate = none;
    remote_fresh = none;
  };
  vault = record {
    pointer = record { state = some "v1"; landed = 0 };
    snapshots = ("v1", first) ∷ [];
  };
}

abbrev accepted : ℕ → Attempt
accepted _ = record {
  current_size = 3;
  current_mtime = 7;
  upstream_error = none;
  s3_checksum = some "crc";
  mirror_failure = none;
}

abbrev around : Surroundings
around = record {
  lt = less;
  db_lt = less;
  collision_key = λ path. path;
  object_key = λ hash. "objects/" <> hash;
  absolute = λ path. path;
  parents = λ path. [];
  in_tree_temp_path = λ path n. ".sync1-tmp";
  matches = λ pattern path. false;
  basename_bytes = λ path. 5;
  read_stub_hash = λ path. ok "h0";
  hash_file = λ path. ok "h1";
  mtime = λ path. 7;
  is_empty = λ path. false;
  walk =
      record {
        path = "a.txt";
        type = EntryType.file;
        representation = WalkRepresentation.real;
        mtime = 7;
        size = 3;
      }
      ∷ [];
  mode = fail;
  scan_events = ScanRun.next_entry ∷ ScanRun.hashed "a.txt" ∷ [];
  local_events = Local.next_row (probed false) ∷ Local.upload_answer "h1" accepted ∷ [];
  remote_events = Remote.next_path ∷ [];
}

abbrev quiet : ℕ → Request store codec
quiet n = record { others = []; failure = none; reaches = true }

abbrev replied : ℕ → Turn
replied n = record {
  before = [];
  reaches = true;
  replies = true;
  lost = nothing;
  between = [];
  read_error = none;
}

abbrev environment : Environment store codec
environment = record {
  around = around;
  force_verify_remote = false;
  version_stamp = "v2";
  context = 0;
  current_requests = quiet;
  snapshot_requests = quiet;
  put_requests = quiet;
  others_before_commit = [];
  commit_turns = replied;
  fuel = 3;
}

quiet-IsForeign : IsForeign store codec environment
quiet-IsForeign = record { current = λ n. tt; snapshot = λ n. tt }

unused_stamp : has_version store codec "v2" start.vault ≡ false
unfolding Table.has Table.find string_eq
unused_stamp = refl

start-IsAligned : IsAligned store codec start
unfolding Table.find string_eq
start-IsAligned = (("v1", first), refl, refl)

perform_sync-IsAligned_example :
    Post (Done store codec) (IsAligned store codec) (perform_sync store codec environment start)
perform_sync-IsAligned_example =
    perform_sync-IsAligned store codec environment start quiet-IsForeign unused_stamp
      start-IsAligned

abbrev new_row : CacheEntryRow
new_row = record {
  path = "a.txt";
  type = EntryType.file;
  mtime = some 7;
  hash = some "h1";
  size = some 3;
  state = CacheState.created;
  parent_state_version = some "v1";
}

-- The machine after the scan.
abbrev scanned : State store codec
scanned = record start { machine = record start.machine { cache = new_row ∷ [] } }

abbrev scan_outcome : ScanRun.Updated
scan_outcome = record {
  cache = new_row ∷ [];
  collisions = [];
  pass = record { steps = []; scan = ScanRun.start_scan []; hash_error = none };
}

first-IsReferenced : IsReferenced [] []
unfolding Table.find
first-IsReferenced p e hash h = absurd (none-ne-some e h)

row-IsListed : IsListed around scanned.machine
unfolding order_by place
row-IsListed = (tt, tt)

candidate-AreListed :
    Post
      (λ l m. AreListed around (folded first l))
      Nothing
      (apply_local around "v2" false first
        (iterate_dirty less scanned.machine.cache)
        scanned.machine)
unfolding apply_local iterate_dirty less nat_eq ℕ_discrete option_eq string_eq Table.find Table.has
    Table.remove Table.upsert merge_join order_by place deleted_rows changed_rows delete_pass
    Local.run_schedule Local.turn change_row collision collides_with find_by_normalized_path
    decide_local_change open_job run_upload_job finish_job job_end with_mirror_retry apply_change
    apply_file attach change_checked change_decided change_uncollided claim file_content new_content
    sized_job clear_job set_handled upsert_object write_entry Local.next_turn Local.take_row
    Local.throw_if_pool_errored Local.upload_settled Local.upload_turn commit_job run_sinks run_unit
    write_attached write_sources scan_step matches_any_glob Remote.remote_schedule
    Remote.remote_turn Remote.apply_step
candidate-AreListed = (tt, tt)

sync_candidate-IsSettled_example :
    Post
      (IsSettled store codec scanned.machine)
      Nothing
      (sync_candidate store codec environment false scan_outcome 1 false "v1" "v1" first scanned)
sync_candidate-IsSettled_example =
    sync_candidate-IsSettled store codec environment less-IsOrder less-IsOrder false scan_outcome 1
      false "v1" "v1" first scanned first-IsReferenced (λ e. refl) row-IsListed candidate-AreListed

-- The run returns.
synced :
    (r : SyncResult) × (s : State store codec) × (perform_sync store codec environment start
      ≡ (finished r, s))
unfolding perform_sync less nat_eq ℕ_discrete option_eq string_eq Table.find Table.has Table.remove
    Table.upsert merge_join order_by place deleted_rows changed_rows delete_pass Local.run_schedule
    Local.turn change_row collision collides_with find_by_normalized_path decide_local_change
    open_job run_upload_job finish_job job_end with_mirror_retry apply_change apply_file attach
    change_checked change_decided change_uncollided claim file_content new_content sized_job
    clear_job set_handled upsert_object write_entry Local.next_turn Local.take_row
    Local.throw_if_pool_errored Local.upload_settled Local.upload_turn commit_job run_sinks run_unit
    write_attached write_sources scan_step matches_any_glob Remote.remote_schedule
    Remote.remote_turn Remote.apply_step
synced = (_, _, refl)
