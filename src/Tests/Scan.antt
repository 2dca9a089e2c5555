-- ===== src/Tests/Scan.antt =====
-- A folder in which one file was edited and one is new, whose hashes come in the other order.
use native.Mathlib.Decide.{ℕ_discrete}
use sync.Prelude.{
  ℕ, String, true, false, Option, none, some, List, [], ◌∷◌, map, ◌≡◌, refl, All, contains,
  string_eq, nat_eq, option_eq, arith,
}
use sync.Prelude.Table.{find, has, upsert, remove}
use sync.Errors.{ok}
use sync.Fs.GlobMatch.{matches_any_glob}
use sync.Sync.Rows.{EntryType, CacheState, CacheEntryRow, get_cache}
use sync.Sync.MergeJoin.{Step, merge_join}
use sync.Sync.MergeJoin.Laws.{join}
use sync.UpdateCache.{
  is_ignored, WalkEntry, WalkRepresentation, walk_path, Arguments, Scan, UpdateCacheStats,
  scan_step, is_created, assert_stubbable_real_file, is_both, classify_content, changed_row,
  created_row,
}
use sync.UpdateCache.Collisions.{collision_path}
use sync.UpdateCache.Collisions.Free.{IsCollisionFree, update_cache-IsCollisionFree}
use sync.UpdateCache.Collisions.Real.{IsCollision, update_cache-IsCollision}
use sync.UpdateCache.Expected.{expected}
use sync.UpdateCache.Run.{Event, next_entry, hashed, Pass, Updated, perform_update_cache}
use sync.UpdateCache.Outcome.{IsOutcome, update_cache_lem}
use sync.UpdateCache.Baseline.{KeepsBase, expected-KeepsBase}
use sync.UpdateCache.Completion.Steps.{Succeeds}
use sync.UpdateCache.Completion.{update_cache_completes}
use sync.Tests.Order.{less, less-IsOrder}

abbrev folder : Arguments
folder = record {
  basename_bytes = λ path. 1;
  read_stub_hash = λ path. ok "h0";
  hash_file = λ path. ok "h2";
  matches = λ pattern path. false;
  ignore_globs = [];
  objects = [];
  last_synced_version = "v1";
}

abbrev row : String → ℕ → String → CacheState → Option String → CacheEntryRow
row path mtime hash state version = record {
  path = path;
  type = EntryType.file;
  mtime = some mtime;
  hash = some hash;
  size = some 7;
  state = state;
  parent_state_version = version;
}

abbrev found : String → WalkEntry
found path = record {
  path = path;
  type = EntryType.file;
  representation = WalkRepresentation.real;
  mtime = 2;
  size = 7;
}

abbrev old : List CacheEntryRow
old = ◌∷◌ (row "a" 1 "h1" CacheState.unchanged (some "v0")) []

abbrev walk : List WalkEntry
walk = ◌∷◌ (found "a") (◌∷◌ (found "b") [])

abbrev schedule : List Event
schedule = ◌∷◌ next_entry (◌∷◌ next_entry (◌∷◌ (hashed "b") (◌∷◌ (hashed "a") [])))

abbrev new_a : CacheEntryRow
new_a = row "a" 2 "h2" CacheState.modified (some "v0")

abbrev new_b : CacheEntryRow
new_b = row "b" 2 "h2" CacheState.created (some "v1")

abbrev counts : UpdateCacheStats
counts = record {
  created = 1;
  modified = 1;
  deleted = 0;
  unchanged = 0;
  ignored = 0;
  dropped_ignored = [];
}

abbrev last_scan : Scan
last_scan = record {
  cache = old;
  staged = ◌∷◌ new_b (◌∷◌ new_a []);
  jobs = [];
  removed_stubs = [];
  stats = counts;
}

abbrev last_pass : Pass
last_pass = record { steps = []; scan = last_scan; hash_error = none }

abbrev updated : Updated
updated = record { cache = ◌∷◌ new_a (◌∷◌ new_b []); collisions = []; pass = last_pass }

runs : perform_update_cache folder (λ path. path) less old walk schedule ≡ ok updated
unfolding perform_update_cache merge_join less scan_step matches_any_glob find has upsert remove
    string_eq nat_eq option_eq ℕ_discrete
runs = refl

ordered : less "a" "b" ≡ true
unfolding less nat_eq ℕ_discrete
ordered = refl

update_cache_lem_example :
    IsOutcome folder
      (contains "a" (map collision_path updated.collisions))
      (join walk_path (get_cache "a" old) (find walk_path "a" walk))
      (get_cache "a" old)
      (get_cache "a" updated.cache)
update_cache_lem_example =
    update_cache_lem folder (λ path. path) less less-IsOrder old walk schedule updated "a" (tt, tt)
      ((ordered, tt), (tt, tt)) runs refl refl

keeps :
    expected folder (Step.both (row "a" 1 "h1" CacheState.unchanged (some "v0")) (found "a"))
    ≡ ok (some new_a)
unfolding expected matches_any_glob string_eq nat_eq option_eq ℕ_discrete is_created
    assert_stubbable_real_file is_both classify_content changed_row
keeps = refl

expected-KeepsBase_example : KeepsBase (row "a" 1 "h1" CacheState.unchanged (some "v0")) new_a
expected-KeepsBase_example =
    expected-KeepsBase folder (row "a" 1 "h1" CacheState.unchanged (some "v0")) new_a (found "a")
      keeps

new_file : expected folder (Step.remote_only (found "b")) ≡ ok (some new_b)
unfolding expected is_ignored matches_any_glob string_eq nat_eq option_eq ℕ_discrete
    assert_stubbable_real_file classify_content created_row
new_file = refl

All-expected : All (λ x. Succeeds (expected folder x)) (merge_join walk_path less old walk)
unfolding merge_join less nat_eq ℕ_discrete
All-expected = ((some new_a, keeps), ((some new_b, new_file), tt))

update_cache_completes_example :
    (events : List Event) × (u : Updated) × (perform_update_cache folder
        (λ path. path)
        less
        old
        walk
        events
      ≡ ok u)
    × (u.pass.steps ≡ [])
    × (u.pass.scan.jobs ≡ [])
update_cache_completes_example =
    update_cache_completes folder (λ path. path) less less-IsOrder old walk (tt, tt)
      ((ordered, tt), (tt, tt)) All-expected

-- A file system without case: both names have one collision key, and both changes wait.
abbrev clash : Updated
clash = record {
  cache = old;
  collisions =
      ◌∷◌ (record { path = "b"; collides_with = "a" })
        (◌∷◌ (record { path = "a"; collides_with = "b" }) []);
  pass = last_pass;
}

clashes : perform_update_cache folder (λ path. "k") less old walk schedule ≡ ok clash
unfolding perform_update_cache merge_join less scan_step matches_any_glob find has upsert remove
    string_eq nat_eq option_eq ℕ_discrete
clashes = refl

old-IsCollisionFree : IsCollisionFree (λ path. "k") old
unfolding find
old-IsCollisionFree p q r t at_p at_q live live' key = ground arith

update_cache-IsCollisionFree_example : IsCollisionFree (λ path. "k") clash.cache
update_cache-IsCollisionFree_example =
    update_cache-IsCollisionFree folder (λ path. "k") less less-IsOrder old walk schedule clash
      (tt, tt) ((ordered, tt), (tt, tt)) old-IsCollisionFree clashes

update_cache-IsCollision_example :
    All (IsCollision (λ path. "k") clash.pass.scan.staged old) clash.collisions
update_cache-IsCollision_example =
    update_cache-IsCollision folder (λ path. "k") less less-IsOrder old walk schedule clash (tt, tt)
      ((ordered, tt), (tt, tt)) clashes
