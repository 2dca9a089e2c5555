-- ===== src/Sync/Commit/Phases/Same.antt =====
-- No phase touches the files that say which version the machine stands at.
use sync.Prelude.{String, Bool, true, false, List, ◌≡◌, refl}
use sync.Errors.{Result, ok, throw}
use sync.UpdateCache.Run as ScanRun
use sync.Sync.Rows.{CacheEntryRow}
use sync.Sync.Schedule as Local
use sync.Sync.ApplyRemote as Remote
use sync.Sync.Snapshot.{Tables}
use sync.Sync.Commit.Phases.{
  Machine, Surroundings, scan_stop, remote_stop, scan, scan_result, scan_ended, scanned_to,
  apply_local, local_result, local_ended, apply_remote, remote_result, remote_ended, pulled_to,
}

abbrev pub Same : Machine → Machine → Type 0
Same m m' = (m'.state_db ≡ m.state_db) × (m'.last_synced ≡ m.last_synced)

module _ (v : Surroundings) where
  scan_ended-Same :
      (u : ScanRun.Updated) (whole : Bool) (m : Machine) → Same m (scan_ended v u whole m).1
  unfolding scan_ended scanned_to
  scan_ended-Same u true m = (refl, refl)
  scan_ended-Same u false m = (refl, refl)

  scan_result-Same :
      (left : ScanRun.Pass) (r : Result ScanRun.Updated) (m : Machine)
      → Same m (scan_result v left r m).1
  unfolding scan_result scanned_to
  scan_result-Same left (ok u) m = scan_ended-Same u _ m
  scan_result-Same left (throw e) m = (refl, refl)

  pub scan-Same : (m : Machine) → Same m (scan v m).1
  unfolding scan
  scan-Same m = scan_result-Same (scan_stop v m) _ m

  local_ended-Same :
      (t : Tables) (l : Local.Loop) (whole : Bool) (m : Machine)
      → Same m (local_ended v t l whole m).1
  unfolding local_ended
  local_ended-Same t l true m = (refl, refl)
  local_ended-Same t l false m = (refl, refl)

  local_result-Same :
      (t : Tables) (r : Result Local.Loop) (m : Machine) → Same m (local_result v t r m).1
  unfolding local_result
  local_result-Same t (ok l) m = local_ended-Same t l _ m
  local_result-Same t (throw e) m = (refl, refl)

  pub apply_local-Same :
      (stamp : String) (verify : Bool) (t : Tables) (dirty : List CacheEntryRow) (m : Machine)
      → Same m (apply_local v stamp verify t dirty m).1
  unfolding apply_local
  apply_local-Same stamp verify t dirty m = local_result-Same t _ (record m { marker = true })

  remote_ended-Same :
      (l : Remote.Pass) (whole : Bool) (m : Machine) → Same m (remote_ended v l whole m).1
  unfolding remote_ended pulled_to
  remote_ended-Same l true m = (refl, refl)
  remote_ended-Same l false m = (refl, refl)

  remote_result-Same :
      (left : Remote.Pass) (r : Result Remote.Pass) (m : Machine)
      → Same m (remote_result v left r m).1
  unfolding remote_result pulled_to
  remote_result-Same left (ok l) m = remote_ended-Same l _ m
  remote_result-Same left (throw e) m = (refl, refl)

  pub apply_remote-Same :
      (t : Tables) (exclude : List String) (m : Machine) → Same m (apply_remote v t exclude m).1
  unfolding apply_remote
  apply_remote-Same t exclude m = remote_result-Same (remote_stop v t exclude m) _ m
