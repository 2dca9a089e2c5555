-- ===== src/Sync/Commit/Keeps.antt =====
-- The local state.db stands for the version that the machine was last synced to, however a run of
-- `performSync` ends.
pub mod Lift
pub mod Ends
use sync.Prelude.{
  ℕ, String, Bool, true, false, not, ◌||◌, Option, none, some, List, ◌≡◌, refl, sym, arith, All,
  ◌==◌, if◌then◌else◌, string_eq, Bool-cases, inl, inr, ltb, map,
}
use sync.Prelude.Table
use sync.Prelude.Acts.{Outcome, Act, of_result, finished, threw, unfinished, Post, Leads, Post-step}
use sync.Errors.{Failure, Result, ok, throw}
use sync.Sync.Snapshot.{Tables, SnapshotCodec}
use sync.Sync.CommitPointer.{PointerStore}
use sync.Sync.Commit.Bucket.{
  Vault, Request, get_snapshot, snapshot_stamp, retried, put_attempt, get_attempt,
}
use sync.Sync.Candidate.{Handled}
use sync.Sync.Schedule.{Loop}
use sync.Sync.ApplyRemote.{Remote}
use sync.UpdateCache.Run.{Updated}
use sync.S3.Retry.{RetryResult, resolved, aborted, out_of_fuel}
use sync.Sync.Rows.{CacheEntryRow, cache_path}
use sync.Sync.Dirty.{iterate_dirty, count_dirty}
use sync.Sync.Commit.Held.{
  Held, has_version, Foreign, IsKept, others_act-Held, others_act-has, get-Leads, put-Leads,
  upsert-Held,
}
use sync.Sync.Commit.Phases.{Machine, scan, apply_local, apply_remote, folded}
use sync.Sync.Commit.Phases.Same.{Same, scan-Same, apply_local-Same, apply_remote-Same}
use sync.Sync.Commit.{
  SyncResult, State, Environment, on_machine, on_vault, look_at_current, decrypted, open_fresh,
  fetch_fresh, is_cas_conflict, adopt, with_cache, reconcile, end_without_commit, commit_pointer,
  committed, end_with_commit, sync_candidate, remove_temporary, after_current, perform_sync,
}
use sync.Sync.Commit.Keeps.Lift.{
  On, IsAligned, IsForeign, Done, machine-Leads, vault-Leads, of_result-Leads, reconcile-Leads,
  committed_end,
}
use sync.Sync.Commit.Keeps.Ends.{Ready, sync_candidate-Leads}

module _ (B : PointerStore) (K : SnapshotCodec) where
  module _ (env : Environment B K) where
    -- Before the run has read anything of the remote: no snapshot has this run's stamp.
    abbrev Fresh : Tables → String → Vault B K → Type 0
    Fresh t k v = Held B K k t v × (has_version B K env.version_stamp v ≡ false)

    not-Held :
        (k : String) (t : Tables) (v : Vault B K)
        → Held B K k t v
        → has_version B K env.version_stamp v ≡ false
        → (env.version_stamp == k) ≡ false
    not-Held k t v (x, at, opens) h = elim (Bool-cases (env.version_stamp == k)) [
      | inl same ↦ absurd (unfold Table.has in ground arith)
      | inr other ↦ other
    ]

    Fresh-IsKept :
        (t : Tables) (k : String) (requests : ℕ → Request B K)
        → ((n : ℕ) → All (Foreign B K env.version_stamp) (requests n).others)
        → IsKept B K (Fresh t k) requests
    Fresh-IsKept t k requests foreign n v (held, unused) = (
      others_act-Held B K _ v k t held,
      others_act-has B K _ v env.version_stamp (foreign n) unused,
    )

    decrypted_lem : (r : Result Tables) (t : Tables) → decrypted r ≡ ok t → r ≡ ok t
    unfolding decrypted
    decrypted_lem (ok a) t h = h
    decrypted_lem (throw Failure.crypto_auth) t h = cc
    decrypted_lem (throw e) t h = cc

    open_fresh-Leads :
        (stamp : String) (found : Option (String × K.Body)) (s : State B K)
        → On B K Fresh s
        → found ≡ get_snapshot B K stamp s.vault
        → Post
            (λ fresh. On B K (Ready B K env true stamp fresh))
            (IsAligned B K)
            (open_fresh B K found s)
    unfolding open_fresh
    open_fresh-Leads stamp none s h seen = h.0
    open_fresh-Leads stamp (some (k, body)) s (held, unused) seen =
        let P : State B K → Type 0 =
          λ t. On B K Fresh t × (some (k, body) ≡ get_snapshot B K stamp t.vault) in
        Post-step (λ fresh t. P t × (decrypted (K.open_body body) ≡ ok fresh)) P _ _ _ _
          (of_result-Leads P (decrypted (K.open_body body)) s ((held, unused), seen)) (λ t q. q.0.0)
          λ fresh s1 (((held1, unused1), seen1), opens).
            let there : Held B K stamp fresh s1.vault =
              ((k, body), sym seen1, decrypted_lem (K.open_body body) fresh opens) in
            (
              (held1, not-Held s1.machine.last_synced s1.machine.state_db s1.vault held1 unused1),
              (there, not-Held stamp fresh s1.vault there unused1),
              λ no. absurd (cc no),
            )

    fetch_fresh-Leads :
        (moved : Bool) (stamp : String)
        → IsForeign B K env
        → Leads
            (λ s. On B K Fresh s × (moved ≡ false → s.machine.last_synced ≡ stamp))
            (fetch_fresh B K env moved stamp)
            (λ fresh. On B K (Ready B K env moved stamp fresh))
            (IsAligned B K)
    unfolding fetch_fresh
    fetch_fresh-Leads false stamp foreign s ((held, unused), at) =
        let same = at refl in
        let other = not-Held s.machine.last_synced s.machine.state_db s.vault held unused in
        ((held, other), rw (sym same) (held, other), at)
    fetch_fresh-Leads true stamp foreign s ((held, unused), at) =
        Post-step (λ found t. On B K Fresh t × (found ≡ get_snapshot B K stamp t.vault))
          (On B K Fresh) _ _ _ _
          (vault-Leads B K Fresh (λ found v. found ≡ get_snapshot B K stamp v)
            (retried B K (get_attempt B K (get_snapshot B K stamp) env.snapshot_requests) env.fuel)
            (λ t k.
              get-Leads B K (Fresh t k) (get_snapshot B K stamp) env.snapshot_requests
                (Fresh-IsKept t k env.snapshot_requests foreign.snapshot) env.fuel)
            s (held, unused))
          (λ t q. q.0) λ found s1 (fresh1, seen). open_fresh-Leads stamp found s1 fresh1 seen

    removed :
        (o : Outcome SyncResult × State B K)
        → Post (Done B K) (IsAligned B K) o
        → Post (Done B K) (IsAligned B K) (o.0, remove_temporary B K o.1)
    removed (finished r, s) h = h
    removed (threw e, s) h = h
    removed (unfinished, s) h = h

    unmoved : (stamp last k : String) → k ≡ last → not (stamp == last) ≡ false → k ≡ stamp
    unmoved stamp last k e h = ground arith

    -- The run from the answer to the GET of `/current` on.
    from_current :
        (verify : Bool) (scanned : Updated) (dirty_count : ℕ) (last : String)
        (found : Option (String × String)) (s : State B K)
        → IsForeign B K env
        → On B K Fresh s × (s.machine.last_synced ≡ last)
        → Post
            (Done B K)
            (IsAligned B K)
            (after_current B K env verify scanned dirty_count last found s)
    unfolding after_current
    from_current verify scanned dirty_count last none s foreign h = h.0.0
    from_current verify scanned dirty_count last (some (stamp, etag)) s foreign (fresh, at) =
        let moved = not (stamp == last) in
        Post-step (λ t. On B K (Ready B K env moved stamp t)) (IsAligned B K) (Done B K)
          (IsAligned B K) _ _
          (fetch_fresh-Leads moved stamp foreign s
            (fresh, unmoved stamp last s.machine.last_synced at))
          (λ t q. q)
          λ t s1 ready. removed _ (
            sync_candidate-Leads B K env verify scanned dirty_count moved stamp etag t
              (record s1 { machine = record s1.machine { candidate = some t } }) ready)

-- If the bucket has the snapshot of the version that the machine was last synced to, and it opens to
-- the local state.db, then so it is after a run of performSync, whether it returned, threw or waits
-- for an answer; and after a run that returned, the machine stands at the version that the result
-- names and no upload is marked as in progress. No other machine uses this run's version stamp.
pub perform_sync-IsAligned :
    (B : PointerStore) (K : SnapshotCodec) (env : Environment B K) (s : State B K)
    → IsForeign B K env
    → has_version B K env.version_stamp s.vault ≡ false
    → IsAligned B K s
    → Post (Done B K) (IsAligned B K) (perform_sync B K env s)
unfolding perform_sync
perform_sync-IsAligned B K env s foreign unused held =
    let F = Fresh B K env in
    let last = s.machine.last_synced in
    let P : State B K → Type 0 = On B K (λ t k v. F t k v × (k ≡ last)) in
    Post-step (λ _. P) P _ _ _ _
      (machine-Leads B K (λ t k v. F t k v × (k ≡ last)) (scan env.around) (scan-Same env.around) s
        ((held, unused), refl))
      (λ t q. q.0.0)
      λ scanned s1 p1.
        Post-step (λ found t. P t × (found ≡ look_at_current B K t.vault)) P _ _ _ _
          (vault-Leads B K (λ t k v. F t k v × (k ≡ last))
            (λ found v. found ≡ look_at_current B K v)
            (retried B K (get_attempt B K (look_at_current B K) env.current_requests) env.fuel)
            (λ t k.
              get-Leads B K (λ v. F t k v × (k ≡ last)) (look_at_current B K) env.current_requests
                (λ n v q.
                  (Fresh-IsKept B K env t k env.current_requests foreign.current n v q.0, q.1))
                env.fuel)
            s1 p1)
          (λ t q. q.0.0)
          λ found s2 (p2, _).
            from_current B K env (env.force_verify_remote || s.machine.marker) scanned
              (count_dirty s1.machine.cache) last found s2 foreign p2
