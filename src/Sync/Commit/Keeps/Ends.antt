-- ===== src/Sync/Commit/Keeps/Ends.antt =====
-- The run of `performSync` from the candidate on: both its ends, with a commit and without.
use sync.Prelude.{
  ℕ, String, Bool, true, false, some, ◌≡◌, refl, ◌==◌, if◌then◌else◌, string_eq, ltb, map,
}
use sync.Prelude.Table
use sync.Prelude.Acts.{Act, Post, Leads, Post-step}
use sync.Errors.{ok}
use sync.Sync.Snapshot.{Tables, SnapshotCodec}
use sync.Sync.CommitPointer.{PointerStore}
use sync.Sync.Commit.Bucket.{Vault, Request, get_snapshot, snapshot_stamp, retried, put_attempt}
use sync.Sync.Schedule.{Loop}
use sync.Sync.ApplyRemote.{Remote}
use sync.UpdateCache.Run.{Updated}
use sync.Sync.Rows.{cache_path}
use sync.Sync.Dirty.{iterate_dirty}
use sync.Sync.Commit.Held.{Held, IsKept, others_act-Held, put-Leads, upsert-Held}
use sync.Sync.Commit.Phases.{apply_local, apply_remote, folded}
use sync.Sync.Commit.Phases.Same.{apply_local-Same, apply_remote-Same}
use sync.Sync.Commit.{
  SyncResult, State, Environment, on_machine, adopt, end_without_commit, commit_pointer,
  end_with_commit, sync_candidate,
}
use sync.Sync.Commit.Keeps.Lift.{
  On, IsAligned, Done, machine-Leads, vault-Leads, of_result-Leads, reconcile-Leads, committed_end,
}

module _ (B : PointerStore) (K : SnapshotCodec) where
  module _ (env : Environment B K) where
    -- The local version and the remote's are in the bucket, and are not this run's.
    abbrev pub Ready : Bool → String → Tables → Tables → String → Vault B K → Type 0
    Ready moved stamp fresh t k v =
        (Held B K k t v × ((env.version_stamp == k) ≡ false))
        × (Held B K stamp fresh v × ((env.version_stamp == stamp) ≡ false))
        × (moved ≡ false → k ≡ stamp)

    Ready-IsKept :
        (moved : Bool) (stamp : String) (fresh t : Tables) (k : String) (requests : ℕ → Request B K)
        → IsKept B K (Ready moved stamp fresh t k) requests
    Ready-IsKept moved stamp fresh t k requests n v ((held, other), (there, other'), at) = (
      (others_act-Held B K _ v k t held, other),
      (others_act-Held B K _ v stamp fresh there, other'),
      at,
    )

    Ready-stored :
        (moved : Bool) (stamp : String) (fresh t : Tables) (k : String) (body : K.Body)
        (v : Vault B K)
        → Ready moved stamp fresh t k v
        → Ready moved stamp fresh t k (record v {
          snapshots = Table.upsert (snapshot_stamp B K) (env.version_stamp, body) v.snapshots;
        })
    Ready-stored moved stamp fresh t k body v ((held, other), (there, other'), at) = (
      (upsert-Held B K env.version_stamp body k t v other held, other),
      (upsert-Held B K env.version_stamp body stamp fresh v other' there, other'),
      at,
    )

    commit_pointer-Leads :
        (etag k : String) (t c : Tables)
        → Leads
            (λ v. Held B K k t v × Held B K env.version_stamp c v)
            (commit_pointer B K env etag)
            (λ a v. (Held B K k t v × Held B K env.version_stamp c v) × Unit)
            (λ v. Held B K k t v × Held B K env.version_stamp c v)
    unfolding commit_pointer
    commit_pointer-Leads etag k t c v (held, there) =
        committed_end B K (λ v. Held B K k t v × Held B K env.version_stamp c v) _ _
          (
            others_act-Held B K env.others_before_commit v k t held,
            others_act-Held B K env.others_before_commit v env.version_stamp c there,
          )

    -- The machine stands at a version, with the marker removed.
    abbrev At : String → State B K → Type 0
    At stamp s = IsAligned B K s × (s.machine.last_synced ≡ stamp) × (s.machine.marker ≡ false)

    end_with_commit-Leads :
        (moved : Bool) (stamp : String) (fresh : Tables) (scanned : Updated) (etag : String)
        (candidate : Tables) (l : Loop) (pulled : Remote)
        → Leads
            (On B K (Ready moved stamp fresh))
            (end_with_commit B K env scanned etag candidate l pulled)
            (Done B K)
            (IsAligned B K)
    unfolding end_with_commit
    end_with_commit-Leads moved stamp fresh scanned etag candidate l pulled s ready =
        let P = On B K (Ready moved stamp fresh) in
        let P' : State B K → Type 0 =
          On B K (λ t k v. Held B K k t v × Held B K env.version_stamp candidate v) in
        Post-step (λ body t. P t × (K.seal env.context candidate ≡ ok body)) P (Done B K)
          (IsAligned B K) _ _ (of_result-Leads P (K.seal env.context candidate) s ready)
          (λ t q. q.0.0)
          λ body s1 (ready1, sealed).
            Post-step
              (λ _ t.
                P t × (get_snapshot B K env.version_stamp t.vault ≡ some (env.version_stamp, body)))
              P (Done B K) (IsAligned B K) _ _
              (vault-Leads B K (Ready moved stamp fresh)
                (λ _ v. get_snapshot B K env.version_stamp v ≡ some (env.version_stamp, body))
                (retried B K (put_attempt B K env.version_stamp body env.put_requests) env.fuel)
                (λ t k.
                  put-Leads B K (Ready moved stamp fresh t k) env.version_stamp body
                    env.put_requests (Ready-IsKept moved stamp fresh t k env.put_requests)
                    (Ready-stored moved stamp fresh t k body) env.fuel)
                s1 ready1)
              (λ t q. q.0.0)
              λ _ s2 (ready2, put).
                Post-step (λ _ t. P' t × Unit) P' (Done B K) (IsAligned B K) _ _
                  (vault-Leads B K
                    (λ t k v. Held B K k t v × Held B K env.version_stamp candidate v) (λ _ v. Unit)
                    (commit_pointer B K env etag) (λ t k. commit_pointer-Leads etag k t candidate)
                    s2
                    (
                      ready2.0.0,
                      (
                        (env.version_stamp, body),
                        put,
                        K.open-seal env.context candidate body sealed,
                      ),
                    ))
                  (λ t q. q.0)
                  λ _ s3 ((held, there), _).
                    Post-step (λ _. At env.version_stamp) (At env.version_stamp) (Done B K)
                      (IsAligned B K) _ _
                      (reconcile-Leads B K (At env.version_stamp) env.around.db_lt
                        l.run.handled_paths (λ t cache q. q) _ (there, refl, refl))
                      (λ t q. q.0) λ _ s4 q. q

    adopt_end :
        (moved : Bool) (stamp : String) (fresh : Tables) (s : State B K)
        → On B K (Ready moved stamp fresh) s
        → s.machine.marker ≡ false
        → Post (λ _. At stamp) (IsAligned B K) (on_machine B K (adopt B K moved stamp fresh) s)
    unfolding adopt
    adopt_end false stamp fresh s ready cleared = (ready.0.0, ready.2 refl, cleared)
    adopt_end true stamp fresh s ready cleared = (ready.1.0, refl, cleared)

    end_without_commit-Leads :
        (scanned : Updated) (dirty_count : ℕ) (moved : Bool) (stamp : String) (fresh : Tables)
        (l : Loop) (pulled : Remote)
        → Leads
            (On B K (Ready moved stamp fresh))
            (end_without_commit B K env scanned dirty_count moved stamp fresh l pulled)
            (Done B K)
            (IsAligned B K)
    unfolding end_without_commit
    end_without_commit-Leads scanned dirty_count moved stamp fresh l pulled s ready =
        Post-step (λ _. At stamp) (IsAligned B K) (Done B K) (IsAligned B K) _ _
          (adopt_end moved stamp fresh (record s { machine = record s.machine { marker = false } })
            ready refl)
          (λ t q. q)
          λ _ s1 at.
            Post-step (λ _. At stamp) (At stamp) (Done B K) (IsAligned B K) _ _
              (reconcile-Leads B K (At stamp) env.around.db_lt l.run.handled_paths (λ t cache q. q)
                s1 at)
              (λ t q. q.0) λ _ s2 q. q

    ended :
        (applied : Bool) (s : State B K) (commit keep : Act (State B K) SyncResult)
        → Post (Done B K) (IsAligned B K) (commit s)
        → Post (Done B K) (IsAligned B K) (keep s)
        → Post (Done B K) (IsAligned B K) ((if applied then commit else keep) s)
    ended true s commit keep h k = h
    ended false s commit keep h k = k

    pub sync_candidate-Leads :
        (verify : Bool) (scanned : Updated) (dirty_count : ℕ) (moved : Bool) (stamp etag : String)
        (fresh : Tables)
        → Leads
            (On B K (Ready moved stamp fresh))
            (sync_candidate B K env verify scanned dirty_count moved stamp etag fresh)
            (Done B K)
            (IsAligned B K)
    unfolding sync_candidate
    sync_candidate-Leads verify scanned dirty_count moved stamp etag fresh s ready =
        let R = Ready moved stamp fresh in
        let dirty = iterate_dirty env.around.db_lt s.machine.cache in
        Post-step (λ _. On B K R) (On B K R) (Done B K) (IsAligned B K) _ _
          (machine-Leads B K R (apply_local env.around env.version_stamp verify fresh dirty)
            (apply_local-Same env.around env.version_stamp verify fresh dirty) s ready)
          (λ t q. q.0.0)
          λ l s1 ready1.
            let candidate = folded fresh l in
            Post-step (λ _. On B K R) (On B K R) (Done B K) (IsAligned B K) _ _
              (machine-Leads B K R (apply_remote env.around candidate (map cache_path dirty))
                (apply_remote-Same env.around candidate (map cache_path dirty)) s1 ready1)
              (λ t q. q.0.0)
              λ pulled s2 ready2.
                ended (ltb 0 l.run.applied_count) s2
                  (end_with_commit B K env scanned etag candidate l pulled)
                  (end_without_commit B K env scanned dirty_count moved stamp fresh l pulled)
                  (end_with_commit-Leads moved stamp fresh scanned etag candidate l pulled s2
                    ready2)
                  (end_without_commit-Leads scanned dirty_count moved stamp fresh l pulled s2
                    ready2)
