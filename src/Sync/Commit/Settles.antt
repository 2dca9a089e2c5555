-- ===== src/Sync/Commit/Settles.antt =====
-- What one sync leaves in cache.db at each path: the fold, the pull and the reconciliation together.
use mathlib.Core.Path.{subst}
use sync.Prelude.{
  le_of_not-ltb, ℕ, String, Bool, true, false, none, some, List, ◌≡◌, refl, sym, ap, ◌∙◌, arith,
  map, contains, length, ltb, if◌then◌else◌, string_eq,
}
use sync.Prelude.Acts.{Outcome, pure, of_result, finished, threw, unfinished, Post, Post-step}
use sync.Errors.{Result, ok, throw}
use sync.Sync.Rows.{CacheEntryRow, cache_path, get_cache, get_entry}
use sync.Sync.Dirty.{iterate_dirty}
use sync.Sync.Dirty.Laws.{state_of, iterate_dirty_lem}
use sync.Sync.Candidate.{Handled, get_handled}
use sync.Sync.ApplyLocal.{stamp_of}
use sync.Sync.Soundness.Schedules.{IsReferenced}
use sync.Sync.ApplyRemote.Course.{Converged}
use sync.Sync.MergeJoin.Laws.{IsOrder}
use sync.Sync.Reconcile.{reconcile_cache_after_commit}
use sync.Sync.Snapshot.{Tables, SnapshotCodec}
use sync.UpdateCache.Run.{Updated}
use sync.Sync.Schedule.{Loop}
use sync.Sync.CommitPointer.{PointerStore}
use sync.Sync.Commit.Bucket.{Vault, retried, put_attempt}
use sync.Sync.Commit.Phases.Effects.{
  Nothing, Folded, Pulled, IsListed, AreListed, apply_local-Post, apply_remote-Post,
}
use sync.Sync.Commit.{
  SyncResult, State, Environment, on_machine, adopt, with_cache, reconcile, end_without_commit,
  commit_pointer, commit_result, end_with_commit, sync_candidate,
}
use sync.Sync.Commit.Phases.{Machine, folded, apply_local}
use sync.Db.Ordered.{order_by, Sorted}
use sync.Sync.Commit.AtPaths.{Settled, Settled-of, rows, reconciled_lem}

module _ (B : PointerStore) (K : SnapshotCodec) where
  machine-Post :
      {A : Type 0} (Q : A → Machine → Type 0) (o : Outcome A × Machine) (s : State B K)
      → Post Q Nothing o
      → Post (λ a t. Q a t.machine) Nothing (o.0, record s { machine = o.1 })
  machine-Post Q (finished a, m) s h = h
  machine-Post Q (threw e, m) s h = tt
  machine-Post Q (unfinished, m) s h = tt

  vault-Post :
      {A : Type 0} (o : Outcome A × Vault B K) (s : State B K)
      → Post (λ a t. t.machine ≡ s.machine) Nothing (o.0, record s { vault = o.1 })
  vault-Post (finished a, v) s = refl
  vault-Post (threw e, v) s = tt
  vault-Post (unfinished, v) s = tt

  result-Post :
      {A : Type 0} (r : Result A) (s : State B K)
      → Post (λ a t. t.machine ≡ s.machine) Nothing (of_result r s)
  result-Post (ok a) s = refl
  result-Post (throw e) s = tt

  -- What a run over the candidate comes to: some handled paths, and at every path of cache.db what
  -- `Settled` says of them and of the local state.db.
  abbrev pub IsSettled : Machine → SyncResult → State B K → Type 0
  IsSettled m r s =
      (handled : List Handled) × (length handled ≡ r.local_entries_changed)
      × ((p : String)
          → Settled (state_of (get_cache p m.cache)) (get_cache p m.cache) (get_handled p handled)
              (get_entry p s.machine.state_db.entries) (get_cache p s.machine.cache))

  module _ (env : Environment B K) (o : IsOrder env.around.db_lt) (start : Machine) where
    -- After the fold and the pull: the entries that the state.db will have.
    record IsPulled (l : Loop) (m : Machine) : Type 0 where
      stamped :
          (p : String) (h : Handled)
          → get_handled p l.run.handled_paths ≡ some h
          → h.stamp ≡ stamp_of (get_entry p l.run.entries)
      pulled :
          (p : String)
          → Converged
              (state_of (get_cache p start.cache))
              (get_cache p start.cache)
              (get_entry p l.run.entries)
              (get_cache p m.cache)

    abbrev SettledWith : Loop → State B K → Type 0
    SettledWith l t =
        (p : String)
        → Settled (state_of (get_cache p start.cache)) (get_cache p start.cache)
            (get_handled p l.run.handled_paths) (get_entry p t.machine.state_db.entries)
            (get_cache p t.machine.cache)

    reconcile-Post :
        (l : Loop) (s : State B K)
        → IsPulled l s.machine
        → s.machine.state_db.entries ≡ l.run.entries
        → Post
            (λ _. SettledWith l)
            Nothing
            (on_machine B K (reconcile B K env.around.db_lt l.run.handled_paths) s)
    unfolding reconcile
    reconcile-Post l s at entries =
        go
          (reconcile_cache_after_commit
            (rows env.around.db_lt o s.machine.cache l.run.handled_paths) l.run.handled_paths
            s.machine.cache)
          refl
      where
        go :
            (r : Result (List CacheEntryRow))
            → reconcile_cache_after_commit
                (rows env.around.db_lt o s.machine.cache l.run.handled_paths)
                l.run.handled_paths
                s.machine.cache
              ≡ r
            → Post (λ _. SettledWith l) Nothing (on_machine B K (λ m. with_cache B K m r) s)
        go (throw e) ran = tt
        go (ok cache) ran = λ p.
            subst
              (λ es.
                Settled (state_of (get_cache p start.cache)) (get_cache p start.cache)
                  (get_handled p l.run.handled_paths) (get_entry p es) (get_cache p cache))
              (sym entries)
              (Settled-of _ (get_cache p start.cache) (get_cache p s.machine.cache)
                (get_cache p cache) (get_handled p l.run.handled_paths) (get_entry p l.run.entries)
                refl (at.stamped p) (at.pulled p)
                (reconciled_lem env.around.db_lt o s.machine.cache l.run.handled_paths p cache ran))

    end_with_commit-Post :
        (scanned : Updated) (etag : String) (t : Tables) (l : Loop) (pulled : _) (s : State B K)
        → IsPulled l s.machine
        → t.entries ≡ l.run.entries
        → Post (IsSettled start) Nothing (end_with_commit B K env scanned etag t l pulled s)
    unfolding end_with_commit
    end_with_commit-Post scanned etag t l pulled s at entries =
        Post-step (λ _ t. t.machine ≡ s.machine) Nothing (IsSettled start) Nothing _ _
          (result-Post (K.seal env.context t) s) (λ t q. tt)
          λ body s1 same1.
            Post-step (λ _ t. t.machine ≡ s1.machine) Nothing (IsSettled start) Nothing _ _
              (vault-Post
                (retried B K (put_attempt B K env.version_stamp body env.put_requests) env.fuel
                  s1.vault)
                s1)
              (λ t q. tt)
              λ _ s2 same2.
                Post-step (λ _ t. t.machine ≡ s2.machine) Nothing (IsSettled start) Nothing _ _
                  (vault-Post (commit_pointer B K env etag s2.vault) s2) (λ t q. tt)
                  λ _ s3 same3.
                    let at3 : IsPulled l s3.machine =
                      subst (IsPulled l) (sym (same3 ∙ same2 ∙ same1)) at in
                    let s4 : State B K = record s3 {
                      machine = record s3.machine {
                        state_db = t;
                        candidate = none;
                        last_synced = env.version_stamp;
                        marker = false;
                      };
                    } in
                    Post-step (λ _. SettledWith l) Nothing (IsSettled start) Nothing
                      (λ _. pure (commit_result B K env scanned l pulled)) _
                      (reconcile-Post l s4 (record { stamped = at3.stamped; pulled = at3.pulled })
                        entries)
                      (λ t q. tt) λ _ s5 settled. (l.run.handled_paths, refl, settled)

    adopted :
        (moved : Bool) (stamp : String) (fresh : Tables) (l : Loop) (s : State B K)
        → IsPulled l s.machine
        → (moved ≡ false → s.machine.state_db ≡ fresh)
        → fresh.entries ≡ l.run.entries
        → Post
            (λ _ t. IsPulled l t.machine × (t.machine.state_db.entries ≡ l.run.entries))
            Nothing
            (on_machine B K (adopt B K moved stamp fresh) s)
    unfolding adopt
    adopted false stamp fresh l s at same entries = (at, ap (λ t. t.entries) (same refl) ∙ entries)
    adopted true stamp fresh l s at same entries =
        (record { stamped = at.stamped; pulled = at.pulled }, entries)

    end_without_commit-Post :
        (scanned : Updated) (dirty_count : ℕ) (moved : Bool) (stamp : String) (fresh : Tables)
        (l : Loop) (pulled : _) (s : State B K)
        → IsPulled l s.machine
        → (moved ≡ false → s.machine.state_db ≡ fresh)
        → fresh.entries ≡ l.run.entries
        → Post
            (IsSettled start)
            Nothing
            (end_without_commit B K env scanned dirty_count moved stamp fresh l pulled s)
    unfolding end_without_commit
    end_without_commit-Post scanned dirty_count moved stamp fresh l pulled s at same entries =
        Post-step (λ _ t. IsPulled l t.machine × (t.machine.state_db.entries ≡ l.run.entries))
          Nothing (IsSettled start) Nothing _ _
          (adopted moved stamp fresh l (record s { machine = record s.machine { marker = false } })
            (record { stamped = at.stamped; pulled = at.pulled }) same entries)
          (λ t q. tt)
          λ _ s1 (at1, entries1).
            Post-step (λ _. SettledWith l) Nothing (IsSettled start) Nothing _ _
              (reconcile-Post l s1 at1 entries1) (λ t q. tt)
              λ _ s2 settled. (l.run.handled_paths, refl, settled)

    no_change : (n : ℕ) → ltb 0 n ≡ false → n ≡ 0
    no_change n h = omega (arith, le_of_not-ltb 0 n h)

    ended-Post :
        (scanned : Updated) (dirty_count : ℕ) (moved : Bool) (stamp etag : String) (fresh : Tables)
        (l : Loop) (pulled : _) (s : State B K) (applied : Bool)
        → ltb 0 l.run.applied_count ≡ applied
        → IsPulled l s.machine
        → (moved ≡ false → s.machine.state_db ≡ fresh)
        → (l.run.applied_count ≡ 0 → l.run.entries ≡ fresh.entries)
        → Post (IsSettled start) Nothing (
            (if applied
                then end_with_commit B K env scanned etag (folded fresh l) l pulled
                else end_without_commit B K env scanned dirty_count moved stamp fresh l pulled)
              s)
    ended-Post scanned dirty_count moved stamp etag fresh l pulled s true e at same idle =
        end_with_commit-Post scanned etag (folded fresh l) l pulled s at refl
    ended-Post scanned dirty_count moved stamp etag fresh l pulled s false e at same idle =
        end_without_commit-Post scanned dirty_count moved stamp fresh l pulled s at same
          (sym (idle (no_change l.run.applied_count e)))

Post-both :
    {S A : Type 0} (Q R : A → S → Type 0) (o : Outcome A × S)
    → Post Q Nothing o
    → Post R Nothing o
    → Post (λ a s. Q a s × R a s) Nothing o
Post-both Q R (finished a, s) h k = (h, k)
Post-both Q R (threw e, s) h k = tt
Post-both Q R (unfinished, s) h k = tt

-- From the copy of the candidate on, a sync that returns settles every path of cache.db: there are
-- handled paths, as many as the result counts, such that a dirty row that was not handled stays as it
-- was; one that was handled is gone if it was a delete, and is otherwise unchanged at the version of
-- the path's entry in the local state.db that the machine has come to; and every other path agrees
-- with that entry. The entries of the fetched state name only objects that it lists, and it is the
-- local state.db if the remote has not moved; and for the paths of cache.db and of the candidate that
-- the fold comes to, the order in which SQLite lists the rows is the one that the loop compares with.
pub sync_candidate-IsSettled :
    (B : PointerStore) (K : SnapshotCodec) (env : Environment B K) (o : IsOrder env.around.lt)
    (d : IsOrder env.around.db_lt) (verify : Bool) (scanned : Updated) (dirty_count : ℕ)
    (moved : Bool) (stamp etag : String) (fresh : Tables) (s : State B K)
    → IsReferenced fresh.entries fresh.objects
    → (moved ≡ false → s.machine.state_db ≡ fresh)
    → IsListed env.around s.machine
    → Post
        (λ l m. AreListed env.around (folded fresh l))
        Nothing
        (apply_local env.around env.version_stamp verify fresh
          (iterate_dirty env.around.db_lt s.machine.cache)
          s.machine)
    → Post
        (IsSettled B K s.machine)
        Nothing
        (sync_candidate B K env verify scanned dirty_count moved stamp etag fresh s)
unfolding sync_candidate
sync_candidate-IsSettled B K env o d verify scanned dirty_count moved stamp etag fresh s referenced
      same rows_listed entries_listed =
    let dirty = iterate_dirty env.around.db_lt s.machine.cache in
    let after_fold : Loop → Machine → Type 0 =
      λ l m. Folded env.around fresh s.machine l m × AreListed env.around (folded fresh l) in
    Post-step (λ l t. after_fold l t.machine) Nothing (IsSettled B K s.machine) Nothing _ _
      (machine-Post B K after_fold _ s (
        Post-both (Folded env.around fresh s.machine) (λ l m. AreListed env.around (folded fresh l))
          _ (apply_local-Post env.around env.version_stamp verify fresh dirty s.machine referenced)
          entries_listed))
      (λ t q. tt)
      λ l s1 ((sound, kept, db), candidate_listed).
        Post-step
          (λ pulled t.
            Pulled env.around (folded fresh l) (map cache_path dirty) s1.machine pulled t.machine)
          Nothing (IsSettled B K s.machine) Nothing _ _
          (machine-Post B K (Pulled env.around (folded fresh l) (map cache_path dirty) s1.machine) _
            s1
            (apply_remote-Post env.around o d (folded fresh l) (map cache_path dirty) s1.machine
              (subst (λ c. Sorted cache_path env.around.lt (order_by cache_path env.around.db_lt c))
                (sym kept) rows_listed)
              candidate_listed))
          (λ t q. tt)
          λ pulled s2 (converged, db2).
            ended-Post B K env d s.machine scanned dirty_count moved stamp etag fresh l pulled s2 _
              refl
              (record {
                stamped = sound.stamped;
                pulled = λ p.
                    subst
                      (λ d.
                        Converged d (get_cache p s.machine.cache) (get_entry p l.run.entries)
                          (get_cache p s2.machine.cache))
                      (iterate_dirty_lem env.around.db_lt d s.machine.cache p)
                      (subst
                        (λ c.
                          Converged (contains p (map cache_path dirty)) (get_cache p c)
                            (get_entry p l.run.entries) (get_cache p s2.machine.cache))
                        kept (converged p));
              })
              (λ e. db2 ∙ db ∙ same e) sound.idle
