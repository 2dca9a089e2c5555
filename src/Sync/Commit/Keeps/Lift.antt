-- ===== src/Sync/Commit/Keeps/Lift.antt =====
-- The steps of a run of `performSync` as changes of the machine or of the bucket alone, and the claim
-- that a run keeps.
use sync.Prelude.{ℕ, String, Bool, false, List, ◌≡◌, refl, All, string_eq, Bool-cases, inl, inr}
use sync.Prelude.Acts.{Outcome, Act, of_result, finished, threw, unfinished, Post, Leads}
use sync.Errors.{Result, ok, throw}
use sync.Sync.Snapshot.{Tables, SnapshotCodec}
use sync.Sync.CommitPointer.{PointerStore}
use sync.Sync.Commit.Bucket.{Vault}
use sync.Sync.Candidate.{Handled}
use sync.S3.Retry.{RetryResult, resolved, aborted, out_of_fuel}
use sync.Sync.Rows.{CacheEntryRow}
use sync.Sync.Commit.Held.{Held, Foreign}
use sync.Sync.Commit.Phases.{Machine}
use sync.Sync.Commit.Phases.Same.{Same}
use sync.Sync.Commit.{
  SyncResult, State, Environment, on_machine, on_vault, is_cas_conflict, with_cache, reconcile,
  committed,
}

pub of_result-Leads :
    {S A : Type 0} (P : S → Type 0) (r : Result A)
    → Leads P (of_result r) (λ a s. P s × (r ≡ ok a)) P
of_result-Leads P (ok a) s h = (h, refl)
of_result-Leads P (throw e) s h = h

module _ (B : PointerStore) (K : SnapshotCodec) where
  -- A statement on the version that the machine stands at and on the bucket.
  abbrev pub On : (Tables → String → Vault B K → Type 0) → State B K → Type 0
  On R s = R s.machine.state_db s.machine.last_synced s.vault

  -- The bucket has the snapshot of the version that the machine was last synced to, and it opens to
  -- the local state.db.
  abbrev pub IsAligned : State B K → Type 0
  IsAligned s = Held B K s.machine.last_synced s.machine.state_db s.vault

  machine_end :
      {A : Type 0} (R : Tables → String → Vault B K → Type 0) (o : Outcome A × Machine)
      (s : State B K)
      → Same s.machine o.1
      → On R s
      → Post (λ a. On R) (On R) (o.0, record s { machine = o.1 })
  machine_end R (finished a, m) s same h = rw (same.0, same.1) h
  machine_end R (threw e, m) s same h = rw (same.0, same.1) h
  machine_end R (unfinished, m) s same h = rw (same.0, same.1) h

  pub machine-Leads :
      {A : Type 0} (R : Tables → String → Vault B K → Type 0) (m : Act Machine A)
      → ((x : Machine) → Same x (m x).1)
      → Leads (On R) (on_machine B K m) (λ a. On R) (On R)
  machine-Leads R m same s h = machine_end R (m s.machine) s (same s.machine) h

  vault_end :
      {A : Type 0} (R : Tables → String → Vault B K → Type 0) (Q : A → Vault B K → Type 0)
      (o : Outcome A × Vault B K) (s : State B K)
      → let P = R s.machine.state_db s.machine.last_synced in
        Post (λ a v. P v × Q a v) P o
        → Post (λ a t. On R t × Q a t.vault) (On R) (o.0, record s { vault = o.1 })
  vault_end R Q (finished a, v) s h = h
  vault_end R Q (threw e, v) s h = h
  vault_end R Q (unfinished, v) s h = h

  pub vault-Leads :
      {A : Type 0} (R : Tables → String → Vault B K → Type 0) (Q : A → Vault B K → Type 0)
      (m : Act (Vault B K) A)
      → ((t : Tables) (k : String) → Leads (R t k) m (λ a v. R t k v × Q a v) (R t k))
      → Leads (On R) (on_vault B K m) (λ a s. On R s × Q a s.vault) (On R)
  vault-Leads R Q m leads s h =
      vault_end R Q (m s.vault) s (leads s.machine.state_db s.machine.last_synced s.vault h)

  with_cache_end :
      (P : State B K → Type 0) (r : Result (List CacheEntryRow)) (s : State B K)
      → ((cache : List CacheEntryRow)
          → P (record s { machine = record s.machine { cache = cache } }))
      → P s
      → Post (λ a. P) P (on_machine B K (λ m. with_cache B K m r) s)
  with_cache_end P (ok cache) s kept h = kept cache
  with_cache_end P (throw e) s kept h = h

  -- A reconciliation changes cache.db alone.
  pub reconcile-Leads :
      (P : State B K → Type 0) (lt : String → String → Bool) (handled : List Handled)
      → ((s : State B K) (cache : List CacheEntryRow)
          → P s
          → P (record s { machine = record s.machine { cache = cache } }))
      → Leads P (on_machine B K (reconcile B K lt handled)) (λ a. P) P
  unfolding reconcile
  reconcile-Leads P lt handled kept s h = with_cache_end P _ s (λ cache. kept s cache h) h

  pub committed_end :
      (P : Vault B K → Type 0) (r : RetryResult (Unit {0})) (v : Vault B K)
      → P v
      → Post (λ a w. P w × Unit) P (committed r, v)
  unfolding committed
  committed_end P (resolved a) v h = (h, tt)
  committed_end P (RetryResult.threw e) v h = elim (Bool-cases (is_cas_conflict e)) [
    | inl k ↦ rw k h
    | inr k ↦ rw k h
  ]
  committed_end P aborted v h = h
  committed_end P out_of_fuel v h = h

  -- Other machines never use this run's version stamp.
  pub record IsForeign (env : Environment B K) : Type 0 where
    pub current : (n : ℕ) → All (Foreign B K env.version_stamp) (env.current_requests n).others
    pub snapshot : (n : ℕ) → All (Foreign B K env.version_stamp) (env.snapshot_requests n).others

  -- Of a run that returned: the machine stands at the version that the result names, and no upload is
  -- marked as in progress.
  abbrev pub Done : SyncResult → State B K → Type 0
  Done r s = IsAligned s × (s.machine.last_synced ≡ r.version_stamp) × (s.machine.marker ≡ false)
