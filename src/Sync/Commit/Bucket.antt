-- ===== src/Sync/Commit/Bucket.antt =====
-- The bucket as a sync sees it: `/current` with the snapshots of the versions, what other machines do
-- to them between two requests, and the requests of sync/commit.ts under `withS3Retry`.
use sync.Prelude.{
  ℕ, String, Bool, true, false, Option, none, some, List, [], ◌∷◌, ◌++◌, if◌then◌else◌, string_eq,
}
use sync.Prelude.Table
use sync.Prelude.Acts.{Outcome, Act, finished, threw, unfinished}
use sync.Errors.{Failure}
use sync.S3.Retry.{
  ErrorChain, Attempted, returned, rejected, RetryResult, resolved, aborted, out_of_fuel,
  with_s3_retry,
}
use sync.Sync.Snapshot.{SnapshotCodec}
use sync.Sync.CommitPointer.{PointerStore, World}

module _ (B : PointerStore) (K : SnapshotCodec) where
  pub record Vault : Type 0 where
    pub pointer : World B
    pub snapshots : List (String × K.Body)

  abbrev pub snapshot_stamp : String × K.Body → String
  snapshot_stamp (stamp, body) = stamp

  abbrev pub get_snapshot : String → Vault → Option (String × K.Body)
  get_snapshot stamp v = Table.find snapshot_stamp stamp v.snapshots

  -- What another machine does: it uploads a snapshot under a fresh stamp (under a stamp that is taken,
  -- nothing happens), or moves `/current` to a version whose snapshot is there.
  pub data Other : Type 0 where
    uploads : String → K.Body → Other
    moves : String → Other

  unfoldable pub act_of : Other → Vault → Vault
  act_of (uploads stamp body) v =
      if Table.has snapshot_stamp stamp v.snapshots
      then v
      else record v { snapshots = v.snapshots ++ ((stamp, body) ∷ []) }
  act_of (moves stamp) v =
      if Table.has snapshot_stamp stamp v.snapshots
      then record v { pointer = record v.pointer { state = B.put v.pointer.state stamp } }
      else v

  unfoldable pub others_act : List Other → Vault → Vault
  unfolding act_of
  others_act [] v = v
  others_act (x ∷ xs) v = others_act xs (act_of x v)

  -- One attempt of a request: what others did before it, the error that a lost request or reply shows
  -- as, and whether a lost PUT reached the bucket.
  pub record Request : Type 0 where
    pub others : List Other
    pub failure : Option ErrorChain
    pub reaches : Bool

  abbrev pub answer {ℓ} : {A : Type ℓ} → Option ErrorChain → A → Attempted A
  answer none a = returned a
  answer (some e) a = rejected e

  abbrev pub lands : Option ErrorChain → Bool → Bool
  lands none reaches = true
  lands (some e) reaches = reaches

  -- `getObject`, of what `look` reads.
  unfoldable pub get_attempt :
      {A : Type 0} → (Vault → A) → (ℕ → Request) → ℕ → Vault → Attempted A × Vault
  unfolding others_act
  get_attempt look requests n v =
      let r = requests n in let v' = others_act r.others v in (answer r.failure (look v'), v')

  -- `putObject` of a snapshot.
  unfoldable pub put_attempt :
      String → K.Body → (ℕ → Request) → ℕ → Vault → Attempted (Unit {0}) × Vault
  unfolding others_act
  put_attempt stamp body requests n v =
      let r = requests n in
      let v' = others_act r.others v in
      (
        answer r.failure tt,
        if lands r.failure r.reaches
            then record v' { snapshots = Table.upsert snapshot_stamp (stamp, body) v'.snapshots }
            else v',
      )

  unfoldable pub outcome_of : {A : Type 0} → RetryResult A → Outcome A
  outcome_of (resolved a) = finished a
  outcome_of (RetryResult.threw e) = threw (Failure.transport "S3")
  outcome_of aborted = threw Failure.aborted
  outcome_of out_of_fuel = unfinished

  unfoldable pub retried : {A : Type 0} → (ℕ → Vault → Attempted A × Vault) → ℕ → Act Vault A
  unfolding outcome_of with_s3_retry
  retried op fuel v = let (r, v') = with_s3_retry (λ _. false) op fuel 1 v in (outcome_of r, v')
