-- ===== src/Sync/Commit/Held.antt =====
-- What the bucket holds stays there: snapshots under the requests of a run and what other machines do.
use sync.Prelude.{
  ℕ, String, Bool, true, false, Option, none, some, List, [], ◌∷◌, ◌≡◌, refl, arith, All, ◌==◌,
  if◌then◌else◌, string_eq,
}
use sync.Prelude.Table
use sync.Prelude.Table.{find-upsert, find-append_kept, find-append_other}
use sync.Prelude.Acts.{Post, Leads}
use sync.Errors.{ok}
use sync.S3.Retry.{
  ErrorChain, Attempted, returned, RetryResult, resolved, aborted, out_of_fuel, with_s3_retry,
}
use sync.S3.Retry.Laws.{retry_inv}
use sync.Sync.Snapshot.{Tables, SnapshotCodec}
use sync.Sync.CommitPointer.{PointerStore}
use sync.Sync.Commit.Bucket.{
  Vault, Other, uploads, moves, snapshot_stamp, get_snapshot, act_of, others_act, Request,
  get_attempt, put_attempt, outcome_of, retried, answer, lands,
}

module _ (B : PointerStore) (K : SnapshotCodec) where
  -- The bucket has a snapshot of a version, and it opens to these tables.
  abbrev pub Held : String → Tables → Vault B K → Type 0
  Held stamp t v =
      (x : String × K.Body) × (get_snapshot B K stamp v ≡ some x) × (K.open_body x.1 ≡ ok t)

  abbrev pub has_version : String → Vault B K → Bool
  has_version stamp v = Table.has (snapshot_stamp B K) stamp v.snapshots

  -- Another machine uses other stamps than this run.
  abbrev pub Foreign : String → Other B K → Type 0
  Foreign stamp (uploads k body) = (k == stamp) ≡ false
  Foreign stamp (moves k) = Unit

  act_of-find :
      (o : Other B K) (v : Vault B K) (k : String) (x : String × K.Body)
      → get_snapshot B K k v ≡ some x
      → get_snapshot B K k (act_of B K o v) ≡ some x
  unfolding act_of
  act_of-find (uploads stamp body) v k x h =
      let kept =
        find-append_kept {K = String} (snapshot_stamp B K) k x v.snapshots ((stamp, body) ∷ []) h in
      ground arith
  act_of-find (moves stamp) v k x h = ground arith

  act_of-has :
      (o : Other B K) (v : Vault B K) (stamp : String)
      → Foreign stamp o
      → has_version stamp v ≡ false
      → has_version stamp (act_of B K o v) ≡ false
  unfolding act_of
  act_of-has (uploads k body) v stamp f h =
      let same =
        find-append_other {K = String} (snapshot_stamp B K) stamp (k, body) v.snapshots f in
      unfold Table.has in ground arith
  act_of-has (moves k) v stamp f h = ground arith

  others_act-find :
      (os : List (Other B K)) (v : Vault B K) (k : String) (x : String × K.Body)
      → get_snapshot B K k v ≡ some x
      → get_snapshot B K k (others_act B K os v) ≡ some x
  unfolding others_act
  others_act-find [] v k x h = h
  others_act-find (o ∷ os) v k x h = others_act-find os (act_of B K o v) k x (act_of-find o v k x h)

  pub others_act-has :
      (os : List (Other B K)) (v : Vault B K) (stamp : String)
      → All (Foreign stamp) os
      → has_version stamp v ≡ false
      → has_version stamp (others_act B K os v) ≡ false
  unfolding others_act
  others_act-has [] v stamp f h = h
  others_act-has (o ∷ os) v stamp f h =
      others_act-has os (act_of B K o v) stamp f.1 (act_of-has o v stamp f.0 h)

  pub others_act-Held :
      (os : List (Other B K)) (v : Vault B K) (k : String) (t : Tables)
      → Held k t v
      → Held k t (others_act B K os v)
  others_act-Held os v k t (x, at, opens) = (x, others_act-find os v k x at, opens)

  -- A request that resolves, and what is kept however it ends.
  pub retried-Leads :
      {A : Type 0} (P : Vault B K → Type 0) (Q : A → Vault B K → Type 0)
      (op : ℕ → Vault B K → Attempted A × Vault B K)
      → ((n : ℕ) (v : Vault B K)
          → P v
          → P (op n v).1 × ((a : A) → (op n v).0 ≡ returned a → Q a (op n v).1))
      → (fuel : ℕ) → Leads P (retried B K op fuel) (λ a v. P v × Q a v) P
  unfolding retried outcome_of
  retried-Leads {A = A} P Q op step fuel v p =
      let (kept, done) = retry_inv (λ _. false) op P Q step fuel 1 v p in
      go (with_s3_retry (λ _. false) op fuel 1 v).0 _ kept done
    where
      go :
          (r : RetryResult A) (v' : Vault B K)
          → P v'
          → ((a : A) → r ≡ resolved a → Q a v')
          → Post (λ a w. P w × Q a w) P (outcome_of B K r, v')
      go (resolved a) v' kept done = (kept, done a refl)
      go (RetryResult.threw e) v' kept done = kept
      go aborted v' kept done = kept
      go out_of_fuel v' kept done = kept

  abbrev pub IsKept : (Vault B K → Type 0) → (ℕ → Request B K) → Type 0
  IsKept P requests = (n : ℕ) (v : Vault B K) → P v → P (others_act B K (requests n).others v)

  answered :
      {A : Type 0} (failure : Option ErrorChain) (x a : A)
      → answer B K failure x ≡ returned a
      → a ≡ x
  answered none x a h = cc
  answered (some e) x a h = absurd (cc h)

  put_end :
      (P : Vault B K → Type 0) (stamp : String) (body : K.Body) (failure : Option ErrorChain)
      (reaches : Bool) (v : Vault B K)
      → let v' = record v {
        snapshots = Table.upsert (snapshot_stamp B K) (stamp, body) v.snapshots;
      } in
        let w = if lands B K failure reaches then v' else v in
        P v
        → P v'
        → P w
          × ((a : Unit {0})
              → answer B K failure tt ≡ returned a
              → get_snapshot B K stamp w ≡ some (stamp, body))
  put_end P stamp body none reaches v p p' = (
    p',
    λ a h.
        rw (find-upsert {K = String} (snapshot_stamp B K) stamp (stamp, body) v.snapshots) ground
          arith,
  )
  put_end P stamp body (some e) true v p p' = (p', λ a h. absurd (cc h))
  put_end P stamp body (some e) false v p p' = (p, λ a h. absurd (cc h))

  -- What a GET resolves to is what is there.
  pub get-Leads :
      {A : Type 0} (P : Vault B K → Type 0) (look : Vault B K → A) (requests : ℕ → Request B K)
      → IsKept P requests
      → (fuel : ℕ)
      → Leads P (retried B K (get_attempt B K look requests) fuel) (λ a v. P v × (a ≡ look v)) P
  get-Leads P look requests keeps =
      retried-Leads P (λ a v. a ≡ look v) (get_attempt B K look requests)
        (λ n v p. unfold get_attempt in (keeps n v p, answered (requests n).failure _))

  -- A PUT that resolves has stored the body, and the snapshots of other versions stay.
  pub put-Leads :
      (P : Vault B K → Type 0) (stamp : String) (body : K.Body) (requests : ℕ → Request B K)
      → IsKept P requests
      → ((v : Vault B K)
          → P v
          → P (record v {
            snapshots = Table.upsert (snapshot_stamp B K) (stamp, body) v.snapshots;
          }))
      → (fuel : ℕ)
      → Leads P
          (retried B K (put_attempt B K stamp body requests) fuel)
          (λ a v. P v × (get_snapshot B K stamp v ≡ some (stamp, body)))
          P
  put-Leads P stamp body requests keeps stored =
      retried-Leads P (λ a v. get_snapshot B K stamp v ≡ some (stamp, body))
        (put_attempt B K stamp body requests)
        (λ n v p.
          unfold put_attempt in
          put_end P stamp body (requests n).failure (requests n).reaches _ (keeps n v p)
            (stored _ (keeps n v p)))

  pub upsert-Held :
      (stamp : String) (body : K.Body) (k : String) (t : Tables) (v : Vault B K)
      → (stamp == k) ≡ false
      → Held k t v
      → Held k t
          (record v { snapshots = Table.upsert (snapshot_stamp B K) (stamp, body) v.snapshots })
  upsert-Held stamp body k t v other (x, at, opens) =
      let same = find-upsert {K = String} (snapshot_stamp B K) k (stamp, body) v.snapshots in
      (x, ground arith, opens)
