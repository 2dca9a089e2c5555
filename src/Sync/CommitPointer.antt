-- ===== src/Sync/CommitPointer.antt =====
-- src/sync/commit-pointer.ts: moving `/current` to the run's version stamp by a conditional PUT under
-- `withS3Retry`, with a read-back after every failure. The bucket is a parameter; what the network
-- and other machines do at each attempt is a `Turn`.
pub mod Laws
use mathlib.Core.List.{foldl}
use sync.Prelude.{
  ℕ, ◌+◌, String, Bool, true, false, ◌&&◌, Option, none, some, List, ◌≡◌, ◌==◌, if◌then◌else◌,
  string_eq, option_eq,
}
use sync.S3.Retry.{
  ErrorChain, nothing, error, Attempted, returned, rejected, RetryResult, with_s3_retry,
}

-- One key of a bucket, as the code relies on it: a PUT stores its body, and equal ETags stand for
-- equal bodies.
pub record PointerStore : Type 1 where
  pub State : Type 0
  pub body : State → Option String
  pub etag : State → Option String
  pub put : State → String → State
  pub body-put : (s : State) (v : String) → body (put s v) ≡ some v
  pub body_of_etag :
      (s t : State) (e : String) → etag s ≡ some e → etag t ≡ some e → body s ≡ body t

-- What happens at one attempt: commits of other machines before the PUT and before the read-back,
-- whether the PUT reaches the bucket and its reply comes back, the error that a lost request or
-- reply shows as, and the error of the read-back, if it fails.
pub record Turn : Type 0 where
  pub before : List String
  pub reaches : Bool
  pub replies : Bool
  pub lost : ErrorChain
  pub between : List String
  pub read_error : Option ErrorChain

-- `CasConflictError`
abbrev pub cas_conflict_error : ErrorChain
cas_conflict_error = error (some "CasConflictError") none none nothing

module _ (B : PointerStore) where
  -- The pointer, and how often a PUT of this run took effect.
  pub record World : Type 0 where
    pub state : B.State
    pub landed : ℕ

  abbrev pub rivals : List String → B.State → B.State
  rivals commits s = foldl B.put s commits

  -- `pointerAlreadyOurs`, and what its answer does to the error that is being handled.
  read_back : String → Option ErrorChain → ErrorChain → B.State → Attempted (Unit {0})
  read_back stamp (some e) failure s = rejected e
  read_back stamp none failure s = if B.body s == some stamp then returned tt else rejected failure

  handle : String → Turn → Attempted (Unit {0}) → World → Attempted (Unit {0}) × World
  handle stamp turn (returned a) w = (returned a, w)
  handle stamp turn (rejected e) w =
      let s = rivals turn.between w.state in
      (read_back stamp turn.read_error e s, record w { state = s })

  -- What `putObjectCas` shows to the caller: a 412 is a `CasConflictError`.
  reply : Turn → Bool → Attempted (Unit {0})
  reply turn accepted =
      if turn.reaches && turn.replies
      then if accepted then returned tt else rejected cas_conflict_error
      else rejected turn.lost

  put_cas : String → Bool → B.State → ℕ → World
  put_cas stamp true s landed = record { state = B.put s stamp; landed = landed + 1 }
  put_cas stamp false s landed = record { state = s; landed = landed }

  -- One attempt of the operation that `withS3Retry` repeats.
  unfoldable pub attempt_commit :
      String → String → (ℕ → Turn) → ℕ → World → Attempted (Unit {0}) × World
  unfolding read_back handle reply put_cas
  attempt_commit stamp if_match env n w =
      let turn = env n in
      let s = rivals turn.before w.state in
      let accepted = B.etag s == some if_match in
      handle stamp turn (reply turn accepted) (put_cas stamp (turn.reaches && accepted) s w.landed)

  unfoldable pub commit_current_pointer :
      String → String → (ℕ → Turn) → ℕ → World → RetryResult (Unit {0}) × World
  unfolding attempt_commit with_s3_retry
  commit_current_pointer stamp if_match env fuel w =
      with_s3_retry (λ _. false) (attempt_commit stamp if_match env) fuel 1 w
