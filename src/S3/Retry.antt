-- ===== src/S3/Retry.antt =====
-- src/s3/retry.ts: which errors are transient, the backoff, and the retry loop around an operation.
-- The loop has no limit on its attempts; here it has fuel, and says `out_of_fuel` where the program
-- would go on. Clock readings (`elapsedMs`) are left out.
pub mod Laws
use sync.Prelude.{
  ℕ, zero, suc, ◌+◌, ◌-◌, ◌*◌, ◌/◌, ◌^◌, min, String, Bool, true, false, ◌||◌, Option, none, some,
  List, [], ◌∷◌, ◌==◌, contains, if◌then◌else◌, string_eq, nat_eq,
}

-- An error as the predicate reads it: its `name`, `code` and `$metadata.httpStatusCode`, and what
-- its `cause` wraps. `nothing` is a missing cause (`undefined` or `null`).
pub data ErrorChain : Type 0 where
  nothing : ErrorChain
  error : Option String → Option String → Option ℕ → ErrorChain → ErrorChain

abbrev retryable_error_names : List String
retryable_error_names =
    "NetworkingError" ∷ "TimeoutError" ∷ "RequestTimeout" ∷ "RequestTimeoutException" ∷ "SlowDown"
    ∷ "ThrottlingException" ∷ "RequestThrottled" ∷ "RequestThrottledException" ∷ "InternalError"
    ∷ "ServiceUnavailable" ∷ []

abbrev retryable_errnos : List String
retryable_errnos =
    "ECONNRESET" ∷ "EPIPE" ∷ "ETIMEDOUT" ∷ "ENOTFOUND" ∷ "EAI_AGAIN" ∷ "ENETUNREACH" ∷ "ENETDOWN"
    ∷ "EHOSTUNREACH" ∷ []

abbrev retryable_status_codes : List ℕ
retryable_status_codes = 429 ∷ 500 ∷ 502 ∷ 503 ∷ 504 ∷ []

abbrev listed_text : Option String → List String → Bool
listed_text none texts = false
listed_text (some t) texts = contains t texts

abbrev listed_code : Option ℕ → Bool
listed_code none = false
listed_code (some n) = contains n retryable_status_codes

-- One turn of the walk: the three tests on one link of the chain.
unfoldable pub link_transient : Option String → Option String → Option ℕ → Bool
link_transient name code status =
    listed_text name retryable_error_names
    || listed_text code retryable_errnos
    || listed_code status

-- `MAX_CAUSE_DEPTH`
abbrev pub max_cause_depth : ℕ
max_cause_depth = 5

unfoldable pub transient_within : ℕ → ErrorChain → Bool
transient_within zero e = false
transient_within (suc depth) nothing = false
transient_within (suc depth) (error name code status cause) =
    link_transient name code status || transient_within depth cause

unfoldable pub is_transient_s3_error : ErrorChain → Bool
unfolding transient_within link_transient
is_transient_s3_error e = transient_within max_cause_depth e

abbrev base_delay_ms : ℕ
base_delay_ms = 500

abbrev pub max_delay_ms : ℕ
max_delay_ms = 30_000

unfoldable pub capped_delay_ms : ℕ → ℕ
capped_delay_ms attempt = min max_delay_ms (base_delay_ms * 2 ^ (attempt - 1))

-- `backoffDelayMs`, where `Math.random()` is the fraction `num / den`: `Math.round` of
-- `capped * (0.5 + num / den * 0.5)`, in exact arithmetic.
unfoldable pub backoff_delay_ms : ℕ → ℕ → ℕ → ℕ
unfolding capped_delay_ms
backoff_delay_ms attempt num den = (capped_delay_ms attempt * (den + num) + den) / (2 * den)

-- How one call of `op` ends.
pub data Attempted {ℓ} (A : Type ℓ) : Type ℓ where
  returned : A → Attempted A
  rejected : ErrorChain → Attempted A

pub data RetryResult {ℓ} (A : Type ℓ) : Type ℓ where
  resolved : A → RetryResult A
  threw : ErrorChain → RetryResult A
  aborted : RetryResult A
  out_of_fuel : RetryResult A

-- `withS3Retry`, for an operation that reads and changes a state of type `S`; `op n` and
-- `is_aborted n` are the operation and the abort signal at the n-th attempt. A signal that fires
-- during the sleep rejects it, which the next test of the signal stands for.
module _ {ℓ} {A S : Type ℓ} (is_aborted : ℕ → Bool) (op : ℕ → S → Attempted A × S) where
  unfoldable pub after_attempt :
      (ℕ → S → RetryResult A × S) → ℕ → Attempted A → S → RetryResult A × S
  after_attempt again attempt (returned a) s = (resolved a, s)
  after_attempt again attempt (rejected e) s =
      if is_transient_s3_error e then again (attempt + 1) s else (threw e, s)

  unfoldable pub with_s3_retry : ℕ → ℕ → S → RetryResult A × S
  unfolding after_attempt
  with_s3_retry zero attempt s = (out_of_fuel, s)
  with_s3_retry (suc fuel) attempt s =
      let (r, s') = op attempt s in
      if is_aborted attempt then (aborted, s) else after_attempt (with_s3_retry fuel) attempt r s'
