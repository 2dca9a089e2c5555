-- ===== src/Tests/Bucket.antt =====
-- One commit beside another machine's, and the retry loop over two attempts.
use sync.Prelude.{
  ℕ, zero, suc, ◌≤◌, ◌+◌, String, true, false, Option, none, some, [], ◌∷◌, ◌≡◌, ◌∙◌, sym, refl,
  arith, string_eq, nat_eq, string_ne,
}
use sync.S3.Retry.{
  ErrorChain, nothing, error, Attempted, returned, rejected, resolved, is_transient_s3_error,
  backoff_delay_ms, with_s3_retry,
}
use sync.S3.Retry.Laws.{backoff_bounds, retry_answers}
use sync.Sync.CommitPointer.{PointerStore, Turn, commit_current_pointer}
use sync.Sync.CommitPointer.Laws.{commit_at_most_once}

-- A key whose ETag is its body.
abbrev plain_store : PointerStore
plain_store = record {
  State = Option String;
  body = λ s. s;
  etag = λ s. s;
  put = λ s v. some v;
  body-put = λ s v. refl;
  body_of_etag = λ s t e p q. p ∙ sym q;
}

-- The first reply is lost, and another machine commits before the read-back.
abbrev lost_reply : ℕ → Turn
lost_reply _ = record {
  before = [];
  reaches = true;
  replies = false;
  lost = error none (some "ECONNRESET") none nothing;
  between = "v3" ∷ [];
  read_error = none;
}

commit_at_most_once_example :
    let out =
      commit_current_pointer plain_store "v2" "v1" lost_reply 3
        (record { state = some "v1"; landed = 0 }) in
    (out.1.landed ≤ 1) × (out.0 ≡ resolved tt → out.1.landed ≡ 1)
commit_at_most_once_example =
    commit_at_most_once plain_store "v1" "v2" "v1" (some "v1") lost_reply 3 refl refl
      (string_ne "v2" "v1" refl)
      (λ n. (tt, ((string_ne "v3" "v1" refl, string_ne "v3" "v2" refl), tt)))

abbrev slow_down : ErrorChain
slow_down = error (some "SlowDown") none none nothing

slow_down_transient : is_transient_s3_error slow_down ≡ true
unfolding is_transient_s3_error string_eq nat_eq
slow_down_transient = refl

-- The first attempt is throttled, the second answers.
abbrev second_time : ℕ → ℕ → Attempted String × ℕ
second_time (suc zero) s = (rejected slow_down, s + 1)
second_time _ s = (returned "body", s + 1)

retry_answers_example : with_s3_retry (λ _. false) second_time 2 1 0 ≡ (resolved "body", 2)
retry_answers_example =
    retry_answers (λ _. false) second_time 1 0 0 1 2 (returned "body")
      (1, slow_down, refl, refl, slow_down_transient, refl) refl refl (λ e p. cc)

backoff_bounds_example : (250 ≤ backoff_delay_ms 7 1 2) × (backoff_delay_ms 7 1 2 ≤ 30_000)
backoff_bounds_example = backoff_bounds 7 1 2 (omega arith)
