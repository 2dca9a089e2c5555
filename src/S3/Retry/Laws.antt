-- ===== src/S3/Retry/Laws.antt =====
-- Bounds of the backoff, the walk along the causes, and what the loop returns.
use sync.Prelude.{
  Bool-cases, inl, inr, ℕ, zero, suc, ◌+◌, ◌-◌, ◌*◌, ◌≤◌, ◌<◌, Bool, true, false, ◌≡◌, refl, arith,
  ◌∙◌,
}
use native.Mathlib.Nat.{one-le-pow, le-div_iff_mul-le, div-lt_iff_lt-mul}
use sync.S3.Retry.{
  ErrorChain, is_transient_s3_error, max_delay_ms, capped_delay_ms, backoff_delay_ms, Attempted,
  returned, rejected, RetryResult, resolved, threw, with_s3_retry, after_attempt,
}

low_product : (c num den : ℕ) → 500 ≤ c → num < den → 250 * (2 * den) ≤ c * (den + num) + den
low_product c num den low h = grind arith

high_product : (c num den : ℕ) → c ≤ 30000 → num < den → c * (den + num) + den < 30001 * (2 * den)
high_product c num den high h =
    let m : c * (den + num) ≤ 30000 * (den + num) = grind arith in omega (arith, m)

positive : (den num : ℕ) → num < den → 0 < 2 * den
positive den num h = omega arith

capped_bounds :
    (attempt : ℕ) → (500 ≤ capped_delay_ms attempt) × (capped_delay_ms attempt ≤ max_delay_ms)
unfolding capped_delay_ms
capped_bounds attempt = omega (arith, one-le-pow (attempt - 1) 2 (omega arith))

-- However many attempts have failed, and whatever the random fraction below one, the wait is between
-- 250 ms and 30 s.
pub backoff_bounds :
    (attempt num den : ℕ)
    → num < den
    → (250 ≤ backoff_delay_ms attempt num den) × (backoff_delay_ms attempt num den ≤ max_delay_ms)
unfolding backoff_delay_ms
backoff_bounds attempt num den h =
    let (low, high) = capped_bounds attempt in
    let below : backoff_delay_ms attempt num den < 30001 =
      (div-lt_iff_lt-mul (positive den num h)).1
        (high_product (capped_delay_ms attempt) num den high h) in
    (
      (le-div_iff_mul-le (positive den num h)).1
          (low_product (capped_delay_ms attempt) num den low h),
      omega (arith, below),
    )

abbrev pub answer {ℓ} : {A : Type ℓ} → Attempted A → RetryResult A
answer (returned a) = resolved a
answer (rejected e) = threw e

module _ {ℓ} {A S : Type ℓ} (is_aborted : ℕ → Bool) (op : ℕ → S → Attempted A × S) where
  -- From attempt `k` in state `s` the next `m` attempts fail transiently, unaborted, and leave `t`.
  abbrev pub FailsFor : ℕ → ℕ → S → S → Type ℓ
  FailsFor zero k s t = s ≡ t
  FailsFor (suc m) k s t =
      (s' : S) × (e : ErrorChain) × (is_aborted k ≡ false)
      × (op k s ≡ (rejected e, s'))
      × (is_transient_s3_error e ≡ true)
      × FailsFor m (k + 1) s' t

  pub skip_failures :
      (m fuel k : ℕ) (s t : S)
      → FailsFor m k s t
      → with_s3_retry is_aborted op (m + fuel) k s ≡ with_s3_retry is_aborted op fuel (k + m) t
  unfolding with_s3_retry
  skip_failures zero fuel k s t same =
      let e : zero + fuel ≡ fuel = omega arith in
      let q : k + zero ≡ k = omega arith in rw (e, q, same)
  skip_failures (suc m) fuel k s t (s', e, go, failed, transient, rest) =
      let e : suc m + fuel ≡ suc (m + fuel) = omega arith in
      let q : k + suc m ≡ k + 1 + m = omega arith in
      rw (e, q, go, failed, transient) (skip_failures m fuel (k + 1) s' t rest)

  -- The loop answers with what the first attempt that does not fail transiently answers: its value,
  -- or its error, thrown at its first occurrence. Fuel for one attempt more than the failures is
  -- enough.
  pub retry_answers :
      (m fuel : ℕ) (s t u : S) (r : Attempted A)
      → FailsFor m 1 s t
      → is_aborted (1 + m) ≡ false
      → op (1 + m) t ≡ (r, u)
      → ((e : ErrorChain) → r ≡ rejected e → is_transient_s3_error e ≡ false)
      → with_s3_retry is_aborted op (m + suc fuel) 1 s ≡ (answer r, u)
  unfolding with_s3_retry
  retry_answers m fuel s t u r fails go answered final =
      skip_failures m (suc fuel) 1 s t fails ∙ rw (go, answered) (settle r final)
    where
      settle :
          (r : Attempted A)
          → ((e : ErrorChain) → r ≡ rejected e → is_transient_s3_error e ≡ false)
          → after_attempt is_aborted op (with_s3_retry is_aborted op fuel) (1 + m) r u
            ≡ (answer r, u)
      settle (returned a) final = refl
      settle (rejected e) final = rw (final e refl)

  module _ {κ} (P : S → Type κ) (Q : A → S → Type κ) where
    abbrev Keeps : RetryResult A × S → Type (ℓ ⊔ κ)
    Keeps x = P x.1 × ((a : A) → x.0 ≡ resolved a → Q a x.1)

    after_attempt-Keeps :
        (again : ℕ → S → RetryResult A × S) (k : ℕ) (r : Attempted A) (s : S)
        → ((n : ℕ) (t : S) → P t → Keeps (again n t))
        → P s
        → ((a : A) → r ≡ returned a → Q a s)
        → Keeps (after_attempt is_aborted op again k r s)
    unfolding after_attempt
    after_attempt-Keeps again k (returned a) s rest p q = (p, λ b e. q b (cc))
    after_attempt-Keeps again k (rejected e) s rest p q =
        elim (Bool-cases (is_transient_s3_error e)) [
          | inl t ↦ rw t (rest (k + 1) s p)
          | inr t ↦ rw t (p, λ b e. cc)
        ]

    -- What every attempt keeps of the state holds at the end, and a value that the loop resolves to
    -- has what an attempt that returns it has.
    pub retry_inv :
        ((n : ℕ) (s : S)
          → P s
          → P (op n s).1 × ((a : A) → (op n s).0 ≡ returned a → Q a (op n s).1))
        → (fuel k : ℕ) (s : S) → P s
        → Keeps (with_s3_retry is_aborted op fuel k s)
    unfolding with_s3_retry
    retry_inv step zero k s p = (p, λ a e. cc)
    retry_inv step (suc fuel) k s p = elim (Bool-cases (is_aborted k)) [
      | inl stop ↦ rw stop (p, λ a e. cc)
      | inr go ↦
          let (p', q) = step k s p in
          rw go (
            after_attempt-Keeps (with_s3_retry is_aborted op fuel) k _ _
              (λ n t pt. retry_inv step fuel n t pt) p' q)
    ]
