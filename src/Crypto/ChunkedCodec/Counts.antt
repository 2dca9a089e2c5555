-- ===== src/Crypto/ChunkedCodec/Counts.antt =====
-- How many chunks a text has and how long each is.
use native.Mathlib.Nat.{mul-mod_left, add-mod_right, mul-add-mod_self_right, mod-eq_of_lt}
use mathlib.Core.Option.{some-injective}
use mathlib.Core.Path.{subst}
use sync.Prelude.{
  ◌⊎◌, inl, inr, ℕ, zero, suc, ◌+◌, ◌-◌, ◌*◌, ◌/◌, ◌%◌, ◌≤◌, ◌<◌, min, some, ◌≡◌, refl, arith, inl,
  inr, ap, sym, ◌∙◌, nat_eq,
}
use sync.Crypto.ChunkedCodec.{ChunkedHeader, ceil_div, chunk_count, plaintext_chunk_length}

-- So many chunks of this size hold a text, and fewer do not.
abbrev pub IsCount : ℕ → ℕ → ℕ → Type 0
IsCount chunk_size total count =
    (total ≤ count * chunk_size) × (count * chunk_size < total + chunk_size)

pub ceil_div-IsCount :
    (total chunk_size : ℕ)
    → 0 < chunk_size
    → (count : ℕ) × (ceil_div total chunk_size ≡ some count) × IsCount chunk_size total count
unfolding ceil_div
ceil_div-IsCount total zero h = absurd (omega arith)
ceil_div-IsCount total (suc k) h = ((total + k) / suc k, refl, (grind arith, grind arith))

full_remainder : (size i total : ℕ) → i * size < total → total ≡ i * size + size → total % size ≡ 0
full_remainder size i total below h = rw (h) (simp (mul-mod_left, add-mod_right) refl)

partial_remainder :
    (size i total : ℕ)
    → i * size ≤ total
    → total < i * size + size
    → total % size ≡ total - i * size
partial_remainder size i total below h =
    let split : total ≡ i * size + (total - i * size) = omega arith in
    ap (λ t. t % size) split
    ∙ mul-add-mod_self_right i size (total - i * size)
    ∙ mod-eq_of_lt (omega arith)

-- A chunk has the chunk's size, or what is left where that is less.
pub plaintext_chunk_length_lem :
    (header : ChunkedHeader) (count left i : ℕ)
    → chunk_count header ≡ some count
    → IsCount header.chunk_size header.total_plaintext_size count
    → i + suc left ≡ count
    → plaintext_chunk_length header i
      ≡ min header.chunk_size (header.total_plaintext_size - i * header.chunk_size)
unfolding plaintext_chunk_length
plaintext_chunk_length_lem header count zero i hc hi h =
    let size = header.chunk_size in
    let total = header.total_plaintext_size in
    let last : count ≡ suc i = omega arith in
    let product : count * size ≡ i * size + size = rw last (omega arith) in
    let full : total ≡ i * size + size → total % size ≡ 0 =
      full_remainder size i total (omega (arith, hi.1)) in
    let partial : total < i * size + size → total % size ≡ total - i * size =
      partial_remainder size i total (omega (arith, hi.1)) in
    rw (hc, last) (ground (arith, product, full, partial))
plaintext_chunk_length_lem header count (suc left) i hc hi h =
    let size = header.chunk_size in
    let more : (suc i + suc left) * size ≡ count * size = ap (λ n. n * size) (omega arith) in
    let bound : size + i * size + size ≤ (suc i + suc left) * size = grind arith in
    rw (hc) (ground (arith, more, bound))

-- Every chunk but the last is full.
pub full_or_last :
    (size total count left i : ℕ)
    → IsCount size total count
    → i + suc left ≡ count
    → (size ≤ total - i * size) ⊎ (left ≡ 0)
full_or_last size total count zero i hi h = inr refl
full_or_last size total count (suc left) i hi h =
    let more : (suc i + suc left) * size ≡ count * size = ap (λ n. n * size) (omega arith) in
    let bound : size + i * size + size ≤ (suc i + suc left) * size = grind arith in
    inl (omega (arith, more, bound, hi.1))

-- A chunk that is to come begins within the text.
pub begins_within :
    (size total count left i : ℕ)
    → IsCount size total count
    → i + suc left ≡ count
    → i * size < total
begins_within size total count left i hi h =
    let same : (i + suc left) * size ≡ count * size = ap (λ n. n * size) h in
    let bound : i * size + size ≤ (i + suc left) * size = grind arith in
    omega (arith, same, bound, hi.1)

pub IsCount-ceil_div :
    (total chunk_size count : ℕ)
    → 0 < chunk_size
    → ceil_div total chunk_size ≡ some count
    → IsCount chunk_size total count
IsCount-ceil_div total chunk_size count pos h =
    let counted = ceil_div-IsCount total chunk_size pos in
    let same : counted.0 ≡ count = some-injective _ _ (sym (counted.1) ∙ h) in
    subst (IsCount chunk_size total) same (counted.2)
