-- ===== src/Crypto/StreamReader.antt =====
-- `StreamByteReader` of crypto/streaming-codec.ts: exact reads from a stream that arrives in pieces.
use mathlib.Core.List.{append_assoc}
use sync.Prelude.{
  ℕ, ◌≤◌, min, Option, none, some, List, [], ◌∷◌, ◌++◌, ◌≡◌, refl, ◌⊎◌, ◌<◌, ◌==◌, nat_eq, ap, ◌∙◌,
  ltb, if◌then◌else◌, length, take, drop, Bool-cases, inl, inr, arith, cut_first,
}
use sync.Errors.{Failure, Result, ok, throw}
use sync.Crypto.Bytes.{Bytes, concat}

-- What was read ahead, and the pieces that the iterator has not yet given; after the last it is done.
pub record StreamByteReader : Type 0 where
  pub buffered : Bytes
  pub pieces : List Bytes

unfoldable pub reader_of : List Bytes → StreamByteReader
reader_of pieces = record { buffered = []; pieces = pieces }

-- The loop that fills the buffer.
unfoldable pub fill : ℕ → Bytes → List Bytes → StreamByteReader
fill n buffered [] = record { buffered = buffered; pieces = [] }
fill n buffered (value ∷ pieces) =
    let filled = fill n (buffered ++ value) pieces in
    if ltb (length buffered) n
    then filled
    else record { buffered = buffered; pieces = value ∷ pieces }

-- `result` and `this.buffered` after it; null when nothing is left.
unfoldable pub cut_buffered : ℕ → Bytes → List Bytes → Option Bytes × StreamByteReader
cut_buffered n [] pieces = (none, record { buffered = []; pieces = pieces })
cut_buffered n (b ∷ bs) pieces =
    let taken = min n (length (b ∷ bs)) in
    (some (take taken (b ∷ bs)), record { buffered = drop taken (b ∷ bs); pieces = pieces })

unfoldable pub read_exact : ℕ → StreamByteReader → Option Bytes × StreamByteReader
unfolding fill cut_buffered
read_exact n reader =
    let filled = fill n reader.buffered reader.pieces in
    cut_buffered n filled.buffered filled.pieces

-- What the callers make of a read: a short one is an error.
unfoldable pub exactly : ℕ → Option Bytes → Result Bytes
exactly n none = throw (Failure.invalid "ended early")
exactly n (some chunk) =
    if length chunk == n then ok chunk else throw (Failure.invalid "ended early")

unfoldable pub at_least : ℕ → Option Bytes → Result Bytes
at_least n none = throw (Failure.invalid "ended early")
at_least n (some chunk) =
    if ltb (length chunk) n then throw (Failure.invalid "ended early") else ok chunk

-- All that is still to be read.
abbrev pub content : StreamByteReader → Bytes
content reader = reader.buffered ++ concat reader.pieces

content-fill :
    (n : ℕ) (buffered : Bytes) (pieces : List Bytes)
    → content (fill n buffered pieces) ≡ buffered ++ concat pieces
unfolding fill
content-fill n buffered [] = refl
content-fill n buffered (value ∷ pieces) = elim (Bool-cases (ltb (length buffered) n)) [
  | inl short ↦
      rw short
        (content-fill n (buffered ++ value) pieces ∙ append_assoc buffered value (concat pieces))
  | inr long ↦ rw long refl
]

-- The buffer has enough, or the stream has ended.
IsFilled-fill :
    (n : ℕ) (buffered : Bytes) (pieces : List Bytes)
    → (n ≤ length ((fill n buffered pieces).buffered)) ⊎ ((fill n buffered pieces).pieces ≡ [])
unfolding fill
IsFilled-fill n buffered [] = inr refl
IsFilled-fill n buffered (value ∷ pieces) = elim (Bool-cases (ltb (length buffered) n)) [
  | inl short ↦ rw short (IsFilled-fill n (buffered ++ value) pieces)
  | inr long ↦ rw long (inl (ground arith))
]

-- The bytes of a read, where null has none.
abbrev pub bytes_of : Option Bytes → Bytes
bytes_of none = []
bytes_of (some b) = b

cut_buffered_lem :
    (n : ℕ) (buffered : Bytes) (pieces : List Bytes)
    → (n ≤ length buffered) ⊎ (pieces ≡ [])
    → (bytes_of ((cut_buffered n buffered pieces).0) ≡ take n (buffered ++ concat pieces))
      × (content ((cut_buffered n buffered pieces).1) ≡ drop n (buffered ++ concat pieces))
unfolding cut_buffered
cut_buffered_lem n [] pieces h =
    let cut =
      cut_first n [] (concat pieces) (elim h [ inl l ↦ inl l | inr e ↦ inr (ap concat e) ]) in
    let none_taken : min n 0 ≡ 0 = omega arith in simp none_taken at cut
cut_buffered_lem n (b ∷ bs) pieces h =
    cut_first n (b ∷ bs) (concat pieces) (elim h [ inl l ↦ inl l | inr e ↦ inr (ap concat e) ])

-- A read gives the next bytes of the stream, however it was cut, as many as asked for or as are left.
pub read_exact_lem :
    (n : ℕ) (reader : StreamByteReader)
    → (bytes_of ((read_exact n reader).0) ≡ take n (content reader))
      × (content ((read_exact n reader).1) ≡ drop n (content reader))
unfolding read_exact
read_exact_lem n reader =
    let filled = fill n reader.buffered reader.pieces in
    let same = content-fill n reader.buffered reader.pieces in
    let cut =
      cut_buffered_lem n filled.buffered filled.pieces
        (IsFilled-fill n reader.buffered reader.pieces) in
    (cut.0 ∙ ap (take n) same, cut.1 ∙ ap (drop n) same)

pub exactly_lem :
    (n : ℕ) (read : Option Bytes)
    → 0 < n
    → exactly n read ≡ (
        if length (bytes_of read) == n
        then ok (bytes_of read)
        else throw (Failure.invalid "ended early"))
unfolding exactly
exactly_lem n none h = ground arith
exactly_lem n (some chunk) h = refl

pub at_least_lem :
    (n : ℕ) (read : Option Bytes)
    → 0 < n
    → at_least n read ≡ (
        if ltb (length (bytes_of read)) n
        then throw (Failure.invalid "ended early")
        else ok (bytes_of read))
unfolding at_least
at_least_lem n none h = ground arith
at_least_lem n (some chunk) h = refl
