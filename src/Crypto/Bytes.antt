-- ===== src/Crypto/Bytes.antt =====
-- Node's `Buffer` as the codecs use it: a list of numbers, cut by `subarray` and read and written as
-- little-endian integers.
use sync.Prelude.{
  ℕ, zero, suc, ◌+◌, ◌-◌, ◌*◌, ◌/◌, ◌%◌, ◌^◌, ◌≤◌, ◌<◌, List, [], ◌∷◌, ◌++◌, ◌≡◌, refl, length,
  take, drop, arith, take_append_at, drop_append_at, take-append, drop-append, length-drop,
  length-take, take-append-drop, sym, ap, ◌∙◌,
}

abbrev pub Bytes : Type 0
Bytes = List ℕ

abbrev pub concat : List Bytes → Bytes
concat [] = []
concat (b ∷ bs) = b ++ concat bs

-- `buf.subarray(start, end)`, which ends at the end of the buffer.
unfoldable pub subarray : Bytes → ℕ → ℕ → Bytes
subarray buf start end = take (end - start) (drop start buf)

-- `writeUInt8`, `writeUInt32LE` and `writeBigUInt64LE` write 1, 4 and 8 bytes of a number in range.
unfoldable pub write_le : ℕ → ℕ → Bytes
write_le zero n = []
write_le (suc width) n = n % 256 ∷ write_le width (n / 256)

unfoldable pub value_le : Bytes → ℕ
value_le [] = 0
value_le (b ∷ bs) = b + 256 * value_le bs

-- `readUInt8`, `readUInt32LE` and `readBigUInt64LE` at an offset.
unfoldable pub read_le : ℕ → Bytes → ℕ → ℕ
unfolding value_le
read_le width buf offset = value_le (take width (drop offset buf))

pub length-write_le : (width n : ℕ) → length (write_le width n) ≡ width
unfolding write_le
length-write_le zero n = refl
length-write_le (suc width) n = omega (arith, length-write_le width (n / 256))

pub value_le-write_le : (width n : ℕ) → n < 256 ^ width → value_le (write_le width n) ≡ n
unfolding write_le value_le
value_le-write_le zero n h = omega arith
value_le-write_le (suc width) n h =
    let ih = value_le-write_le width (n / 256) (grind arith) in omega (arith, ih)

-- A cut at the ends of the middle part of an append gives that part.
pub subarray_at :
    (start end : ℕ) (before middle after : Bytes)
    → length before ≡ start
    → start + length middle ≡ end
    → subarray (before ++ (middle ++ after)) start end ≡ middle
unfolding subarray
subarray_at start end before middle after hs he =
    rw (drop_append_at start before (middle ++ after) hs)
      (take_append_at (end - start) middle after (omega arith))

pub subarray_from :
    (buf : Bytes) (start n : ℕ) → subarray buf start (start + n) ≡ take n (drop start buf)
unfolding subarray
subarray_from buf start n =
    let same : start + n - start ≡ n = omega arith in ap (λ k. take k (drop start buf)) same

-- The number at an offset is that of the bytes there.
pub read_le_at :
    (width offset : ℕ) (before middle after : Bytes)
    → length before ≡ offset
    → length middle ≡ width
    → read_le width (before ++ (middle ++ after)) offset ≡ value_le middle
unfolding read_le
read_le_at width offset before middle after ho hw =
    rw (drop_append_at offset before (middle ++ after) ho)
      (ap value_le (take_append_at width middle after hw))

pub read_le-write_le :
    (width n offset : ℕ) (before after : Bytes)
    → length before ≡ offset
    → n < 256 ^ width
    → read_le width (before ++ (write_le width n ++ after)) offset ≡ n
read_le-write_le width n offset before after ho h =
    read_le_at width offset before (write_le width n) after ho (length-write_le width n)
    ∙ value_le-write_le width n h

-- What stands in the first part of an append is read in that part.
pub subarray-append :
    (start end : ℕ) (before after : Bytes)
    → start ≤ end
    → end ≤ length before
    → subarray (before ++ after) start end ≡ subarray before start end
unfolding subarray
subarray-append start end before after h inside =
    ap (take (end - start)) (drop-append start before after (omega arith))
    ∙ take-append (end - start) (drop start before) after
        (rw (length-drop start before) (omega arith))

pub read_le-append :
    (width offset : ℕ) (before after : Bytes)
    → offset + width ≤ length before
    → read_le width (before ++ after) offset ≡ read_le width before offset
unfolding read_le
read_le-append width offset before after inside =
    ap (λ b. value_le (take width b)) (drop-append offset before after (omega arith))
    ∙ ap value_le (
        take-append width (drop offset before) after (rw (length-drop offset before) (omega arith)))

pub read_le-take :
    (width offset n : ℕ) (buf : Bytes)
    → offset + width ≤ n
    → n ≤ length buf
    → read_le width (take n buf) offset ≡ read_le width buf offset
read_le-take width offset n buf inside enough =
    sym
      (read_le-append width offset (take n buf) (drop n buf) (rw (length-take n buf) (omega arith)))
    ∙ ap (λ b. read_le width b offset) (take-append-drop n buf)
