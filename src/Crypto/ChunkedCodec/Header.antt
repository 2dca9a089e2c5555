-- ===== src/Crypto/ChunkedCodec/Header.antt =====
-- The header of an encrypted object is read back as it was written.
use mathlib.Core.List.{append_assoc}
use sync.Prelude.{
  length-take, take-append-drop, not, String, le_of_not-ltb, not-ltb_of_le, ℕ, ◌+◌, ◌^◌, ◌≤◌, ◌<◌,
  List, [], ◌∷◌, ◌++◌, ◌≡◌, refl, ltb, length, take, drop, length-append, arith, ◌==◌, ap, sym, ◌∙◌,
  true, nat_eq,
}
use native.Mathlib.Decide.{ℕ_discrete}
use sync.Errors.{Failure, ok, guard-ok, ok-injective}
use sync.Crypto.Bytes.{
  Bytes, subarray, write_le, value_le, read_le, length-write_le, subarray_at, read_le_at,
  read_le-write_le, read_le-append, subarray-append, read_le-take,
}
use sync.Crypto.ChunkedCodec.{
  magic, format_version, ChunkedHeader, bytes_equal, encode_header, decode_header,
}

-- What `encodeHeader` returns when it does not throw.
abbrev pub header_bytes : Bytes → ℕ → ℕ → Bytes
header_bytes context chunk_size total =
    magic
    ++ (write_le 1 format_version
        ++ (write_le 1 (length context)
            ++ (context ++ (write_le 4 chunk_size ++ write_le 8 total))))

pub encode_header-ok :
    (context : Bytes) (chunk_size total : ℕ)
    → length context ≤ 255
    → chunk_size < 256 ^ 4
    → total < 256 ^ 8
    → encode_header context chunk_size total ≡ ok (header_bytes context chunk_size total)
unfolding encode_header
encode_header-ok context chunk_size total hc hs ht = ground arith

pub length-header_bytes :
    (context : Bytes) (chunk_size total : ℕ)
    → length (header_bytes context chunk_size total) ≡ 18 + length context
length-header_bytes context chunk_size total = simp (length-append, length-write_le) (omega arith)

-- The bytes of a header whose context has this length, up to the context.
abbrev prefix : Bytes → Bytes
prefix context = 83 ∷ 89 ∷ 49 ∷ 67 ∷ 1 ∷ length context ∷ context

abbrev pub parsed : Bytes → ℕ → ℕ → ChunkedHeader
parsed context chunk_size total = record {
  format_version = format_version;
  context = context;
  chunk_size = chunk_size;
  total_plaintext_size = total;
  header_size = 6 + length context + 4 + 8;
}

magic_equal : bytes_equal magic magic ≡ true
unfolding bytes_equal nat_eq ℕ_discrete
magic_equal = refl

decode_header-prefix :
    (context : Bytes) (chunk_size total : ℕ) (rest : Bytes)
    → chunk_size < 256 ^ 4
    → total < 256 ^ 8
    → decode_header (prefix context ++ (write_le 4 chunk_size ++ (write_le 8 total ++ rest)))
      ≡ ok (parsed context chunk_size total)
unfolding decode_header value_le
decode_header-prefix context chunk_size total rest hs ht =
    let after = write_le 8 total ++ rest in
    let tail = write_le 4 chunk_size ++ after in
    let start : List ℕ = 83 ∷ 89 ∷ 49 ∷ 67 ∷ 1 ∷ [] in
    let marked : subarray (prefix context ++ tail) 0 4 ≡ magic =
      subarray_at 0 4 [] magic (1 ∷ length context ∷ context ++ tail) refl refl in
    let version : read_le 1 (prefix context ++ tail) 4 ≡ 1 =
      read_le_at 1 4 magic (1 ∷ []) (length context ∷ context ++ tail) refl refl ∙ omega arith in
    let context_len : read_le 1 (prefix context ++ tail) 5 ≡ length context =
      read_le_at 1 5 start (length context ∷ []) (context ++ tail) refl refl ∙ omega arith in
    let context_read : subarray (prefix context ++ tail) 6 (6 + length context) ≡ context =
      subarray_at 6 (6 + length context) (start ++ (length context ∷ [])) context tail refl refl in
    let size_read : read_le 4 (prefix context ++ tail) (6 + length context) ≡ chunk_size =
      read_le-write_le 4 chunk_size (6 + length context) (prefix context) after (omega arith) hs in
    let total_read : read_le 8 (prefix context ++ tail) (6 + length context + 4) ≡ total =
      ap (λ b. read_le 8 b (6 + length context + 4))
        (sym (append_assoc (prefix context) (write_le 4 chunk_size) after))
      ∙ read_le-write_le 8 total (6 + length context + 4) (prefix context ++ write_le 4 chunk_size)
          rest (simp (length-append, length-write_le) (omega arith)) ht in
    let long : 18 + length context ≤ length (prefix context ++ tail) =
      simp (length-append, length-write_le) (omega arith) in
    rw (marked, version, context_len, context_read, size_read, total_read, magic_equal)
      (ground (arith, long))

-- What encodeHeader wrote is read back, whatever follows it.
pub decode_header-header_bytes :
    (context : Bytes) (chunk_size total : ℕ) (rest : Bytes)
    → length context ≤ 255
    → chunk_size < 256 ^ 4
    → total < 256 ^ 8
    → decode_header (header_bytes context chunk_size total ++ rest)
      ≡ ok (parsed context chunk_size total)
decode_header-header_bytes context chunk_size total rest hc hs ht =
    let one : write_le 1 format_version ≡ 1 ∷ [] = unfold write_le in refl in
    let byte : write_le 1 (length context) ≡ length context ∷ [] =
      unfold write_le in ap (λ (n : ℕ). n ∷ []) (omega arith) in
    simp (append_assoc, one, byte) (decode_header-prefix context chunk_size total rest hs ht)

size_of :
    (read header : ChunkedHeader) → ok read ≡ ok header → header.header_size ≡ read.header_size
size_of read header h = sym (ap (λ (hd : ChunkedHeader). hd.header_size) (ok-injective h))

-- A header that is read was long enough for its context, and its size says so.
pub decode_header-ok :
    (buf : Bytes) (header : ChunkedHeader)
    → decode_header buf ≡ ok header
    → (6 ≤ length buf)
      × (6 + read_le 1 buf 5 + 4 + 8 ≤ length buf)
      × (header.header_size ≡ 6 + read_le 1 buf 5 + 4 + 8)
unfolding decode_header
decode_header-ok buf header h =
    let invalid = λ (text : String). Failure.invalid text in
    let six = guard-ok (ltb (length buf) 6) _ _ header h in
    let marked =
      guard-ok (not (bytes_equal (subarray buf 0 4) magic)) (invalid "bad magic bytes") _ header
        (six.1) in
    let version =
      guard-ok (not (read_le 1 buf 4 == format_version))
        (invalid "unsupported chunked-encryption format version") _ header (marked.1) in
    let full =
      guard-ok (ltb (length buf) (6 + read_le 1 buf 5 + 4 + 8))
        (invalid "buffer too short to contain the full chunked-encryption header") _ header
        (version.1) in
    (
      le_of_not-ltb (length buf) 6 (six.0),
      le_of_not-ltb (length buf) (6 + read_le 1 buf 5 + 4 + 8) (full.0),
      size_of _ header (full.1),
    )

-- What follows a header is not read with it.
pub decode_header-append :
    (buf rest : Bytes)
    → 6 ≤ length buf
    → 6 + read_le 1 buf 5 + 4 + 8 ≤ length buf
    → decode_header (buf ++ rest) ≡ decode_header buf
unfolding decode_header
decode_header-append buf rest h long =
    let context_len = read_le-append 1 5 buf rest (omega arith) in
    let version = read_le-append 1 4 buf rest (omega arith) in
    let marked = subarray-append 0 4 buf rest (omega arith) (omega arith) in
    let context = subarray-append 6 (6 + read_le 1 buf 5) buf rest (omega arith) (omega arith) in
    let size = read_le-append 4 (6 + read_le 1 buf 5) buf rest (omega arith) in
    let total = read_le-append 8 (6 + read_le 1 buf 5 + 4) buf rest (omega arith) in
    let long_both = length-append buf rest in
    let six = not-ltb_of_le (length buf) 6 h in
    let six_both = not-ltb_of_le (length (buf ++ rest)) 6 (omega (arith, long_both)) in
    let full = not-ltb_of_le (length buf) (6 + read_le 1 buf 5 + 4 + 8) long in
    let full_both =
      not-ltb_of_le (length (buf ++ rest)) (6 + read_le 1 buf 5 + 4 + 8)
        (omega (arith, long_both)) in
    rw (context_len, version, marked, context, size, total, six, six_both, full, full_both) refl

pub decode_header-take :
    (n : ℕ) (buf : Bytes)
    → n ≤ length buf
    → 6 + read_le 1 buf 5 + 4 + 8 ≤ n
    → decode_header (take n buf) ≡ decode_header buf
decode_header-take n buf enough inside =
    let cut = length-take n buf in
    let same = read_le-take 1 5 n buf (omega arith) enough in
    sym (
      decode_header-append (take n buf) (drop n buf) (omega (arith, cut))
        (omega (arith, cut, same)))
    ∙ ap decode_header (take-append-drop n buf)
