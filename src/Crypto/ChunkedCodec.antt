-- ===== src/Crypto/ChunkedCodec.antt =====
-- crypto/chunked-codec.ts and `deriveSubkey` of crypto/subkey.ts: an object is a header and chunks that
-- are each encrypted under a key and a nonce of their own. Plaintext sizes are exact, as JavaScript's
-- numbers are up to 2^53.
pub mod Header
pub mod Counts
pub mod RoundTrip
use sync.Prelude.{
  ℕ, zero, suc, ◌+◌, ◌-◌, ◌*◌, ◌/◌, ◌%◌, ◌^◌, min, Bool, true, false, not, Option, none, some, List,
  [], ◌∷◌, ◌++◌, ltb, leb, if◌then◌else◌, length, ◌==◌, nat_eq, option_eq,
}
use sync.Errors.{Failure, Result, ok, throw, ◌>>=◌, ◌>>◌}
use sync.Crypto.Bytes.{Bytes, concat, subarray, write_le, read_le}
use sync.Crypto.Sodium.{Sodium, aead_key_bytes, aead_nonce_bytes, aead_tag_bytes}

-- `Buffer.from("SY1C", "ascii")`
abbrev pub magic : Bytes
magic = 83 ∷ 89 ∷ 49 ∷ 67 ∷ []

abbrev pub format_version : ℕ
format_version = 1

-- "sy1obj01"
abbrev pub chunk_kdf_context : Bytes
chunk_kdf_context = 115 ∷ 121 ∷ 49 ∷ 111 ∷ 98 ∷ 106 ∷ 48 ∷ 49 ∷ []

abbrev pub default_chunk_size : ℕ
default_chunk_size = 4_194_304

pub record ChunkedHeader : Type 0 where
  pub format_version : ℕ
  pub context : Bytes
  pub chunk_size : ℕ
  pub total_plaintext_size : ℕ
  pub header_size : ℕ

unfoldable pub bytes_equal : Bytes → Bytes → Bool
bytes_equal [] [] = true
bytes_equal [] (b ∷ bs) = false
bytes_equal (a ∷ xs) [] = false
bytes_equal (a ∷ xs) (b ∷ bs) = if a == b then bytes_equal xs bs else false

-- `writeUInt32LE` and `writeBigUInt64LE` throw on a number that is out of range.
unfoldable pub encode_header : Bytes → ℕ → ℕ → Result Bytes
encode_header context chunk_size total_plaintext_size =
    if ltb 255 (length context)
    then throw (Failure.invalid "context too long")
    else if leb (256 ^ 4) chunk_size
    then throw (Failure.invalid "ERR_OUT_OF_RANGE")
    else if leb (256 ^ 8) total_plaintext_size
    then throw (Failure.invalid "ERR_OUT_OF_RANGE")
    else ok (
        magic
        ++ (write_le 1 format_version
            ++ (write_le 1 (length context)
                ++ (context ++ (write_le 4 chunk_size ++ write_le 8 total_plaintext_size)))))

unfoldable pub decode_header : Bytes → Result ChunkedHeader
unfolding bytes_equal
decode_header buf =
    let context_len = read_le 1 buf 5 in
    let tail_offset = 6 + context_len in
    if ltb (length buf) 6
    then throw (Failure.invalid "buffer too short to contain a chunked-encryption header")
    else if not (bytes_equal (subarray buf 0 4) magic)
    then throw (Failure.invalid "bad magic bytes")
    else if not (read_le 1 buf 4 == format_version)
    then throw (Failure.invalid "unsupported chunked-encryption format version")
    else if ltb (length buf) (tail_offset + 4 + 8)
    then throw (Failure.invalid "buffer too short to contain the full chunked-encryption header")
    else ok record {
      format_version = read_le 1 buf 4;
      context = subarray buf 6 tail_offset;
      chunk_size = read_le 4 buf tail_offset;
      total_plaintext_size = read_le 8 buf (tail_offset + 4);
      header_size = tail_offset + 4 + 8;
    }

-- `Math.ceil(size / chunkSize)`: `none` is Infinity, and zero stands for the NaN of 0 / 0, since no
-- index is below either.
unfoldable pub ceil_div : ℕ → ℕ → Option ℕ
ceil_div size (suc n) = some ((size + n) / suc n)
ceil_div zero zero = some 0
ceil_div (suc size) zero = none

unfoldable pub chunk_count : ChunkedHeader → Option ℕ
unfolding ceil_div
chunk_count header = ceil_div header.total_plaintext_size header.chunk_size

-- How often a loop up to a count runs: where the count is Infinity, each turn takes off a tag, so that
-- the turn after the last byte is not reached.
unfoldable pub turns : Option ℕ → ℕ → ℕ
turns (some count) available = count
turns none available = suc available

unfoldable pub chunk_byte_range : ChunkedHeader → ℕ → ℕ × ℕ
chunk_byte_range header chunk_index =
    let ciphertext_chunk_size = header.chunk_size + aead_tag_bytes in
    let start = header.header_size + chunk_index * ciphertext_chunk_size in
    (start, start + ciphertext_chunk_size)

unfoldable pub plaintext_chunk_length : ChunkedHeader → ℕ → ℕ
unfolding chunk_count
plaintext_chunk_length header chunk_index =
    let remainder = header.total_plaintext_size % header.chunk_size in
    if not (chunk_count header == some (suc chunk_index))
    then header.chunk_size
    else if remainder == 0
    then header.chunk_size
    else remainder

unfoldable pub authenticated : Option Bytes → Result Bytes
authenticated (some plaintext) = ok plaintext
authenticated none = throw Failure.crypto_auth

module _ (sodium : Sodium) where
  unfoldable pub derive_object_key : Bytes → Bytes → Bytes
  derive_object_key master_key context = sodium.generichash_keyed context master_key

  -- `crypto_kdf_CONTEXTBYTES` is 8, the length of the only context.
  unfoldable pub derive_subkey : Bytes → ℕ → Bytes → ℕ → Bytes
  derive_subkey key subkey_id context output_length =
      sodium.kdf_derive_from_key output_length subkey_id context key

  unfoldable pub derive_chunk_key_nonce : Bytes → ℕ → Bytes × Bytes
  unfolding derive_subkey subarray
  derive_chunk_key_nonce object_key chunk_index =
      let combined =
        derive_subkey object_key chunk_index chunk_kdf_context
          (aead_key_bytes + aead_nonce_bytes) in
      (
        subarray combined 0 aead_key_bytes,
        subarray combined aead_key_bytes (aead_key_bytes + aead_nonce_bytes),
      )

  unfoldable pub encrypt_chunk : Bytes → Bytes → ℕ → Bytes
  unfolding derive_chunk_key_nonce
  encrypt_chunk plaintext object_key chunk_index =
      let derived = derive_chunk_key_nonce object_key chunk_index in
      sodium.aead_encrypt plaintext (derived.1) (derived.0)

  unfoldable pub decrypt_chunk : Bytes → Bytes → ℕ → Result Bytes
  unfolding derive_chunk_key_nonce authenticated
  decrypt_chunk ciphertext object_key chunk_index =
      let derived = derive_chunk_key_nonce object_key chunk_index in
      authenticated (sodium.aead_decrypt ciphertext (derived.1) (derived.0))

  -- The loop over the chunks from `i` on, of which so many are left.
  unfoldable pub encrypt_chunks : Bytes → ℕ → Bytes → ℕ → ℕ → List Bytes
  unfolding encrypt_chunk subarray
  encrypt_chunks plaintext chunk_size object_key zero i = []
  encrypt_chunks plaintext chunk_size object_key (suc left) i =
      let start = i * chunk_size in
      let end = min (start + chunk_size) (length plaintext) in
      encrypt_chunk (subarray plaintext start end) object_key i
      ∷ encrypt_chunks plaintext chunk_size object_key left (suc i)

  -- The loop of an Infinity of chunks does not end; no caller passes a chunk size of zero.
  unfoldable pub encrypt_buffer : Bytes → Bytes → Bytes → ℕ → Result Bytes
  unfolding derive_object_key encode_header ceil_div turns encrypt_chunks
  encrypt_buffer plaintext master_key context chunk_size =
      let object_key = derive_object_key master_key context in
      let total_chunks = turns (ceil_div (length plaintext) chunk_size) 0 in
      encode_header context chunk_size (length plaintext) >>= λ header.
      ok (header ++ concat (encrypt_chunks plaintext chunk_size object_key total_chunks 0))

  unfoldable pub decrypt_chunks : ChunkedHeader → Bytes → Bytes → ℕ → ℕ → Result (List Bytes)
  unfolding chunk_byte_range plaintext_chunk_length subarray decrypt_chunk
  decrypt_chunks header encoded object_key zero i = ok []
  decrypt_chunks header encoded object_key (suc left) i =
      let range = chunk_byte_range header i in
      let ciphertext_chunk = subarray encoded (range.0) (range.1) in
      let expected_len = plaintext_chunk_length header i + aead_tag_bytes in
      if not (length ciphertext_chunk == expected_len)
      then throw (Failure.invalid "truncated object?")
      else decrypt_chunk ciphertext_chunk object_key i >>= λ plaintext.
          decrypt_chunks header encoded object_key left (suc i) >>= λ rest. ok (plaintext ∷ rest)

  unfoldable pub decrypt_buffer : Bytes → Bytes → Result Bytes
  unfolding decode_header derive_object_key chunk_count turns decrypt_chunks
  decrypt_buffer encoded master_key = decode_header encoded >>= λ header.
      let object_key = derive_object_key master_key header.context in
      let total_chunks = turns (chunk_count header) (length encoded) in
      decrypt_chunks header encoded object_key total_chunks 0 >>= λ parts. ok (concat parts)
