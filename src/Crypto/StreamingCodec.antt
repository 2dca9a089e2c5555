-- ===== src/Crypto/StreamingCodec.antt =====
-- crypto/streaming-codec.ts: an object is encrypted and decrypted as its bytes arrive. A generator is
-- what it yields until it returns or throws.
pub mod Decrypt
pub mod Encrypt
pub mod HashCheck
use mathlib.Core.Option
use sync.Prelude.{
  ℕ, zero, suc, ◌+◌, ◌-◌, ◌*◌, Bool, true, false, not, ◌||◌, Option, none, some, String, List, [],
  ◌∷◌, ◌++◌, ltb, if◌then◌else◌, length, ◌==◌, nat_eq, option_eq, string_eq,
}
use sync.Errors.{Failure, Result, ok, throw, ◌>>=◌}
use sync.Crypto.Bytes.{Bytes, concat, read_le}
use sync.Crypto.Sodium.{Sodium, aead_tag_bytes}
use sync.Crypto.StreamReader.{StreamByteReader, reader_of, read_exact, exactly, at_least}
use sync.Crypto.ChunkedCodec.{
  ChunkedHeader, derive_object_key, encode_header, decode_header, ceil_div, chunk_count, turns,
  plaintext_chunk_length, encrypt_chunk, decrypt_chunk,
}

unfoldable pub encrypted_size : ℕ → ℕ → ℕ → ℕ
unfolding ceil_div turns
encrypted_size total_plaintext_size context_length chunk_size =
    let header_size = 4 + 1 + 1 + context_length + 4 + 8 in
    let total_chunks = turns (ceil_div total_plaintext_size chunk_size) 0 in
    header_size + total_plaintext_size + total_chunks * aead_tag_bytes

-- `aborted` is what `signal` says as a chunk is begun; `on_plaintext_hash` is whether there is a
-- callback.
pub record EncryptStreamOptions : Type 0 where
  pub chunk_size : ℕ
  pub expected_hash : Option String
  pub on_plaintext_hash : Bool
  pub aborted : ℕ → Bool

-- `reported` is what the callback was given, and `abandoned` that the source was destroyed early.
pub record Generated : Type 0 where
  pub yielded : List Bytes
  pub reported : Option String
  pub abandoned : Bool
  pub outcome : Result (Unit {0})

unfoldable pub finished : Generated
finished = record { yielded = []; reported = none; abandoned = false; outcome = ok tt }

unfoldable pub yielding : Bytes → Generated → Generated
yielding chunk g = record {
  yielded = chunk ∷ g.yielded;
  reported = g.reported;
  abandoned = g.abandoned;
  outcome = g.outcome;
}

unfoldable pub reporting : Option String → Generated → Generated
reporting none g = g
reporting (some digest) g = record {
  yielded = g.yielded;
  reported = some digest;
  abandoned = g.abandoned;
  outcome = g.outcome;
}

unfoldable pub abandon : Generated → Generated
abandon g = record {
  yielded = g.yielded;
  reported = g.reported;
  abandoned = true;
  outcome = g.outcome;
}

unfoldable pub throwing : Failure → Generated
throwing e = record { yielded = []; reported = none; abandoned = false; outcome = throw e }

unfoldable pub after {ℓ} : {A : Type ℓ} → Result A → (A → Generated) → Generated
unfolding throwing
after (ok a) rest = rest a
after (throw e) rest = throwing e

unfoldable pub differs : Option String → String → Bool
differs none actual = false
differs (some expected) actual = not (actual == expected)

module _ (sodium : Sodium) where
  -- Without a hasher there is nothing to finish.
  unfoldable pub finish_hash :
      Option sodium.HashState → EncryptStreamOptions → Result (Option String)
  unfolding differs
  finish_hash none options = ok none
  finish_hash (some hasher) options =
      let actual = sodium.hex (sodium.hash_final hasher) in
      if differs options.expected_hash actual
      then throw (Failure.invalid "plaintext hash does not match the expected")
      else ok (if options.on_plaintext_hash then some actual else none)

  unfoldable pub new_hasher : EncryptStreamOptions → Option sodium.HashState
  new_hasher options =
      if not (options.expected_hash == none) || options.on_plaintext_hash
      then some sodium.hash_init
      else none

  unfoldable pub update_hasher : Option sodium.HashState → Bytes → Option sodium.HashState
  update_hasher none chunk = none
  update_hasher (some hasher) chunk = some (sodium.hash_update hasher chunk)

  -- The loop over the chunks from `i` on, of which so many are left.
  unfoldable pub encrypt_stream_chunks :
      EncryptStreamOptions
      → ℕ
      → Bytes
      → ℕ
      → ℕ
      → ℕ
      → StreamByteReader
      → Option sodium.HashState
      → Generated
  unfolding abandon throwing after exactly read_exact update_hasher finish_hash reporting yielding
      encrypt_chunk finished
  encrypt_stream_chunks options total object_key total_chunks zero i reader hasher = finished
  encrypt_stream_chunks options total object_key total_chunks (suc left) i reader hasher =
      let is_last = suc i == total_chunks in
      let len = if is_last then total - options.chunk_size * i else options.chunk_size in
      let read = read_exact len reader in
      if options.aborted i
      then abandon (throwing Failure.aborted)
      else after (exactly len (read.0)) λ chunk.
        let hashed = update_hasher hasher chunk in
        after (if is_last then finish_hash hashed options else ok none) λ digest. reporting digest (
          yielding (encrypt_chunk sodium chunk object_key i) (
            encrypt_stream_chunks options total object_key total_chunks left (suc i) (read.1)
              hashed))

  -- The header is made before the generator starts.
  unfoldable pub encrypt_stream :
      List Bytes → ℕ → Bytes → Bytes → EncryptStreamOptions → Result Generated
  unfolding derive_object_key encode_header ceil_div turns new_hasher encrypt_stream_chunks
      reader_of
  encrypt_stream source total master_key context options =
      let object_key = derive_object_key sodium master_key context in
      let total_chunks = turns (ceil_div total options.chunk_size) 0 in
      let hasher = new_hasher options in
      encode_header context options.chunk_size total >>= λ header. ok (
        if total_chunks == 0
        then after (finish_hash hasher options)
            (λ digest. reporting digest (abandon (yielding header finished)))
        else yielding header (
            encrypt_stream_chunks options total object_key total_chunks total_chunks 0
              (reader_of source) hasher))

  unfoldable pub decrypt_stream_chunks :
      ChunkedHeader → Bytes → ℕ → ℕ → StreamByteReader → Generated
  unfolding plaintext_chunk_length read_exact after exactly decrypt_chunk yielding finished
  decrypt_stream_chunks header object_key zero i reader = finished
  decrypt_stream_chunks header object_key (suc left) i reader =
      let expected_len = plaintext_chunk_length header i + aead_tag_bytes in
      let read = read_exact expected_len reader in
      after (exactly expected_len (read.0)) λ ciphertext_chunk.
        after (decrypt_chunk sodium ciphertext_chunk object_key i) λ plaintext.
          yielding plaintext (decrypt_stream_chunks header object_key left (suc i) (read.1))

  unfoldable pub decrypt_stream : List Bytes → Bytes → Generated
  unfolding reader_of read_exact at_least after decode_header derive_object_key chunk_count turns
      decrypt_stream_chunks
  decrypt_stream source master_key =
      let prefix = read_exact 6 (reader_of source) in
      after (at_least 6 (prefix.0)) λ start.
        let context_len = read_le 1 start 5 in
        let tail = read_exact (context_len + 4 + 8) (prefix.1) in
        after (at_least (context_len + 4 + 8) (tail.0)) λ rest.
          after (decode_header (start ++ rest)) λ header.
            decrypt_stream_chunks header (derive_object_key sodium master_key header.context)
              (turns (chunk_count header) (length (concat source))) 0 (tail.1)
