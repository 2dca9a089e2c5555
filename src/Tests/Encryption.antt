-- ===== src/Tests/Encryption.antt =====
-- The codecs over a toy cipher that appends an empty tag: a text of three bytes in two chunks.
use native.Mathlib.Decide.{ℕ_discrete}
use mathlib.Core.List.{append_assoc, append-nil}
use sync.Prelude.{
  ◌-◌, ◌≡◌, refl, sym, ap, ◌∙◌, some, none, List, [], ◌∷◌, ◌++◌, true, false, length, take, drop,
  length-append, take_append_at, arith, nat_eq, string_eq, option_eq,
}
use sync.Errors.{Failure, ok, throw, ◌>>=◌}
use sync.Crypto.Bytes.{Bytes, concat, subarray, value_le, read_le, write_le}
use sync.Crypto.Sodium.{Sodium, IsDocumented, update_all}
use sync.Crypto.ChunkedCodec.{
  bytes_equal, encode_header, encrypt_chunk, decode_header, ceil_div, chunk_count, turns,
  chunk_byte_range, plaintext_chunk_length, derive_object_key, derive_subkey,
  derive_chunk_key_nonce, authenticated, decrypt_chunk, decrypt_chunks, encrypt_buffer,
  decrypt_buffer,
}
use sync.Crypto.ChunkedCodec.RoundTrip.{decrypt_buffer-encrypt_buffer}
use sync.Crypto.StreamReader.{reader_of, fill, cut_buffered, read_exact, exactly}
use sync.Crypto.StreamingCodec.{
  EncryptStreamOptions, Generated, differs, after, throwing, yielding, reporting, new_hasher,
  update_hasher, finish_hash, encrypt_stream_chunks, encrypt_stream, encrypted_size, decrypt_stream,
}
use sync.Crypto.StreamingCodec.Encrypt.{encrypt_stream_lem}
use sync.Crypto.StreamingCodec.Decrypt.{decrypt_stream_lem}
use sync.Crypto.StreamingCodec.HashCheck.{Refuses, encrypt_stream-Refuses}

abbrev no_tag : Bytes
no_tag = 0 ∷ 0 ∷ 0 ∷ 0 ∷ 0 ∷ 0 ∷ 0 ∷ 0 ∷ 0 ∷ 0 ∷ 0 ∷ 0 ∷ 0 ∷ 0 ∷ 0 ∷ 0 ∷ []

abbrev toy : Sodium
toy = record {
  generichash_keyed = λ message key. message;
  generichash = λ message. message;
  HashState = Bytes;
  hash_init = [];
  hash_update = λ state chunk. state ++ chunk;
  hash_final = λ state. state;
  kdf_derive_from_key = λ len subkey_id context key. [];
  aead_encrypt = λ plain nonce key. plain ++ no_tag;
  aead_decrypt = λ cipher nonce key. some (take (length cipher - 16) cipher);
  hex = λ digest. "0a";
}

toy-update_all :
    (state : Bytes) (parts : List Bytes) → update_all toy state parts ≡ state ++ concat parts
toy-update_all state [] = sym (append-nil state)
toy-update_all state (p ∷ parts) =
    toy-update_all (state ++ p) parts ∙ append_assoc state p (concat parts)

toy-IsDocumented : IsDocumented toy
toy-IsDocumented = record {
  length-aead_encrypt = λ plain nonce key. length-append plain no_tag;
  aead_decrypt-aead_encrypt = λ plain nonce key.
      let long = length-append plain no_tag in
      let tagless : length (plain ++ no_tag) - 16 ≡ length plain = omega (arith, long) in
      ap some (
        ap (λ n. take n (plain ++ no_tag)) tagless
        ∙ take_append_at (length plain) plain no_tag refl);
  hash_final-update_all = toy-update_all [];
}

abbrev text : Bytes
text = 10 ∷ 20 ∷ 30 ∷ []

abbrev context : Bytes
context = 7 ∷ []

abbrev encoded : Bytes
encoded =
    83
    ∷ 89
    ∷ 49
    ∷ 67
    ∷ 1
    ∷ 1
    ∷ 7
    ∷ 2
    ∷ 0
    ∷ 0
    ∷ 0
    ∷ 3
    ∷ 0
    ∷ 0
    ∷ 0
    ∷ 0
    ∷ 0
    ∷ 0
    ∷ 0
    ∷ (10 ∷ 20 ∷ no_tag ++ (30 ∷ no_tag))

abbrev options : EncryptStreamOptions
options = record {
  chunk_size = 2;
  expected_hash = none;
  on_plaintext_hash = true;
  aborted = λ i. false;
}

decrypted : decrypt_buffer toy encoded [] ≡ ok text
unfolding decrypt_buffer bytes_equal decode_header ceil_div chunk_count turns chunk_byte_range
    plaintext_chunk_length derive_object_key derive_subkey derive_chunk_key_nonce authenticated
    decrypt_chunk decrypt_chunks subarray value_le read_le nat_eq ℕ_discrete option_eq
decrypted = refl

decrypt_buffer-encrypt_buffer_example :
    (encrypt_buffer toy text [] context 2 >>= λ e. decrypt_buffer toy e []) ≡ ok text
decrypt_buffer-encrypt_buffer_example =
    decrypt_buffer-encrypt_buffer toy toy-IsDocumented text [] context 2 (omega arith) (omega arith)
      (omega arith) (omega arith)

encrypt_stream_lem_example :
    (g : Generated) × (encrypt_stream toy
        ((10 ∷ []) ∷ [] ∷ (20 ∷ 30 ∷ []) ∷ [])
        3
        []
        context
        options
      ≡ ok g)
    × (g.outcome ≡ ok tt)
    × (encrypt_buffer toy text [] context 2 ≡ ok (concat g.yielded))
    × (length (concat g.yielded) ≡ encrypted_size 3 1 2)
encrypt_stream_lem_example =
    encrypt_stream_lem toy toy-IsDocumented ((10 ∷ []) ∷ [] ∷ (20 ∷ 30 ∷ []) ∷ []) text [] context
      options (omega arith) (omega arith) (omega arith) (omega arith) refl (unfold differs in refl)
      (λ i. refl)

decrypt_stream_lem_example :
    (concat ((decrypt_stream toy (take 9 encoded ∷ [] ∷ drop 9 encoded ∷ []) []).yielded) ≡ text)
    × ((decrypt_stream toy (take 9 encoded ∷ [] ∷ drop 9 encoded ∷ []) []).outcome ≡ ok tt)
decrypt_stream_lem_example =
    decrypt_stream_lem toy (take 9 encoded ∷ [] ∷ drop 9 encoded ∷ []) encoded [] text refl
      decrypted

abbrev wary : EncryptStreamOptions
wary = record {
  chunk_size = 2;
  expected_hash = some "0b";
  on_plaintext_hash = false;
  aborted = λ i. false;
}

abbrev refused : Generated
refused = record {
  yielded = take 19 encoded ∷ (10 ∷ 20 ∷ no_tag) ∷ [];
  reported = none;
  abandoned = false;
  outcome = throw (Failure.invalid "plaintext hash does not match the expected");
}

other_hash : differs wary.expected_hash "0a" ≡ true
unfolding differs string_eq
other_hash = refl

runs : encrypt_stream toy (text ∷ []) 3 [] context wary ≡ ok refused
unfolding encrypt_stream encode_header write_le turns ceil_div derive_object_key new_hasher
    encrypt_stream_chunks reader_of read_exact fill cut_buffered exactly after throwing yielding
    reporting update_hasher finish_hash encrypt_chunk derive_chunk_key_nonce derive_subkey subarray
    differs nat_eq ℕ_discrete option_eq string_eq
runs = refl

encrypt_stream-Refuses_example : Refuses refused 2
encrypt_stream-Refuses_example =
    encrypt_stream-Refuses toy toy-IsDocumented (text ∷ []) 3 [] context wary 2 refused
      (omega arith) (unfold ceil_div in refl) other_hash runs
