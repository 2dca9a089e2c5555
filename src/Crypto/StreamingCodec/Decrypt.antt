-- ===== src/Crypto/StreamingCodec/Decrypt.antt =====
-- decryptStream against decryptBuffer.
use sync.Prelude.{
  ℕ, zero, suc, ◌+◌, ◌*◌, ◌<◌, not, List, ◌∷◌, ◌++◌, ◌≡◌, refl, sym, ap, ◌∙◌, if◌then◌else◌, length,
  take, drop, drop-drop, length-take, length-drop, ◌==◌, ==-refl, nat_eq, arith, take_again,
  drop_again, not-ltb_of_le, take_add, min,
}
use sync.Errors.{Failure, Result, ok, throw, ok-injective, bind-ok}
use sync.Crypto.Bytes.{Bytes, concat, subarray, subarray_from, read_le, read_le-take}
use sync.Crypto.Sodium.{Sodium, aead_tag_bytes}
use sync.Crypto.StreamReader.{
  StreamByteReader, reader_of, read_exact, exactly, at_least, content, read_exact_lem, exactly_lem,
  at_least_lem,
}
use sync.Crypto.ChunkedCodec.{
  ChunkedHeader, derive_object_key, decode_header, chunk_count, turns, chunk_byte_range,
  plaintext_chunk_length, decrypt_chunk, decrypt_chunks, decrypt_buffer,
}
use sync.Crypto.ChunkedCodec.Header.{decode_header-ok, decode_header-take}
use sync.Crypto.StreamingCodec.{
  Generated, yielding, finished, decrypt_stream_chunks, decrypt_stream,
}

-- A generator that ran to its end and yielded these.
abbrev pub Yields : Generated → List Bytes → Type 0
Yields g parts = (g.yielded ≡ parts) × (g.outcome ≡ ok tt)

pub Yields-yielding :
    (chunk : Bytes) (g : Generated) (parts : List Bytes)
    → Yields g parts
    → Yields (yielding chunk g) (chunk ∷ parts)
unfolding yielding
Yields-yielding chunk g parts h = (ap (λ p. chunk ∷ p) (h.0), h.1)

-- A full read of a stream that has that much.
pub exactly-read_exact :
    (n : ℕ) (reader : StreamByteReader) (chunk : Bytes)
    → 0 < n
    → take n (content reader) ≡ chunk
    → length chunk ≡ n
    → exactly n ((read_exact n reader).0) ≡ ok chunk
exactly-read_exact n reader chunk pos same full =
    let read = (read_exact_lem n reader).0 ∙ same in
    rw (exactly_lem n ((read_exact n reader).0) pos, read, full) (simp (==-refl) refl)

at_least-read_exact :
    (n : ℕ) (reader : StreamByteReader) (chunk : Bytes)
    → 0 < n
    → take n (content reader) ≡ chunk
    → length chunk ≡ n
    → at_least n ((read_exact n reader).0) ≡ ok chunk
at_least-read_exact n reader chunk pos same full =
    let read = (read_exact_lem n reader).0 ∙ same in
    let enough = not-ltb_of_le (length chunk) n (omega arith) in
    rw (at_least_lem n ((read_exact n reader).0) pos, read, enough) refl

checked :
    (m n : ℕ) (e : Failure) (rest : Result (List Bytes)) (parts : List Bytes)
    → (if not (m == n) then throw e else rest) ≡ ok parts
    → (m ≡ n) × (rest ≡ ok parts)
checked m n e rest parts h = ground arith

-- What a decryption that succeeds has read and done first.
module _ (sodium : Sodium) where
  cipher_at : ChunkedHeader → Bytes → ℕ → Bytes
  cipher_at header encoded i =
      subarray encoded ((chunk_byte_range header i).0) ((chunk_byte_range header i).1)

  decrypt_chunks-ok :
      (header : ChunkedHeader) (encoded object_key : Bytes) (left i : ℕ) (parts : List Bytes)
      → decrypt_chunks sodium header encoded object_key (suc left) i ≡ ok parts
      → (text : Bytes) × (rest : List Bytes) × (parts ≡ text ∷ rest)
        × (length (cipher_at header encoded i) ≡ plaintext_chunk_length header i + aead_tag_bytes)
        × (decrypt_chunk sodium (cipher_at header encoded i) object_key i ≡ ok text)
        × (decrypt_chunks sodium header encoded object_key left (suc i) ≡ ok rest)
  unfolding decrypt_chunks cipher_at
  decrypt_chunks-ok header encoded object_key left i parts h =
      let full = checked _ _ _ _ parts h in
      let opened = bind-ok _ _ parts (full.1) in
      let others = bind-ok _ _ parts (opened.2) in
      (opened.0, others.0, sym (ok-injective (others.2)), full.0, opened.1, others.1)

  decrypt_stream_chunks_lem :
      (header : ChunkedHeader) (encoded object_key : Bytes) (left i : ℕ) (reader : StreamByteReader)
      (parts : List Bytes)
      → content reader
        ≡ drop (header.header_size + i * (header.chunk_size + aead_tag_bytes)) encoded
      → decrypt_chunks sodium header encoded object_key left i ≡ ok parts
      → Yields (decrypt_stream_chunks sodium header object_key left i reader) parts
  unfolding decrypt_stream_chunks finished
  decrypt_stream_chunks_lem header encoded object_key zero i reader parts hr h =
      unfold decrypt_chunks in (ok-injective h, refl)
  decrypt_stream_chunks_lem header encoded object_key (suc left) i reader parts hr h =
      let first = decrypt_chunks-ok header encoded object_key left i parts h in
      let text = first.0 in
      let others = first.1 in
      let cipher = cipher_at header encoded i in
      let expected_len = plaintext_chunk_length header i + aead_tag_bytes in
      let size = header.chunk_size + aead_tag_bytes in
      let start = header.header_size + i * size in
      let at_i : cipher ≡ take size (content reader) =
        unfold cipher_at chunk_byte_range in
        subarray_from encoded start size ∙ ap (take size) (sym hr) in
      let cut : take expected_len (content reader) ≡ cipher =
        rw (sym (first.3), at_i) (take_again size (content reader)) in
      let further : start + size ≡ header.header_size + suc i * size = grind arith in
      let dropped : drop expected_len (content reader) ≡ drop size (content reader) =
        rw (sym (first.3), at_i) (drop_again size (content reader)) in
      let next : content ((read_exact expected_len reader).1)
          ≡ drop (header.header_size + suc i * size) encoded =
        (read_exact_lem expected_len reader).1
        ∙ dropped
        ∙ ap (drop size) hr
        ∙ drop-drop start size encoded
        ∙ ap (λ n. drop n encoded) further in
      let read = exactly-read_exact expected_len reader cipher (omega arith) cut (first.3) in
      let rest =
        decrypt_stream_chunks_lem header encoded object_key left (suc i)
          ((read_exact expected_len reader).1) others next (first.5) in
      rw (read, first.4) (ap (λ p. text ∷ p) (rest.0) ∙ sym (first.2), rest.1)

  -- Where decryptBuffer gives a text for an encoded object, decryptStream, however the object's bytes
  -- are cut into pieces as they arrive, runs to its end and yields that text.
  pub decrypt_stream_lem :
      (source : List Bytes) (encoded master_key plaintext : Bytes)
      → concat source ≡ encoded
      → decrypt_buffer sodium encoded master_key ≡ ok plaintext
      → (concat ((decrypt_stream sodium source master_key).yielded) ≡ plaintext)
        × ((decrypt_stream sodium source master_key).outcome ≡ ok tt)
  unfolding decrypt_buffer decrypt_stream reader_of
  decrypt_stream_lem source encoded master_key plaintext arrived h =
      let parsing = bind-ok (decode_header encoded) _ plaintext h in
      let header = parsing.0 in
      let object_key = derive_object_key sodium master_key header.context in
      let opened =
        bind-ok
          (decrypt_chunks sodium header encoded object_key
            (turns (chunk_count header) (length encoded)) 0)
          (λ parts. ok (concat parts)) plaintext (parsing.2) in
      let sized = decode_header-ok encoded header (parsing.1) in
      let n = read_le 1 encoded 5 + 4 + 8 in
      let first = read_exact 6 (reader_of source) in
      let second = read_exact n (first.1) in
      let start = take 6 encoded in
      let tail = take n (drop 6 encoded) in
      let start_read : at_least 6 (first.0) ≡ ok start =
        at_least-read_exact 6 (reader_of source) start (omega arith) (ap (take 6) arrived)
          (length-take 6 encoded ∙ omega (arith, sized)) in
      let left : content (first.1) ≡ drop 6 encoded =
        (read_exact_lem 6 (reader_of source)).1 ∙ ap (drop 6) arrived in
      let tail_read : at_least n (second.0) ≡ ok tail =
        at_least-read_exact n (first.1) tail (omega arith) (ap (take n) left) (
          length-take n (drop 6 encoded)
          ∙ ap (min n) (length-drop 6 encoded)
          ∙ omega (arith, sized)) in
      let context_len = read_le-take 1 5 6 encoded (omega arith) (sized.0) in
      let together : decode_header (start ++ tail) ≡ ok header =
        ap decode_header (take_add 6 n encoded)
        ∙ decode_header-take (6 + n) encoded (omega (arith, sized)) (omega arith)
        ∙ parsing.1 in
      let from : 6 + n ≡ header.header_size + 0 * (header.chunk_size + aead_tag_bytes) =
        omega (arith, sized) in
      let at_start : content (second.1)
          ≡ drop (header.header_size + 0 * (header.chunk_size + aead_tag_bytes)) encoded =
        (read_exact_lem n (first.1)).1
        ∙ ap (drop n) left
        ∙ drop-drop 6 n encoded
        ∙ ap (λ k. drop k encoded) from in
      let streamed =
        decrypt_stream_chunks_lem header encoded object_key
          (turns (chunk_count header) (length encoded)) 0 (second.1) (opened.0) at_start
          (opened.1) in
      rw (start_read, context_len, tail_read, together, arrived)
        (ap concat (streamed.0) ∙ ok-injective (opened.2), streamed.1)
