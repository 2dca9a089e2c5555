-- ===== src/Crypto/ChunkedCodec/RoundTrip.antt =====
-- What is encrypted is decrypted again.
use sync.Prelude.{
  ℕ, zero, suc, ◌+◌, ◌-◌, ◌*◌, ◌^◌, ◌≤◌, ◌<◌, min, some, List, [], ◌∷◌, ◌++◌, ◌≡◌, refl, length,
  take, drop, drop_append_at, arith, inl, inr, ap, sym, ◌∙◌, nat_eq, length-take, length-drop,
  take-min, drop-drop, take_fit, take-append-drop, drop_all, ◌⊎◌, ==-refl,
}
use sync.Errors.{Result, ok, throw, ◌>>=◌, ok-injective}
use sync.Crypto.Bytes.{Bytes, subarray, subarray_from, concat}
use sync.Crypto.Sodium.{Sodium, IsDocumented, aead_tag_bytes}
use sync.Crypto.ChunkedCodec.{
  ChunkedHeader, chunk_count, plaintext_chunk_length, encrypt_chunk, decrypt_chunk, encrypt_chunks,
  decrypt_chunks, encrypt_buffer, decrypt_buffer, turns, derive_object_key, authenticated,
  chunk_byte_range,
}
use sync.Crypto.ChunkedCodec.Header.{
  header_bytes, length-header_bytes, encode_header-ok, parsed, decode_header-header_bytes,
}
use sync.Crypto.ChunkedCodec.Counts.{
  full_or_last, IsCount, ceil_div-IsCount, plaintext_chunk_length_lem,
}

-- The plaintext of a chunk: what is left, cut to the chunk's size.
abbrev pub piece : Bytes → ℕ → ℕ → Bytes
piece plaintext chunk_size i = take chunk_size (drop (i * chunk_size) plaintext)

pub subarray-piece :
    (plaintext : Bytes) (chunk_size i : ℕ)
    → subarray plaintext (i * chunk_size) (min (i * chunk_size + chunk_size) (length plaintext))
      ≡ piece plaintext chunk_size i
unfolding subarray
subarray-piece plaintext chunk_size i =
    let start = i * chunk_size in
    let size : min (start + chunk_size) (length plaintext) - start
        ≡ min chunk_size (length (drop start plaintext)) =
      rw (length-drop start plaintext) (omega arith) in
    ap (λ n. take n (drop start plaintext)) size ∙ take-min chunk_size (drop start plaintext)

pub length-piece :
    (plaintext : Bytes) (chunk_size i : ℕ)
    → length (piece plaintext chunk_size i) ≡ min chunk_size (length plaintext - i * chunk_size)
length-piece plaintext chunk_size i =
    length-take chunk_size (drop (i * chunk_size) plaintext)
    ∙ ap (min chunk_size) (length-drop (i * chunk_size) plaintext)

piece_then_rest :
    (plaintext : Bytes) (chunk_size i : ℕ)
    → piece plaintext chunk_size i ++ drop (suc i * chunk_size) plaintext
      ≡ drop (i * chunk_size) plaintext
piece_then_rest plaintext chunk_size i =
    let next : i * chunk_size + chunk_size ≡ suc i * chunk_size = omega arith in
    rw (sym next, sym (drop-drop (i * chunk_size) chunk_size plaintext))
      (take-append-drop chunk_size (drop (i * chunk_size) plaintext))

joined :
    (text rest : Bytes) (parts : Result (List Bytes))
    → (parts >>= λ p. ok (concat p)) ≡ ok rest
    → ((parts >>= λ p. ok (text ∷ p)) >>= λ p. ok (concat p)) ≡ ok (text ++ rest)
joined text rest (ok p) h = ap (λ r. ok (text ++ r)) (ok-injective h)
joined text rest (throw e) h = absurd (cc h)

module _ (sodium : Sodium) (documented : IsDocumented sodium) where
  pub length-encrypt_chunk :
      (plaintext object_key : Bytes) (i : ℕ)
      → length (encrypt_chunk sodium plaintext object_key i) ≡ length plaintext + aead_tag_bytes
  unfolding encrypt_chunk
  length-encrypt_chunk plaintext object_key i = documented.length-aead_encrypt plaintext _ _

  pub decrypt_chunk-encrypt_chunk :
      (plaintext object_key : Bytes) (i : ℕ)
      → decrypt_chunk sodium (encrypt_chunk sodium plaintext object_key i) object_key i
        ≡ ok plaintext
  unfolding encrypt_chunk decrypt_chunk authenticated
  decrypt_chunk-encrypt_chunk plaintext object_key i =
      ap authenticated (documented.aead_decrypt-aead_encrypt plaintext _ _)

  concat-encrypt_chunks :
      (plaintext object_key : Bytes) (chunk_size left i : ℕ)
      → concat (encrypt_chunks sodium plaintext chunk_size object_key (suc left) i)
        ≡ encrypt_chunk sodium (piece plaintext chunk_size i) object_key i
          ++ concat (encrypt_chunks sodium plaintext chunk_size object_key left (suc i))
  unfolding encrypt_chunks
  concat-encrypt_chunks plaintext object_key chunk_size left i =
      ap
        (λ text.
          encrypt_chunk sodium text object_key i
          ++ concat (encrypt_chunks sodium plaintext chunk_size object_key left (suc i)))
        (subarray-piece plaintext chunk_size i)

  decrypt_chunks_step :
      (header : ChunkedHeader) (encoded object_key cipher text : Bytes) (left i : ℕ)
      → subarray encoded ((chunk_byte_range header i).0) ((chunk_byte_range header i).1) ≡ cipher
      → length cipher ≡ plaintext_chunk_length header i + aead_tag_bytes
      → decrypt_chunk sodium cipher object_key i ≡ ok text
      → decrypt_chunks sodium header encoded object_key (suc left) i ≡ (
          decrypt_chunks sodium header encoded object_key left (suc i) >>= λ rest. ok (text ∷ rest))
  unfolding decrypt_chunks
  decrypt_chunks_step header encoded object_key cipher text left i cut expected opened =
      rw (cut, expected) (simp (==-refl) (rw opened refl))

  -- The chunks from one on, where the encoded object has them, give the text from that chunk on.
  decrypt_chunks-encrypt_chunks :
      (header : ChunkedHeader) (plaintext encoded object_key : Bytes) (count left i : ℕ)
      → chunk_count header ≡ some count
      → IsCount header.chunk_size header.total_plaintext_size count
      → header.total_plaintext_size ≡ length plaintext
      → i + left ≡ count
      → drop (header.header_size + i * (header.chunk_size + aead_tag_bytes)) encoded
        ≡ concat (encrypt_chunks sodium plaintext header.chunk_size object_key left i)
      → (decrypt_chunks sodium header encoded object_key left i >>= λ parts. ok (concat parts))
        ≡ ok (drop (i * header.chunk_size) plaintext)
  decrypt_chunks-encrypt_chunks header plaintext encoded object_key count zero i hc hi ht h at_i =
      let same : i ≡ count = omega arith in
      let all : length plaintext ≤ i * header.chunk_size = rw (same, sym ht) (hi.0) in
      unfold decrypt_chunks in ap ok (sym (drop_all (i * header.chunk_size) plaintext all))
  decrypt_chunks-encrypt_chunks header plaintext encoded object_key count (suc left) i hc hi ht h
        at_i =
      let size = header.chunk_size in
      let start = header.header_size + i * (size + aead_tag_bytes) in
      let text = piece plaintext size i in
      let cipher = encrypt_chunk sodium text object_key i in
      let rest = concat (encrypt_chunks sodium plaintext size object_key left (suc i)) in
      let content : drop start encoded ≡ cipher ++ rest =
        at_i ∙ concat-encrypt_chunks plaintext object_key size left i in
      let sized : length cipher ≡ min size (length plaintext - i * size) + aead_tag_bytes =
        length-encrypt_chunk text object_key i
        ∙ ap (λ n. n + aead_tag_bytes) (length-piece plaintext size i) in
      let expected : length cipher ≡ plaintext_chunk_length header i + aead_tag_bytes =
        sized
        ∙ ap (λ n. min size (n - i * size) + aead_tag_bytes) (sym ht)
        ∙ ap (λ n. n + aead_tag_bytes)
            (sym (plaintext_chunk_length_lem header count left i hc hi h)) in
      let full : (length cipher ≡ size + aead_tag_bytes) ⊎ (rest ≡ []) =
        elim (full_or_last size header.total_plaintext_size count left i hi h) [
          | inl f ↦ inl (omega (arith, sized, f, ht))
          | inr last ↦ inr (rw last (unfold encrypt_chunks in refl))
        ] in
      let fit : (take (size + aead_tag_bytes) (cipher ++ rest) ≡ cipher)
          × (drop (size + aead_tag_bytes) (cipher ++ rest) ≡ rest) =
        take_fit (size + aead_tag_bytes) cipher rest (omega (arith, sized)) full in
      let cut : subarray encoded ((chunk_byte_range header i).0) ((chunk_byte_range header i).1)
          ≡ cipher =
        unfold chunk_byte_range in
        subarray_from encoded start (size + aead_tag_bytes)
        ∙ ap (take (size + aead_tag_bytes)) content
        ∙ fit.0 in
      let further : start + (size + aead_tag_bytes)
          ≡ header.header_size + suc i * (size + aead_tag_bytes) =
        grind arith in
      let next : drop (header.header_size + suc i * (size + aead_tag_bytes)) encoded ≡ rest =
        rw (sym further, sym (drop-drop start (size + aead_tag_bytes) encoded), content) (fit.1) in
      let ih =
        decrypt_chunks-encrypt_chunks header plaintext encoded object_key count left (suc i) hc hi
          ht (omega (arith, h)) next in
      ap (λ (r : Result (List Bytes)). r >>= λ parts. ok (concat parts))
        (decrypt_chunks_step header encoded object_key cipher text left i cut expected
          (decrypt_chunk-encrypt_chunk text object_key i))
      ∙ joined text _ (decrypt_chunks sodium header encoded object_key left (suc i)) ih
      ∙ ap ok (piece_then_rest plaintext size i)

  -- For a context of at most 255 bytes, a chunk size from 1 up to what four bytes hold and a text below
  -- 2^53 bytes, encryptBuffer returns an object, and decryptBuffer gives the text back from it.
  pub decrypt_buffer-encrypt_buffer :
      (plaintext master_key context : Bytes) (chunk_size : ℕ)
      → length context ≤ 255
      → 0 < chunk_size
      → chunk_size < 2 ^ 32
      → length plaintext < 2 ^ 53
      → (encrypt_buffer sodium plaintext master_key context chunk_size >>= λ encoded.
          decrypt_buffer sodium encoded master_key)
        ≡ ok plaintext
  unfolding encrypt_buffer decrypt_buffer turns
  decrypt_buffer-encrypt_buffer plaintext master_key context chunk_size hc pos hs hp =
      let total = length plaintext in
      let counted = ceil_div-IsCount total chunk_size pos in
      let count = counted.0 in
      let object_key = derive_object_key sodium master_key context in
      let head = header_bytes context chunk_size total in
      let body = concat (encrypt_chunks sodium plaintext chunk_size object_key count 0) in
      let header = parsed context chunk_size total in
      let counts : chunk_count header ≡ some count = unfold chunk_count in counted.1 in
      let at_start : drop (header.header_size + 0 * (chunk_size + aead_tag_bytes)) (head ++ body)
          ≡ body =
        drop_append_at (header.header_size + 0 * (chunk_size + aead_tag_bytes)) head body
          (length-header_bytes context chunk_size total ∙ omega arith) in
      let opened =
        decrypt_chunks-encrypt_chunks header plaintext (head ++ body) object_key count count 0
          counts (counted.2) refl (omega arith) at_start in
      let encoded = encode_header-ok context chunk_size total hc (omega arith) (omega arith) in
      let decoded =
        decode_header-header_bytes context chunk_size total body hc (omega arith) (omega arith) in
      let from_start : 0 * chunk_size ≡ 0 = omega arith in
      rw (encoded, counted.1, decoded, counts) (opened ∙ ap (λ n. ok (drop n plaintext)) from_start)
