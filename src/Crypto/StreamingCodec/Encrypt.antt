-- ===== src/Crypto/StreamingCodec/Encrypt.antt =====
-- encryptStream against encryptBuffer, and its check of the hash.
use mathlib.Core.List.{append_assoc, append-nil}
use mathlib.Core.Path.{subst}
use sync.Prelude.{
  ℕ, zero, suc, ◌+◌, ◌-◌, ◌*◌, ◌≤◌, ◌<◌, ◌^◌, Bool, true, false, Option, none, some, String, List,
  [], ◌∷◌, ◌++◌, ◌≡◌, refl, sym, ap, ◌∙◌, min, if◌then◌else◌, length, take, drop, drop_all,
  take_all, drop-drop, length-drop, length-append, ◌==◌, ==-refl, nat_eq, Bool-cases, inl, inr,
  arith, take-min, drop-min, take_add,
}
use sync.Errors.{ok}
use sync.Crypto.Bytes.{Bytes, concat}
use sync.Crypto.Sodium.{Sodium, IsDocumented, update_all, aead_tag_bytes}
use sync.Crypto.StreamReader.{
  StreamByteReader, reader_of, read_exact, exactly, content, read_exact_lem,
}
use sync.Crypto.ChunkedCodec.{
  derive_object_key, encode_header, ceil_div, turns, encrypt_chunk, encrypt_chunks, encrypt_buffer,
}
use sync.Crypto.ChunkedCodec.Header.{header_bytes, length-header_bytes, encode_header-ok}
use sync.Crypto.ChunkedCodec.Counts.{IsCount, ceil_div-IsCount, full_or_last, begins_within}
use sync.Crypto.ChunkedCodec.RoundTrip.{piece, subarray-piece, length-piece, length-encrypt_chunk}
use sync.Crypto.StreamingCodec.{
  EncryptStreamOptions, Generated, yielding, reporting, finished, differs, finish_hash,
  update_hasher, new_hasher, encrypt_stream_chunks, encrypt_stream, encrypted_size, abandon,
}
use sync.Crypto.StreamingCodec.Decrypt.{Yields, Yields-yielding, exactly-read_exact}

Yields-reporting :
    (digest : Option String) (g : Generated) (parts : List Bytes)
    → Yields g parts
    → Yields (reporting digest g) parts
unfolding reporting
Yields-reporting none g parts h = h
Yields-reporting (some digest) g parts h = h

-- `len`, by position or by what is left.
pub len_lem :
    (size total count left i : ℕ)
    → IsCount size total count
    → i + suc left ≡ count
    → (if suc i == count then total - size * i else size) ≡ min size (total - i * size)
len_lem size total count left i hi h =
    let product : suc i ≡ count → count * size ≡ i * size + size = λ e. rw (sym e) (omega arith) in
    ground (arith, full_or_last size total count left i hi h, product, hi)

pub some_chunks : (n : ℕ) → (suc n == 0) ≡ false
some_chunks n = ground arith

module _ (sodium : Sodium) where
  -- What a hasher has been given.
  abbrev Hashed : Option sodium.HashState → Bytes → Type 0
  Hashed none consumed = Unit
  Hashed (some hasher) consumed =
      (parts : List Bytes) × (hasher ≡ update_all sodium sodium.hash_init parts)
      × (concat parts ≡ consumed)

  pub update_all-append :
      (state : sodium.HashState) (parts : List Bytes) (chunk : Bytes)
      → update_all sodium state (parts ++ (chunk ∷ []))
        ≡ sodium.hash_update (update_all sodium state parts) chunk
  update_all-append state [] chunk = refl
  update_all-append state (p ∷ parts) chunk =
      update_all-append (sodium.hash_update state p) parts chunk

  pub concat-append_one :
      (parts : List Bytes) (chunk : Bytes) → concat (parts ++ (chunk ∷ [])) ≡ concat parts ++ chunk
  concat-append_one [] chunk = append-nil chunk
  concat-append_one (p ∷ parts) chunk =
      ap (λ r. p ++ r) (concat-append_one parts chunk) ∙ sym (append_assoc p (concat parts) chunk)

  Hashed-update_hasher :
      (hasher : Option sodium.HashState) (consumed chunk : Bytes)
      → Hashed hasher consumed
      → Hashed (update_hasher sodium hasher chunk) (consumed ++ chunk)
  unfolding update_hasher
  Hashed-update_hasher none consumed chunk h = h
  Hashed-update_hasher (some hasher) consumed chunk (parts, state, read) = (
    parts ++ (chunk ∷ []),
    ap (λ s. sodium.hash_update s chunk) state
        ∙ sym (update_all-append sodium.hash_init parts chunk),
    concat-append_one parts chunk ∙ ap (λ r. r ++ chunk) read,
  )

  module _ (documented : IsDocumented sodium) where
    finish_hash-ok :
        (hasher : Option sodium.HashState) (options : EncryptStreamOptions) (consumed : Bytes)
        → Hashed hasher consumed
        → differs options.expected_hash (sodium.hex (sodium.generichash consumed)) ≡ false
        → (digest : Option String) × (finish_hash sodium hasher options ≡ ok digest)
    unfolding finish_hash
    finish_hash-ok none options consumed h same = (none, refl)
    finish_hash-ok (some hasher) options consumed (parts, state, read) same =
        let digest : sodium.hash_final hasher ≡ sodium.generichash consumed =
          ap sodium.hash_final state
          ∙ documented.hash_final-update_all parts
          ∙ ap sodium.generichash read in
        (
          (if options.on_plaintext_hash
              then some (sodium.hex (sodium.hash_final hasher))
              else none),
          rw (digest, same) refl,
        )

    encrypt_stream_chunks_lem :
        (options : EncryptStreamOptions) (plaintext object_key : Bytes) (count left i : ℕ)
        (reader : StreamByteReader) (hasher : Option sodium.HashState)
        → ((j : ℕ) → options.aborted j ≡ false)
        → differs options.expected_hash (sodium.hex (sodium.generichash plaintext)) ≡ false
        → 0 < options.chunk_size
        → IsCount options.chunk_size (length plaintext) count
        → i + left ≡ count
        → content reader ≡ drop (i * options.chunk_size) plaintext
        → Hashed hasher (take (i * options.chunk_size) plaintext)
        → Yields
            (encrypt_stream_chunks sodium options
              (length plaintext)
              object_key
              count
              left
              i
              reader
              hasher)
            (encrypt_chunks sodium plaintext options.chunk_size object_key left i)
    unfolding encrypt_stream_chunks finished encrypt_chunks
    encrypt_stream_chunks_lem options plaintext object_key count zero i reader hasher running same
          pos hi h at_i hashed =
        (refl, refl)
    encrypt_stream_chunks_lem options plaintext object_key count (suc left) i reader hasher running
          same pos hi h at_i hashed =
        let size = options.chunk_size in
        let total = length plaintext in
        let len = min size (total - i * size) in
        let asked : (if suc i == count then total - size * i else size) ≡ len =
          len_lem size total count left i hi h in
        let text = piece plaintext size i in
        let from = drop (i * size) plaintext in
        let as_left : len ≡ min size (length from) = rw (length-drop (i * size) plaintext) refl in
        let begun = begins_within size total count left i hi h in
        let read : exactly len ((read_exact len reader).0) ≡ ok text =
          exactly-read_exact len reader text (omega (arith, begun, pos))
            (ap (take len) at_i ∙ ap (λ k. take k from) as_left ∙ take-min size from)
            (length-piece plaintext size i) in
        let next_start : i * size + size ≡ suc i * size = omega arith in
        let next : content ((read_exact len reader).1) ≡ drop (suc i * size) plaintext =
          (read_exact_lem len reader).1
          ∙ ap (drop len) at_i
          ∙ ap (λ k. drop k from) as_left
          ∙ drop-min size from
          ∙ drop-drop (i * size) size plaintext
          ∙ ap (λ k. drop k plaintext) next_start in
        let consumed : take (i * size) plaintext ++ text ≡ take (suc i * size) plaintext =
          take_add (i * size) size plaintext ∙ ap (λ k. take k plaintext) next_start in
        let hashed_next =
          subst (Hashed (update_hasher sodium hasher text)) consumed
            (Hashed-update_hasher hasher (take (i * size) plaintext) text hashed) in
        let whole : suc i ≡ count → take (suc i * size) plaintext ≡ plaintext =
          λ e. take_all (suc i * size) plaintext (rw e (hi.0)) in
        let finish : (digest : Option String) × ((if suc i == count
                then finish_hash sodium (update_hasher sodium hasher text) options
                else ok none)
              ≡ ok digest) =
          elim (Bool-cases (suc i == count)) [
            | inl last ↦ rw last (
                finish_hash-ok (update_hasher sodium hasher text) options plaintext
                  (subst (Hashed (update_hasher sodium hasher text)) (whole (ground arith))
                    hashed_next)
                  same)
            | inr more ↦ rw more (none, refl)
          ] in
        let others =
          encrypt_stream_chunks sodium options total object_key count left (suc i)
            ((read_exact len reader).1) (update_hasher sodium hasher text) in
        let others_parts = encrypt_chunks sodium plaintext size object_key left (suc i) in
        let ih : Yields others others_parts =
          encrypt_stream_chunks_lem options plaintext object_key count left (suc i)
            ((read_exact len reader).1) (update_hasher sodium hasher text) running same pos hi
            (omega (arith, h)) next hashed_next in
        let cipher = encrypt_chunk sodium text object_key i in
        rw (running i, asked, read, finish.1, subarray-piece plaintext size i)
          (Yields-reporting (finish.0) (yielding cipher others) (cipher ∷ others_parts)
            (Yields-yielding cipher others others_parts ih))

    length-encrypt_chunks :
        (plaintext object_key : Bytes) (size count left i : ℕ)
        → IsCount size (length plaintext) count
        → i + left ≡ count
        → length (concat (encrypt_chunks sodium plaintext size object_key left i))
          ≡ length plaintext - i * size + left * aead_tag_bytes
    unfolding encrypt_chunks
    length-encrypt_chunks plaintext object_key size count zero i hi h =
        let same : i ≡ count = omega arith in
        let all : length plaintext ≤ i * size = rw same (hi.0) in omega (arith, all)
    length-encrypt_chunks plaintext object_key size count (suc left) i hi h =
        let text = piece plaintext size i in
        let sized = length-piece plaintext size i in
        let cipher = length-encrypt_chunk sodium documented text object_key i in
        let rest =
          length-encrypt_chunks plaintext object_key size count left (suc i) hi (omega arith) in
        let below = begins_within size (length plaintext) count left i hi h in
        rw (subarray-piece plaintext size i) (
          length-append (encrypt_chunk sodium text object_key i)
            (concat (encrypt_chunks sodium plaintext size object_key left (suc i)))
          ∙ omega (arith, sized, cipher, rest, below))

    Hashed-begun : (begun : Bool) → Hashed (if begun then some sodium.hash_init else none) []
    Hashed-begun true = ([], refl, refl)
    Hashed-begun false = tt

    -- The header and the chunks come out one by one.
    encrypt_stream-Yields :
        (source : List Bytes) (plaintext master_key context head : Bytes)
        (options : EncryptStreamOptions) (count : ℕ)
        → 0 < options.chunk_size
        → encode_header context options.chunk_size (length plaintext) ≡ ok head
        → ceil_div (length plaintext) options.chunk_size ≡ some count
        → IsCount options.chunk_size (length plaintext) count
        → concat source ≡ plaintext
        → differs options.expected_hash (sodium.hex (sodium.generichash plaintext)) ≡ false
        → ((i : ℕ) → options.aborted i ≡ false)
        → (g : Generated) × (encrypt_stream sodium source
              (length plaintext)
              master_key
              context
              options
            ≡ ok g)
          × Yields g (
              head
              ∷ encrypt_chunks sodium plaintext options.chunk_size
                  (derive_object_key sodium master_key context)
                  count
                  0)
    unfolding encrypt_stream turns reader_of encrypt_chunks finished new_hasher
    encrypt_stream-Yields source plaintext master_key context head options zero pos encoded counts
          hi arrived same running =
        let no_chunks : ℕ = 0 in
        let zero_chunks : (no_chunks == no_chunks) ≡ true = ==-refl no_chunks in
        let empty : [] ≡ plaintext = sym (drop_all 0 plaintext (omega (arith, hi.0))) in
        let hasher = new_hasher sodium options in
        let finish =
          finish_hash-ok hasher options plaintext (subst (Hashed hasher) empty (Hashed-begun _))
            same in
        (
          reporting (finish.0) (abandon (yielding head finished)),
          rw (encoded, counts) (rw (zero_chunks, finish.1) refl),
          Yields-reporting (finish.0) (abandon (yielding head finished)) (head ∷ [])
              (unfold abandon yielding in (refl, refl)),
        )
    encrypt_stream-Yields source plaintext master_key context head options (suc n) pos encoded
          counts hi arrived same running =
        let object_key = derive_object_key sodium master_key context in
        let hasher = new_hasher sodium options in
        let parts = encrypt_chunks sodium plaintext options.chunk_size object_key (suc n) 0 in
        let others =
          encrypt_stream_chunks sodium options (length plaintext) object_key (suc n) (suc n) 0
            (reader_of source) hasher in
        let from_start : 0 ≡ 0 * options.chunk_size = omega arith in
        let all : plaintext ≡ drop (0 * options.chunk_size) plaintext =
          ap (λ k. drop k plaintext) from_start in
        let nothing : [] ≡ take (0 * options.chunk_size) plaintext =
          ap (λ k. take k plaintext) from_start in
        let streamed =
          encrypt_stream_chunks_lem options plaintext object_key (suc n) (suc n) 0
            (reader_of source) hasher running same pos hi (omega arith) (arrived ∙ all)
            (subst (Hashed hasher) nothing (Hashed-begun _)) in
        (
          yielding head others,
          rw (encoded, counts) (rw (some_chunks n) refl),
          Yields-yielding head others parts streamed,
        )

    -- If the source's pieces are the text that is announced, the expected hash, if any, is the text's,
    -- and nothing aborts the stream, then encryptStream runs to its end and yields, in pieces, the object
    -- that encryptBuffer makes, whose size is encryptedSize.
    pub encrypt_stream_lem :
        (source : List Bytes) (plaintext master_key context : Bytes)
        (options : EncryptStreamOptions)
        → length context ≤ 255
        → 0 < options.chunk_size
        → options.chunk_size < 2 ^ 32
        → length plaintext < 2 ^ 53
        → concat source ≡ plaintext
        → differs options.expected_hash (sodium.hex (sodium.generichash plaintext)) ≡ false
        → ((i : ℕ) → options.aborted i ≡ false)
        → (g : Generated) × (encrypt_stream sodium source
              (length plaintext)
              master_key
              context
              options
            ≡ ok g)
          × (g.outcome ≡ ok tt)
          × (encrypt_buffer sodium plaintext master_key context options.chunk_size
              ≡ ok (concat g.yielded))
          × (length (concat g.yielded)
              ≡ encrypted_size (length plaintext) (length context) options.chunk_size)
    unfolding encrypt_stream encrypt_buffer encrypted_size turns reader_of
    encrypt_stream_lem source plaintext master_key context options hc pos hs hp arrived same
          running =
        let size = options.chunk_size in
        let total = length plaintext in
        let counted = ceil_div-IsCount total size pos in
        let count = counted.0 in
        let object_key = derive_object_key sodium master_key context in
        let head = header_bytes context size total in
        let parts = encrypt_chunks sodium plaintext size object_key count 0 in
        let encoded = encode_header-ok context size total hc (omega arith) (omega arith) in
        let started =
          encrypt_stream-Yields source plaintext master_key context head options count pos encoded
            (counted.1) (counted.2) arrived same running in
        let joined : head ++ concat parts ≡ concat ((started.0).yielded) =
          ap concat (sym (started.2.0)) in
        let body =
          length-encrypt_chunks plaintext object_key size count count 0 (counted.2) (omega arith) in
        let long : length (head ++ concat parts)
            ≡ 4 + 1 + 1 + length context + 4 + 8 + total + count * aead_tag_bytes =
          length-append head (concat parts)
          ∙ omega (arith, body, length-header_bytes context size total) in
        (
          started.0,
          started.1,
          started.2.1,
          rw (encoded, counted.1) (ap ok joined),
          rw (counted.1) (ap length (sym joined) ∙ long),
        )
