-- ===== src/Crypto/StreamingCodec/HashCheck.antt =====
-- encryptStream withholds the last chunk of a text that is not the one expected.
use mathlib.Core.List.{append_assoc}
use mathlib.Core.Path.{subst}
use sync.Prelude.{
  ℕ, zero, suc, ◌+◌, ◌-◌, ◌*◌, ◌≤◌, ◌<◌, true, false, Option, none, some, String, List, [], ◌∷◌,
  ◌++◌, ◌≡◌, refl, sym, ap, ◌∙◌, min, if◌then◌else◌, length, take, drop, length-append, ◌==◌,
  ==-refl, nat_eq, Bool-cases, inl, inr, arith, ◌⊎◌, take_append_at, take-append-drop,
}
use sync.Errors.{Failure, Result, ok, throw, ok-injective, bind-ok}
use sync.Crypto.Bytes.{Bytes, concat}
use sync.Crypto.Sodium.{Sodium, IsDocumented, update_all}
use sync.Crypto.StreamReader.{
  StreamByteReader, reader_of, read_exact, exactly, content, bytes_of, read_exact_lem,
}
use sync.Crypto.ChunkedCodec.{derive_object_key, encode_header, ceil_div, turns, encrypt_chunk}
use sync.Crypto.ChunkedCodec.Counts.{IsCount, IsCount-ceil_div, full_or_last, begins_within}
use sync.Crypto.StreamingCodec.{
  EncryptStreamOptions, Generated, yielding, reporting, abandon, throwing, after, differs,
  finish_hash, update_hasher, new_hasher, encrypt_stream_chunks, encrypt_stream,
}
use sync.Crypto.StreamingCodec.Encrypt.{len_lem, update_all-append, concat-append_one, some_chunks}

-- A generator that threw, after it had yielded at most so much.
abbrev pub Refuses : Generated → ℕ → Type 0
Refuses g n = ((e : Failure) × (g.outcome ≡ throw e)) × (length g.yielded ≤ n)

Refuses-throwing : (e : Failure) (n : ℕ) → Refuses (throwing e) n
unfolding throwing
Refuses-throwing e n = ((e, refl), omega arith)

Refuses-yielding :
    (digest : Option String) (chunk : Bytes) (g : Generated) (n : ℕ)
    → Refuses g n
    → Refuses (reporting digest (yielding chunk g)) (suc n)
unfolding reporting yielding
Refuses-yielding none chunk g n h = (h.0, omega (arith, h.1))
Refuses-yielding (some digest) chunk g n h = (h.0, omega (arith, h.1))

Result-cases {ℓ} :
    {A : Type ℓ} (r : Result A) → ((a : A) × (r ≡ ok a)) ⊎ ((e : Failure) × (r ≡ throw e))
Result-cases (ok a) = inl (a, refl)
Result-cases (throw e) = inr (e, refl)

-- What a full read has read.
exactly-ok :
    (n : ℕ) (read : Option Bytes) (chunk : Bytes)
    → 0 < n
    → exactly n read ≡ ok chunk
    → (bytes_of read ≡ chunk) × (length chunk ≡ n)
unfolding exactly
exactly-ok n none chunk pos h = absurd (cc h)
exactly-ok n (some c) chunk pos h = ground arith

module _ (sodium : Sodium) (documented : IsDocumented sodium) where
  finish_hash-throw :
      (options : EncryptStreamOptions) (parts : List Bytes)
      → differs options.expected_hash (sodium.hex (sodium.generichash (concat parts))) ≡ true
      → (e : Failure) × (finish_hash sodium
            (some (update_all sodium sodium.hash_init parts))
            options
          ≡ throw e)
  unfolding finish_hash
  finish_hash-throw options parts other =
      rw (documented.hash_final-update_all parts, other) (_, refl)

  new_hasher-some :
      (options : EncryptStreamOptions) (digest : String)
      → differs options.expected_hash digest ≡ true
      → new_hasher sodium options ≡ some sodium.hash_init
  unfolding new_hasher differs
  new_hasher-some options digest other = ground arith

  -- The stream ends at once, or it reads a chunk and goes on.
  Refuses-step :
      (options : EncryptStreamOptions) (object_key : Bytes) (total count left i len : ℕ)
      (reader : StreamByteReader) (hasher : Option sodium.HashState)
      → (if suc i == count then total - options.chunk_size * i else options.chunk_size) ≡ len
      → ((chunk : Bytes)
          → exactly len ((read_exact len reader).0) ≡ ok chunk
          → Refuses
              (after
                (if suc i == count
                  then finish_hash sodium (update_hasher sodium hasher chunk) options
                  else ok none)
                (λ digest. reporting digest (
                  yielding (encrypt_chunk sodium chunk object_key i) (
                    encrypt_stream_chunks sodium options total object_key count left
                      (suc i)
                      ((read_exact len reader).1)
                      (update_hasher sodium hasher chunk)))))
              left)
      → Refuses
          (encrypt_stream_chunks sodium options total object_key count (suc left) i reader hasher)
          left
  unfolding encrypt_stream_chunks
  Refuses-step options object_key total count left i len reader hasher asked go_on =
      elim (Bool-cases (options.aborted i)) [
        | inl stop ↦ rw stop (unfold abandon in Refuses-throwing Failure.aborted left)
        | inr running ↦ elim (Result-cases (exactly len ((read_exact len reader).0))) [
          | inl (chunk, got) ↦ rw (running, asked, got) (go_on chunk got)
          | inr (e, failed) ↦ rw (running, asked, failed) (Refuses-throwing e left)
        ]
      ]

  -- What the hasher has been given after a read, with what is left: still the same bytes.
  same_bytes :
      (parts : List Bytes) (chunk : Bytes) (len : ℕ) (reader : StreamByteReader)
      → take len (content reader) ≡ chunk
      → concat (parts ++ (chunk ∷ [])) ++ content ((read_exact len reader).1)
        ≡ concat parts ++ content reader
  same_bytes parts chunk len reader read =
      rw
        (
          concat-append_one sodium parts chunk,
          sym read,
          (read_exact_lem len reader).1,
          append_assoc (concat parts) (take len (content reader)) (drop len (content reader)),
          take-append-drop len (content reader),
        )
        refl

  hasher_next :
      (parts : List Bytes) (chunk : Bytes)
      → update_hasher sodium (some (update_all sodium sodium.hash_init parts)) chunk
        ≡ some (update_all sodium sodium.hash_init (parts ++ (chunk ∷ [])))
  unfolding update_hasher
  hasher_next parts chunk = ap some (sym (update_all-append sodium sodium.hash_init parts chunk))

  longer :
      (parts : List Bytes) (chunk : Bytes)
      → length (concat (parts ++ (chunk ∷ []))) ≡ length (concat parts) + length chunk
  longer parts chunk =
      ap length (concat-append_one sodium parts chunk) ∙ length-append (concat parts) chunk

  Refuses-encrypt_stream_chunks :
      (options : EncryptStreamOptions) (object_key : Bytes) (total count left i : ℕ)
      (reader : StreamByteReader) (parts : List Bytes)
      → 0 < options.chunk_size
      → IsCount options.chunk_size total count
      → i + suc left ≡ count
      → length (concat parts) ≡ i * options.chunk_size
      → differs options.expected_hash
          (sodium.hex (sodium.generichash (take total (concat parts ++ content reader))))
        ≡ true
      → Refuses
          (encrypt_stream_chunks sodium options total object_key count
            (suc left)
            i
            reader
            (some (update_all sodium sodium.hash_init parts)))
          left
  unfolding after throwing
  Refuses-encrypt_stream_chunks options object_key total count zero i reader parts pos hi h consumed
        other =
      let len = min options.chunk_size (total - i * options.chunk_size) in
      let begun = begins_within options.chunk_size total count zero i hi h in
      Refuses-step options object_key total count zero i len reader _
        (len_lem options.chunk_size total count zero i hi h)
        (λ chunk got.
          let product : count * options.chunk_size ≡ i * options.chunk_size + options.chunk_size =
            rw (sym h) (omega arith) in
          let last : (suc i == count) ≡ true = ground arith in
          let read =
            exactly-ok len ((read_exact len reader).0) chunk (omega (arith, begun, pos)) got in
          let cut = sym ((read_exact_lem len reader).0) ∙ read.0 in
          let text = parts ++ (chunk ∷ []) in
          let full : length (concat text) ≡ total =
            longer parts chunk ∙ omega (arith, consumed, read.1, begun, product, hi.0) in
          let whole : take total (concat parts ++ content reader) ≡ concat text =
            ap (take total) (sym (same_bytes parts chunk len reader cut))
            ∙ take_append_at total (concat text) (content ((read_exact len reader).1)) full in
          let refused = finish_hash-throw options text (rw (sym whole) other) in
          rw (last, hasher_next parts chunk, refused.1) (Refuses-throwing (refused.0) zero))
  Refuses-encrypt_stream_chunks options object_key total count (suc left) i reader parts pos hi h
        consumed other =
      let len = min options.chunk_size (total - i * options.chunk_size) in
      let begun = begins_within options.chunk_size total count (suc left) i hi h in
      Refuses-step options object_key total count (suc left) i len reader _
        (len_lem options.chunk_size total count (suc left) i hi h)
        (λ chunk got.
          let size = full_or_last options.chunk_size total count (suc left) i hi h in
          let more : (suc i == count) ≡ false = ground arith in
          let read =
            exactly-ok len ((read_exact len reader).0) chunk (omega (arith, begun, pos)) got in
          let cut = sym ((read_exact_lem len reader).0) ∙ read.0 in
          let text = parts ++ (chunk ∷ []) in
          let same = same_bytes parts chunk len reader cut in
          let full : length (concat text) ≡ suc i * options.chunk_size =
            longer parts chunk ∙ omega (arith, consumed, read.1, size) in
          let ih =
            Refuses-encrypt_stream_chunks options object_key total count left (suc i)
              ((read_exact len reader).1) text pos hi (omega (arith, h)) full (rw same other) in
          rw (more, hasher_next parts chunk)
            (Refuses-yielding none (encrypt_chunk sodium chunk object_key i)
              (encrypt_stream_chunks sodium options total object_key count (suc left) (suc i)
                ((read_exact len reader).1) (some (update_all sodium sodium.hash_init text)))
              left ih))

  -- If the expected hash is not that of the announced number of bytes at the front of the source, then
  -- for every source and wherever it is aborted, encryptStream throws, and of the header and the chunks
  -- it yields at most as many as there are chunks: never the last one.
  pub encrypt_stream-Refuses :
      (source : List Bytes) (total : ℕ) (master_key context : Bytes)
      (options : EncryptStreamOptions) (count : ℕ) (g : Generated)
      → 0 < options.chunk_size
      → ceil_div total options.chunk_size ≡ some count
      → differs options.expected_hash (sodium.hex (sodium.generichash (take total (concat source))))
        ≡ true
      → encrypt_stream sodium source total master_key context options ≡ ok g
      → Refuses g count
  unfolding encrypt_stream turns reader_of
  encrypt_stream-Refuses source total master_key context options zero g pos counts other h =
      let hasher =
        new_hasher-some options (sodium.hex (sodium.generichash (take total (concat source))))
          other in
      let counted = IsCount-ceil_div total options.chunk_size zero pos counts in
      let no_bytes : total ≡ 0 = omega (arith, counted.0) in
      let refused = finish_hash-throw options [] (
        subst
          (λ (t : ℕ).
            differs options.expected_hash (sodium.hex (sodium.generichash (take t (concat source))))
            ≡ true)
          no_bytes other) in
      let parsing = bind-ok (encode_header context options.chunk_size total) _ g h in
      subst (λ (r : Generated). Refuses r 0) (ok-injective (parsing.2))
        (rw (counts) (rw (==-refl zero, hasher, refused.1) (Refuses-throwing (refused.0) 0)))
  encrypt_stream-Refuses source total master_key context options (suc n) g pos counts other h =
      let hasher =
        new_hasher-some options (sodium.hex (sodium.generichash (take total (concat source))))
          other in
      let parsing = bind-ok (encode_header context options.chunk_size total) _ g h in
      let chunks =
        Refuses-encrypt_stream_chunks options (derive_object_key sodium master_key context) total
          (suc n) n 0 (reader_of source) [] pos
          (IsCount-ceil_div total options.chunk_size (suc n) pos counts) (omega arith) (omega arith)
          other in
      subst (λ (r : Generated). Refuses r (suc n)) (ok-injective (parsing.2))
        (rw (counts) (
          rw (some_chunks n, hasher)
            (Refuses-yielding none (parsing.0)
              (encrypt_stream_chunks sodium options total
                (derive_object_key sodium master_key context) (suc n) (suc n) 0 (reader_of source)
                (some sodium.hash_init))
              n chunks)))
