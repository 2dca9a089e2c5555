-- ===== src/Sync/Snapshot.antt =====
-- The snapshot of a version: the state.db file, encrypted by crypto/chunked-codec.ts. The sync code
-- takes it as an interface; `chunked_codec` fills it, over SQLite's file format as a parameter.
use sync.Prelude.{String, List, length, ◌<◌, ◌≤◌, ◌^◌, ◌≡◌, sym, ap, ◌∙◌, arith}
use sync.Errors.{Result, ok, ◌>>=◌}
use sync.Crypto.Bytes.{Bytes}
use sync.Crypto.Sodium.{Sodium, IsDocumented}
use sync.Crypto.ChunkedCodec.{encrypt_buffer, decrypt_buffer, default_chunk_size}
use sync.Crypto.ChunkedCodec.RoundTrip.{decrypt_buffer-encrypt_buffer}
use sync.Sync.Rows.{EntryRow, EntryDeletionRow, ObjectRow}

-- The tables of state.db that a sync reads or writes.
pub record Tables : Type 0 where
  pub entries : List EntryRow
  pub deletions : List EntryDeletionRow
  pub objects : List ObjectRow
  pub versions : List String
  pub ignore_globs : List String

-- `seal` stands for the reading of the file and `encryptBuffer` under a random context, `open_body`
-- for `decryptBuffer` and the opening of the file.
pub record SnapshotCodec : Type 1 where
  pub Context : Type 0
  pub Body : Type 0
  pub seal : Context → Tables → Result Body
  pub open_body : Body → Result Tables
  pub open-seal : (c : Context) (t : Tables) (b : Body) → seal c t ≡ ok b → open_body b ≡ ok t

-- SQLite's file of a database, and its reading; a file is shorter than 2^53 bytes.
pub record FileFormat : Type 0 where
  pub file_of : Tables → Bytes
  pub tables_of : Bytes → Result Tables
  pub tables_of-file_of : (t : Tables) → tables_of (file_of t) ≡ ok t
  pub is_small : (t : Tables) → length (file_of t) < 2 ^ 53

decrypt_of_encrypt :
    (sodium : Sodium) (documented : IsDocumented sodium) (master_key context plaintext b : Bytes)
    → length context ≤ 255
    → length plaintext < 2 ^ 53
    → encrypt_buffer sodium plaintext master_key context default_chunk_size ≡ ok b
    → decrypt_buffer sodium b master_key ≡ ok plaintext
decrypt_of_encrypt sodium documented master_key context plaintext b hc hp h =
    sym (ap (λ r. r >>= λ e. decrypt_buffer sodium e master_key) h)
    ∙ decrypt_buffer-encrypt_buffer sodium documented plaintext master_key context
        default_chunk_size hc (omega arith) (omega arith) hp

-- `encryptBuffer` and `decryptBuffer` under a master key.
pub chunked_codec : (sodium : Sodium) → IsDocumented sodium → FileFormat → Bytes → SnapshotCodec
chunked_codec sodium documented format master_key = record {
  Context = (c : Bytes) × (length c ≤ 255);
  Body = Bytes;
  seal = λ c t. encrypt_buffer sodium (format.file_of t) master_key c.0 default_chunk_size;
  open_body = λ b. decrypt_buffer sodium b master_key >>= format.tables_of;
  open-seal = λ c t b h.
      ap (λ r. r >>= format.tables_of)
        (decrypt_of_encrypt sodium documented master_key c.0 (format.file_of t) b c.1
          (format.is_small t) h)
      ∙ format.tables_of-file_of t;
}
