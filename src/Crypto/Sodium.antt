-- ===== src/Crypto/Sodium.antt =====
-- libsodium as crypto/ uses it, and `Buffer.toString("hex")`: the functions are parameters, with what
-- their documentation says as laws.
use sync.Prelude.{ℕ, ◌+◌, String, List, [], ◌∷◌, ◌≡◌, Option, some, length}
use sync.Crypto.Bytes.{Bytes, concat}

pub record Sodium : Type 1 where
  -- `crypto_generichash(out, message, key)` of 32 bytes, and without a key
  pub generichash_keyed : Bytes → Bytes → Bytes
  pub generichash : Bytes → Bytes
  -- `crypto_generichash_init`, `_update` and `_final`
  pub HashState : Type 0
  pub hash_init : HashState
  pub hash_update : HashState → Bytes → HashState
  pub hash_final : HashState → Bytes
  -- `crypto_kdf_derive_from_key(out, subkey_id, context, key)`, with the length of `out` first
  pub kdf_derive_from_key : ℕ → ℕ → Bytes → Bytes → Bytes
  -- `crypto_aead_xchacha20poly1305_ietf_encrypt` and `_decrypt` of a text under a nonce and a key;
  -- `none` where libsodium fails
  pub aead_encrypt : Bytes → Bytes → Bytes → Bytes
  pub aead_decrypt : Bytes → Bytes → Bytes → Option Bytes
  pub hex : Bytes → String

-- `crypto_aead_xchacha20poly1305_ietf_KEYBYTES`, `_NPUBBYTES` and `_ABYTES`
abbrev pub aead_key_bytes : ℕ
aead_key_bytes = 32

abbrev pub aead_nonce_bytes : ℕ
aead_nonce_bytes = 24

abbrev pub aead_tag_bytes : ℕ
aead_tag_bytes = 16

module _ (sodium : Sodium) where
  abbrev pub update_all : sodium.HashState → List Bytes → sodium.HashState
  update_all state [] = state
  update_all state (b ∷ bs) = update_all (sodium.hash_update state b) bs

-- The combined mode appends a tag, a text decrypts under the nonce and key that encrypted it, and the
-- hash of a message does not depend on how it is cut into updates.
pub record IsDocumented (sodium : Sodium) : Type 0 where
  pub length-aead_encrypt :
      (plain nonce key : Bytes)
      → length (sodium.aead_encrypt plain nonce key) ≡ length plain + aead_tag_bytes
  pub aead_decrypt-aead_encrypt :
      (plain nonce key : Bytes)
      → sodium.aead_decrypt (sodium.aead_encrypt plain nonce key) nonce key ≡ some plain
  pub hash_final-update_all :
      (parts : List Bytes)
      → sodium.hash_final (update_all sodium sodium.hash_init parts)
        ≡ sodium.generichash (concat parts)
