-- ===== src/Fs/StubText.antt =====
-- crypto/hash.ts and fs/stub.ts: the text of a stub, which is written with `formatTaggedHash` and read
-- by `readStubHash`. A text is its code points.
use Prim.Native.String.{[] as nil, ◌∷◌ as cons}
use Prim.Native.Char.{Char, code}
use text.Mathlib.TextEquality.{Char-path}
use mathlib.Core.Option
use mathlib.Core.Option.{some-injective}
use text.Mathlib.TextLemmas.{nil-append, cons-append}
use sync.Prelude.{
  sym, Bool-cases, Option-cases, inl, inr, ℕ, suc, String, ◌<>◌, Bool, true, false, not, ◌&&◌, ◌||◌,
  Option, none, some, [], ◌∷◌, ◌≡◌, refl, ap, ◌∙◌, arith, ◌==◌, leb, if◌then◌else◌, contains,
  string_eq, nat_eq,
}
use sync.Errors.{guard-ok, ok-injective, Failure, Result, ok, throw}
pub mod Laws

unfoldable pub hash_algorithm : String
hash_algorithm = "blake2b"

pub record TaggedHash : Type 0 where
  pub algorithm : String
  pub hex : String

-- `formatTaggedHash`
unfoldable pub format_tagged_hash : String → String
format_tagged_hash hex = hash_algorithm <> (":" <> hex)

-- `parseTaggedHash`: what stands before the first colon, and what stands behind it.
unfoldable pub parse_tagged_hash : String → Option TaggedHash
parse_tagged_hash nil = none
parse_tagged_hash (cons c s) =
    let rest = parse_tagged_hash s in
    if code c == 58
    then some (record { algorithm = ""; hex = s })
    else Option.map (λ t. record { algorithm = cons c t.algorithm; hex = t.hex }) rest

unfoldable pub is_hex_digit : Char → Bool
is_hex_digit c = (leb 48 (code c) && leb (code c) 57) || (leb 97 (code c) && leb (code c) 102)

unfoldable pub all_hex : String → Bool
all_hex nil = true
all_hex (cons c s) = is_hex_digit c && all_hex s

unfoldable pub text_length : String → ℕ
text_length nil = 0
text_length (cons c s) = suc (text_length s)

-- `isValidHashHex`: /^[0-9a-f]{64}$/
unfoldable pub is_valid_hash_hex : String → Bool
is_valid_hash_hex hex = text_length hex == 64 && all_hex hex

-- The white space of JavaScript's `trim`.
unfoldable pub is_white : Char → Bool
is_white c =
    (leb 9 (code c) && leb (code c) 13)
    || (leb 8192 (code c) && leb (code c) 8202)
    || contains (code c) (32 ∷ 160 ∷ 5760 ∷ 8232 ∷ 8233 ∷ 8239 ∷ 8287 ∷ 12288 ∷ 65279 ∷ [])

unfoldable pub trim_start : String → String
trim_start nil = nil
trim_start (cons c s) = let rest = trim_start s in if is_white c then rest else cons c s

unfoldable pub trim_end : String → String
trim_end nil = nil
trim_end (cons c s) =
    let rest = trim_end s in if is_white c && text_length rest == 0 then nil else cons c rest

unfoldable pub trim : String → String
trim s = trim_start (trim_end s)

-- `readStubHash`, of the text that the stub file holds.
unfoldable pub read_stub_hash : String → Result String
read_stub_hash text = elim (parse_tagged_hash (trim text)) [
  | none ↦ throw (Failure.corruption "malformed stub content")
  | some parsed ↦
      if not (parsed.algorithm == hash_algorithm) || not (is_valid_hash_hex parsed.hex)
      then throw (Failure.corruption "malformed stub content")
      else ok parsed.hex
]
