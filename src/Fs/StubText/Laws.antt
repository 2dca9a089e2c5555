-- ===== src/Fs/StubText/Laws.antt =====
-- The text of a stub says exactly its hash.
use Prim.Native.String.{[] as nil, ◌∷◌ as cons}
use Prim.Native.Char.{Char, code}
use text.Mathlib.TextEquality.{Char-path}
use mathlib.Core.Option
use mathlib.Core.Option.{some-injective}
use text.Mathlib.TextLemmas.{nil-append, cons-append}
use sync.Prelude.{
  sym, Bool-cases, Option-cases, inl, inr, String, ◌<>◌, Bool, true, false, not, ◌&&◌, ◌||◌, none,
  some, ◌≡◌, refl, ap, ◌∙◌, arith, ◌==◌, if◌then◌else◌, string_eq, nat_eq,
}
use sync.Errors.{guard-ok, ok-injective, Failure, ok, throw}
use sync.Fs.StubText.{
  hash_algorithm, TaggedHash, format_tagged_hash, parse_tagged_hash, is_hex_digit, all_hex,
  is_valid_hash_hex, is_white, trim_start, trim_end, trim, read_stub_hash,
}

hex_not_white : (c : Char) → is_hex_digit c ≡ true → is_white c ≡ false
unfolding is_hex_digit is_white nat_eq
hex_not_white c h = ground arith

solid : String → Bool
solid nil = true
solid (cons c s) = not (is_white c) && solid s

solid_of_hex : (s : String) → all_hex s ≡ true → solid s ≡ true
unfolding all_hex solid
solid_of_hex nil h = refl
solid_of_hex (cons c s) h = ground (arith, solid_of_hex s, hex_not_white c)

trim_end-solid : (s : String) → solid s ≡ true → trim_end s ≡ s
unfolding trim_end solid
trim_end-solid nil h = refl
trim_end-solid (cons c s) h = ground (arith, trim_end-solid s)

trim_start-solid : (s : String) → solid s ≡ true → trim_start s ≡ s
unfolding trim_start solid
trim_start-solid nil h = refl
trim_start-solid (cons c s) h = ground arith

trim-solid : (s : String) → solid s ≡ true → trim s ≡ s
unfolding trim
trim-solid s h = ap trim_start (trim_end-solid s h) ∙ trim_start-solid s h

solid-append : (s t : String) → solid s ≡ true → solid t ≡ true → solid (s <> t) ≡ true
unfolding solid
solid-append nil t h k = rw (nil-append t) k
solid-append (cons c s) t h k = rw (cons-append c s t) (ground (arith, solid-append s t))

solid-format : (hex : String) → solid hex ≡ true → solid (format_tagged_hash hex) ≡ true
unfolding solid format_tagged_hash hash_algorithm is_white nat_eq
solid-format hex h = solid-append "blake2b" (":" <> hex) refl (solid-append ":" hex refl h)

no_colon : String → Bool
no_colon nil = true
no_colon (cons c s) = not (code c == 58) && no_colon s

is_colon : String → Bool
is_colon nil = false
is_colon (cons c nil) = code c == 58
is_colon (cons c (cons d s)) = false

parse_colon :
    (sep t : String)
    → is_colon sep ≡ true
    → parse_tagged_hash (sep <> t) ≡ some (record { algorithm = ""; hex = t })
unfolding parse_tagged_hash is_colon
parse_colon nil t h = cc
parse_colon (cons c nil) t h =
    let colon : (code c == 58) ≡ true = h in rw (cons-append c nil t, nil-append t, colon)
parse_colon (cons c (cons d s)) t h = cc

-- The parse cuts at the first colon.
parse-append :
    (a sep t : String)
    → no_colon a ≡ true
    → is_colon sep ≡ true
    → parse_tagged_hash (a <> (sep <> t)) ≡ some (record { algorithm = a; hex = t })
unfolding parse_tagged_hash no_colon
parse-append nil sep t h k = rw (nil-append (sep <> t)) (parse_colon sep t k)
parse-append (cons c s) sep t h k =
    let other : (code c == 58) ≡ false = ground arith in
    let later : no_colon s ≡ true = ground arith in
    let rest = parse-append s sep t later k in rw (cons-append c s (sep <> t), other, rest)

parse-format :
    (hex : String)
    → parse_tagged_hash (format_tagged_hash hex)
      ≡ some (record { algorithm = hash_algorithm; hex = hex })
unfolding no_colon is_colon format_tagged_hash hash_algorithm nat_eq
parse-format hex = parse-append "blake2b" ":" hex refl refl

-- A stub that was written for a valid hash is read back as that hash.
pub read_stub_hash-format :
    (hex : String) → is_valid_hash_hex hex ≡ true → read_stub_hash (format_tagged_hash hex) ≡ ok hex
unfolding read_stub_hash is_valid_hash_hex string_eq hash_algorithm
read_stub_hash-format hex h =
    let digits : all_hex hex ≡ true = ground arith in
    let whole : trim (format_tagged_hash hex) ≡ format_tagged_hash hex =
      trim-solid (format_tagged_hash hex) (solid-format hex (solid_of_hex hex digits)) in
    rw (read_stub_hash, whole, parse-format hex, h)

abbrev colon : Char
colon = ":"

colon_text : (c : Char) (s : String) → (code c == 58) ≡ true → cons c s ≡ ":" <> s
unfolding nat_eq
colon_text c s h =
    let same : code c ≡ 58 = ground arith in
    let p : c ≡ colon = Char-path c colon same in
    ap (λ d. cons d s) p ∙ sym (cons-append colon nil s ∙ ap (λ t. cons colon t) (nil-append s))

abbrev empty_tag : String → TaggedHash
empty_tag s = record { algorithm = ""; hex = s }

parse_here :
    (c : Char) (s : String)
    → (code c == 58) ≡ true
    → parse_tagged_hash (cons c s) ≡ some (record { algorithm = ""; hex = s })
unfolding parse_tagged_hash
parse_here c s h = rw h

abbrev add_first : Char → TaggedHash → TaggedHash
add_first c t = record { algorithm = cons c t.algorithm; hex = t.hex }

parse_later :
    (c : Char) (s : String)
    → (code c == 58) ≡ false
    → parse_tagged_hash (cons c s) ≡ Option.map (add_first c) (parse_tagged_hash s)
unfolding parse_tagged_hash
parse_later c s h = rw h

-- What a tagged hash is the parse of.
abbrev joined : TaggedHash → String
joined t = t.algorithm <> (":" <> t.hex)

-- A parse that succeeds gives the two sides of a colon.
parts : (s : String) (t : TaggedHash) → parse_tagged_hash s ≡ some t → s ≡ joined t
unfolding parse_tagged_hash
parts nil t h = absurd (cc h)
parts (cons c s) t h = elim (Bool-cases (code c == 58)) [
  | inl k ↦
      let found : empty_tag s ≡ t = some-injective _ _ (sym (parse_here c s k) ∙ h) in
      colon_text c s k ∙ sym (nil-append (":" <> s)) ∙ ap joined found
  | inr k ↦ elim (Option-cases (parse_tagged_hash s)) [
    | inl n ↦ let e = parse_later c s k in absurd (cc (e, n, h))
    | inr (u, at) ↦
        let found : add_first c u ≡ t =
          some-injective _ _ (sym (parse_later c s k ∙ ap (Option.map (add_first c)) at) ∙ h) in
        ap (λ l. cons c l) (parts s u at)
        ∙ sym (cons-append c u.algorithm (":" <> u.hex))
        ∙ ap joined found
  ]
]

read_none :
    (text : String)
    → parse_tagged_hash (trim text) ≡ none
    → read_stub_hash text ≡ throw (Failure.corruption "malformed stub content")
unfolding read_stub_hash
read_none text h = rw (read_stub_hash, h)

read_some :
    (text : String) (t : TaggedHash)
    → parse_tagged_hash (trim text) ≡ some t
    → read_stub_hash text ≡ (
        if not (t.algorithm == hash_algorithm) || not (is_valid_hash_hex t.hex)
        then throw (Failure.corruption "malformed stub content")
        else ok t.hex)
unfolding read_stub_hash
read_some text t h = rw (read_stub_hash, h)

not_refused :
    (a : String) (v : Bool)
    → (not (a == hash_algorithm) || not v) ≡ false
    → (a ≡ hash_algorithm) × (v ≡ true)
not_refused a v h = ground arith

-- A text is read as a hash only if the hash is valid and the text, without the white space around
-- it, is the one that a stub of that hash is written with.
pub written_of_read :
    (text hex : String)
    → read_stub_hash text ≡ ok hex
    → (trim text ≡ format_tagged_hash hex) × (is_valid_hash_hex hex ≡ true)
unfolding format_tagged_hash
written_of_read text hex h = elim (Option-cases (parse_tagged_hash (trim text))) [
  | inl n ↦ let refused = read_none text n in absurd (cc (refused, h))
  | inr (t, at) ↦
      let kept = guard-ok _ _ _ hex (sym (read_some text t at) ∙ h) in
      let same : t.hex ≡ hex = ok-injective kept.1 in
      let good = not_refused t.algorithm (is_valid_hash_hex t.hex) kept.0 in
      (
        parts (trim text) t at
            ∙ ap (λ a. a <> (":" <> t.hex)) good.0
            ∙ ap (λ x. hash_algorithm <> (":" <> x)) same,
        ap is_valid_hash_hex (sym same) ∙ good.1,
      )
]
