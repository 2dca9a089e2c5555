-- ===== src/Tests/Stub.antt =====
-- A stub of a file with a hash of 64 digits, as it is written and with white space around it.
use sync.Prelude.{String, true, ◌≡◌, refl, nat_eq, string_eq}
use sync.Errors.{ok}
use sync.Fs.StubText.{
  format_tagged_hash, read_stub_hash, is_valid_hash_hex, text_length, all_hex, is_hex_digit, trim,
  trim_start, trim_end, is_white, parse_tagged_hash, hash_algorithm,
}
use sync.Fs.StubText.Laws.{read_stub_hash-format, written_of_read}

abbrev hash : String
hash = "0e5751c026e543b2e8ab2eb06099daa1d1e5df47778f7787faab45cdf12fe3a8"

abbrev edited : String
edited = " blake2b:0e5751c026e543b2e8ab2eb06099daa1d1e5df47778f7787faab45cdf12fe3a8\n"

valid_hash : is_valid_hash_hex hash ≡ true
unfolding is_valid_hash_hex text_length all_hex is_hex_digit nat_eq
valid_hash = refl

read_edited : read_stub_hash edited ≡ ok hash
unfolding read_stub_hash trim trim_start trim_end is_white parse_tagged_hash hash_algorithm
    is_valid_hash_hex text_length all_hex is_hex_digit nat_eq string_eq
read_edited = refl

read_stub_hash-format_example : read_stub_hash (format_tagged_hash hash) ≡ ok hash
read_stub_hash-format_example = read_stub_hash-format hash valid_hash

written_of_read_example : (trim edited ≡ format_tagged_hash hash) × (is_valid_hash_hex hash ≡ true)
written_of_read_example = written_of_read edited hash read_edited
