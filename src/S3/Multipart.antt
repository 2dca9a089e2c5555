-- ===== src/S3/Multipart.antt =====
-- Part sizes and byte ranges: `multipartPartSize` of src/s3/client.ts, `copyPartSize` and
-- `copyByteRanges` of src/s3/copy-object.ts. The loop over the ranges takes a part size above zero off
-- what is left at each turn, so that the object's size is fuel enough.
pub mod Laws
use sync.Prelude.{
  ℕ, zero, suc, ◌+◌, ◌-◌, ◌*◌, ◌/◌, min, max, Bool, true, false, Option, none, some, List, [], ◌∷◌,
  ltb, if◌then◌else◌,
}

-- `MAX_MULTIPART_PARTS` and `MAX_COPY_PARTS`
abbrev pub max_parts : ℕ
max_parts = 10_000

-- `MIN_PART_SIZE_BYTES` and `MIN_COPY_PART_SIZE_BYTES`
abbrev pub min_part_size_bytes : ℕ
min_part_size_bytes = 5_242_880

abbrev pub default_part_size : ℕ
default_part_size = 536_870_912

-- `Math.ceil(size / 10_000)`
unfoldable pub ceil_parts : ℕ → ℕ
ceil_parts size = (size + 9_999) / max_parts

unfoldable pub multipart_part_size : ℕ → ℕ
unfolding ceil_parts
multipart_part_size content_length = max min_part_size_bytes (ceil_parts content_length)

-- `override` is used by tests only.
unfoldable pub copy_part_size : ℕ → Option ℕ → ℕ
unfolding ceil_parts
copy_part_size size_bytes (some override) = override
copy_part_size size_bytes none =
    max min_part_size_bytes (max default_part_size (ceil_parts size_bytes))

-- `end` is inclusive.
pub record CopyByteRange : Type 0 where
  pub part_number : ℕ
  pub start : ℕ
  pub end : ℕ

unfoldable pub ranges_from : ℕ → ℕ → ℕ → ℕ → ℕ → List CopyByteRange
ranges_from zero part_number start size_bytes part_size = []
ranges_from (suc fuel) part_number start size_bytes part_size =
    let rest = ranges_from fuel (part_number + 1) (start + part_size) size_bytes part_size in
    if ltb start size_bytes
    then record {
      part_number = part_number;
      start = start;
      end = min (start + part_size) size_bytes - 1;
    }
      ∷ rest
    else []

unfoldable pub copy_byte_ranges : ℕ → ℕ → List CopyByteRange
unfolding ranges_from
copy_byte_ranges size_bytes part_size = ranges_from size_bytes 1 0 size_bytes part_size
