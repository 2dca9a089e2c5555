-- ===== src/S3/Multipart/Laws.antt =====
-- The ranges of a copy partition the object, within S3's limits.
use sync.Prelude.{
  ℕ, zero, suc, ◌+◌, ◌*◌, ◌≤◌, ◌<◌, none, List, [], ◌∷◌, ◌≡◌, ◌⊎◌, inl, inr, refl, ltb, length,
  Bool-cases, arith,
}
use sync.S3.Multipart.{
  max_parts, min_part_size_bytes, ceil_parts, multipart_part_size, copy_part_size, CopyByteRange,
  ranges_from, copy_byte_ranges,
}

-- The ranges are numbered in turn, follow on each other without gap or overlap up to the object's end,
-- and each is full, save that the last may be shorter.
abbrev pub IsPartition : ℕ → ℕ → ℕ → ℕ → List CopyByteRange → Type 0
IsPartition part_number start size_bytes part_size [] = size_bytes ≤ start
IsPartition part_number start size_bytes part_size (r ∷ ranges) =
    (r.part_number ≡ part_number)
    × (r.start ≡ start)
    × (r.start ≤ r.end)
    × (r.end < size_bytes)
    × ((r.end + 1 ≡ start + part_size)
        ⊎ ((r.end + 1 ≡ size_bytes) × (r.end + 1 < start + part_size)))
    × IsPartition (part_number + 1) (start + part_size) size_bytes part_size ranges

ranges_from-IsPartition :
    (fuel part_number start size_bytes part_size : ℕ)
    → 0 < part_size
    → size_bytes ≤ start + fuel
    → IsPartition part_number start size_bytes part_size
        (ranges_from fuel part_number start size_bytes part_size)
unfolding ranges_from
ranges_from-IsPartition zero part_number start size_bytes part_size pos enough = omega arith
ranges_from-IsPartition (suc fuel) part_number start size_bytes part_size pos enough =
    elim (Bool-cases (ltb start size_bytes)) [
      | inl below ↦ rw below (
        refl,
        refl,
        ground arith,
        ground arith,
        ground arith,
        ranges_from-IsPartition fuel (part_number + 1) (start + part_size) size_bytes part_size pos
            (omega arith),
      )
      | inr above ↦ rw above (ground arith)
    ]

-- With a part size above zero, the ranges of a copy partition the object: numbered from 1, from byte 0
-- to its last byte, without gap or overlap, all of the part size but the last, which may be shorter.
pub copy_byte_ranges-IsPartition :
    (size_bytes part_size : ℕ)
    → 0 < part_size
    → IsPartition 1 0 size_bytes part_size (copy_byte_ranges size_bytes part_size)
unfolding copy_byte_ranges
copy_byte_ranges-IsPartition size_bytes part_size pos =
    ranges_from-IsPartition size_bytes 1 0 size_bytes part_size pos (omega arith)

length-ranges_from :
    (fuel k part_number start size_bytes part_size : ℕ)
    → size_bytes ≤ start + k * part_size
    → length (ranges_from fuel part_number start size_bytes part_size) ≤ k
unfolding ranges_from
length-ranges_from zero k part_number start size_bytes part_size enough = omega arith
length-ranges_from (suc fuel) zero part_number start size_bytes part_size enough = ground arith
length-ranges_from (suc fuel) (suc k) part_number start size_bytes part_size enough =
    let step : suc k * part_size ≡ part_size + k * part_size = omega arith in
    let ih =
      length-ranges_from fuel k (part_number + 1) (start + part_size) size_bytes part_size
        (omega arith) in
    ground (arith, ih)

ceil_parts_covers : (size : ℕ) → size ≤ max_parts * ceil_parts size
unfolding ceil_parts
ceil_parts_covers size = omega arith

-- The copy of an object of any size takes at most the 10,000 parts that S3 allows, with a part size of
-- at least S3's minimum; the part size of an upload is at least that too, and 10,000 such parts cover
-- the object.
pub parts_within_limits :
    (size : ℕ)
    → (length (copy_byte_ranges size (copy_part_size size none)) ≤ max_parts)
      × (min_part_size_bytes ≤ copy_part_size size none)
      × (size ≤ max_parts * multipart_part_size size)
      × (min_part_size_bytes ≤ multipart_part_size size)
unfolding copy_byte_ranges copy_part_size multipart_part_size
parts_within_limits size =
    let covers = ceil_parts_covers size in
    (
      length-ranges_from size max_parts 1 0 size (copy_part_size size none) (omega (arith, covers)),
      omega arith,
      omega (arith, covers),
      omega arith,
    )
