-- ===== src/Tests/Parts.antt =====
-- The parts of a small copy and of a large object.
use sync.Prelude.{none, ◌*◌, ◌≤◌, length, arith}
use sync.S3.Multipart.{
  copy_byte_ranges, copy_part_size, multipart_part_size, max_parts, min_part_size_bytes,
}
use sync.S3.Multipart.Laws.{IsPartition, copy_byte_ranges-IsPartition, parts_within_limits}

copy_byte_ranges-IsPartition_example : IsPartition 1 0 10 4 (copy_byte_ranges 10 4)
copy_byte_ranges-IsPartition_example = copy_byte_ranges-IsPartition 10 4 (omega arith)

parts_within_limits_example :
    (length (copy_byte_ranges 96_000_000_000 (copy_part_size 96_000_000_000 none)) ≤ max_parts)
    × (min_part_size_bytes ≤ copy_part_size 96_000_000_000 none)
    × (96_000_000_000 ≤ max_parts * multipart_part_size 96_000_000_000)
    × (min_part_size_bytes ≤ multipart_part_size 96_000_000_000)
parts_within_limits_example = parts_within_limits 96_000_000_000
