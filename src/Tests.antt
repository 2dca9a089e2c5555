-- ===== src/Tests.antt =====
-- The theorems at concrete inputs: one new file that is uploaded, a bucket that two machines commit
-- to, and small tables.
mod Local
mod Bucket
mod Order
mod Tables
mod Remote
mod Collection
mod Parts
mod Encryption
mod Scan
mod Pages
mod Stub
mod Sync
