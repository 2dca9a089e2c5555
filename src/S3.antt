-- ===== src/S3.antt =====
-- src/s3/: requests to the bucket.
pub mod Retry
pub mod Storage
pub mod Multipart
