-- ===== src/Crypto.antt =====
-- The encryption of objects and databases: crypto/.
pub mod Bytes
pub mod Sodium
pub mod ChunkedCodec
pub mod StreamReader
pub mod StreamingCodec
