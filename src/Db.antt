-- ===== src/Db.antt =====
-- src/db/: tables in the order of a key, and reading them in pages.
pub mod Ordered
pub mod Pages
