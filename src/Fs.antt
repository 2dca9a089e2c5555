-- ===== src/Fs.antt =====
-- src/fs/: the tracked tree.
pub mod GlobMatch
pub mod Disk
pub mod StubText
