-- ===== src/Sync.antt =====
-- src/sync/: folding local changes into the vault's state and the vault's changes into the tree.
pub mod Rows
pub mod Dirty
pub mod Snapshot
pub mod Conflict
pub mod Candidate
pub mod Upload
pub mod ApplyLocal
pub mod Schedule
pub mod Soundness
pub mod Accounting
pub mod Reconcile
pub mod FastForward
pub mod CommitPointer
pub mod MergeJoin
pub mod Download
pub mod ApplyRemote
pub mod Gc
pub mod Commit
