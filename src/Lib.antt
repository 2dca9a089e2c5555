-- ===== src/Lib.antt =====
-- sync1, an encrypted backup tool that keeps a folder in step with an S3 bucket.
--
-- A machine has a folder, cache.db (what it knows of the folder, with the changes not yet sent) and a
-- copy of state.db (the vault's table of entries and objects). A sync fetches the vault's state.db as
-- a candidate, writes the local changes into it, uploading content first (sync/apply-local-changes.ts
-- with sync/conflict-rules.ts), brings the folder to the candidate (sync/apply-remote-changes.ts),
-- moves the bucket's `/current` pointer to the new version by a conditional PUT
-- (sync/commit-pointer.ts) and marks the sent rows of cache.db as unchanged
-- (sync/reconcile-cache.ts). Requests are retried by s3/retry.ts. All paths
-- here are below src/.
--
-- Files:
--   Prelude        shared names, equality, lists; Prelude/Table is a table under a primary key, and
--                  Prelude/Acts code that changes a state and may throw
--   Errors         errors.ts and the error classes that the operations declare
--   S3/Retry       s3/retry.ts: isTransientS3Error, backoffDelayMs, withS3Retry
--   S3/Storage     s3/archive-status.ts, s3/policy-evaluation.ts, s3/storage-class-actions.ts
--   S3/Multipart   part sizes and ranges of s3/copy-object.ts and s3/client.ts
--   Fs             fs/glob-match.ts, fs/stub.ts with the texts of crypto/hash.ts, and the files that a
--                  sync writes
--   Sync/Rows      the rows and lookups of db/repositories/
--   Sync/Conflict  sync/conflict-rules.ts
--   Sync/Candidate the variables of one run and the repository calls that change them
--   Sync/ApplyLocal, Sync/Upload, Sync/Schedule
--                  sync/apply-local-changes.ts: the two passes over the dirty rows, the HEAD check and
--                  the upload of one object, and the pools as a schedule of events
--   Sync/Accounting, Sync/Soundness, Sync/FastForward
--                  invariants of such a run, and what it leaves for the next one
--   Sync/Reconcile sync/reconcile-cache.ts and `filterByPath` of sync/commit.ts
--   Sync/CommitPointer
--                  sync/commit-pointer.ts over `putObjectCas` of s3/client.ts
--   Sync/MergeJoin, Sync/Download, Sync/ApplyRemote
--                  sync/apply-remote-changes.ts: the merge join of cache.db and the candidate, which
--                  fs/update-cache.ts makes with the walk through the folder too, and the pass over
--                  it, with the downloads of the pool as a schedule of events
--   Sync/Dirty, Sync/Snapshot
--                  the listing of the dirty rows of cache.db, and the snapshot of a version
--   Sync/Commit    sync/commit.ts: the whole of `performSync`. Bucket has its requests, Phases the scan,
--                  the fold and the pull; Keeps, AtPaths and Settles say what a run keeps and leaves
--   Sync/Gc        sync/gc.ts and the orphan queries of db/repositories/objects-repository.ts
--   Crypto         crypto/: Sodium is libsodium's part, ChunkedCodec is chunked-codec.ts, StreamReader
--                  and StreamingCodec are streaming-codec.ts
--   Db/Ordered     `ORDER BY` a key
--   Db/Pages       db/keyset-pagination.ts, db/glob-scan.ts and the scans of entries-repository.ts
--   UpdateCache    fs/update-cache.ts with db/repositories/staging-repository.ts: Collisions and Run are
--                  its parts, Expected what is asked of one path, Collisions/ that names do not
--                  collide, and the rest the proof that a run gives what is expected
--   Tests          the theorems at concrete inputs
--
-- Asynchronous code: the tasks of the pools are events, and a schedule is any list of the loop's
-- turns and of answers to tasks in flight, so that what holds for every schedule holds for every
-- order in which the bucket answers. A function that may throw returns a `Result`. `performSync`
-- changes the machine and the bucket step by step; before each of its requests other machines may act
-- on the bucket, and a run whose schedule stops early, or whose retries run out of fuel, is
-- `unfinished`. JavaScript numbers
-- that count bytes, files and milliseconds are natural numbers; the arithmetic stays below 2^53.
-- Retries: `withS3Retry` has no limit on its attempts, and its model takes fuel; a loop whose operation
-- fails n times needs fuel n + 1. `withMirrorRetry` has the source's limit of five attempts, and so
-- has the loop of a garbage collection.
--
-- A loop over chunks whose count is Infinity (a header with chunk size zero) takes a tag off what is
-- left at each turn, so that one turn more than there are bytes is enough. A scan in pages needs one
-- turn more than there are rows.
--
-- Parameters: libsodium, the bucket (PointerStore, with the ETag law), what the network and the mirror answer,
-- file sizes and times, the case folding of paths, minimatch, and the orders of texts in JavaScript
-- and in SQLite.
--
-- Not modelled: key derivation from a password, hash workers, SQLite, progress and logging, the command line,
-- thumbnails, the mirror's own commands and the copies of state.db to it, a crash between two writes of
-- one phase, what other machines do while a collection deletes.
pub mod Prelude
pub mod Errors
pub mod S3
pub mod Fs
pub mod Crypto
pub mod Db
pub mod UpdateCache
pub mod Sync
mod Tests
