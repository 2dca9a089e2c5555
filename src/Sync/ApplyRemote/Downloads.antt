-- ===== src/Sync/ApplyRemote/Downloads.antt =====
-- A download: what it leaves on disk however its attempts go, and its row in the cache.
use sync.Prelude.{
  String, true, false, Option, none, some, List, ◌≡◌, ◌⊎◌, refl, ap, ◌==◌, ==-refl, string_eq, inl,
  inr,
}
use sync.Prelude.Table.{find-upsert, find-remove}
use sync.Errors.{Failure}
use sync.Fs.Disk.{Node}
use sync.S3.Retry.{RetryResult, resolved, threw, aborted, out_of_fuel}
use sync.Sync.Rows.{EntryRow}
use sync.Sync.Upload.{box}
use sync.Sync.Schedule.{has_error}
use sync.Sync.Download.Laws.{AreLeft}
use sync.Sync.ApplyRemote.{Download, Remote, Arguments, settle_download, failure_of}
use sync.Sync.ApplyRemote.Steps.{get_download, Same, IsDownload, IsBrought, landed, loading}

module _ (c : Arguments) (d : Download) where
  abbrev target : String
  target = c.absolute d.path

  -- At every path, after a download.
  abbrev pub IsDownloaded : List Node → List Node → Type 0
  IsDownloaded = AreLeft target (c.parents target) (c.in_tree_temp_path target) d.hash

boxed : (o : Option Failure) (e : Failure) → has_error (box o e) ≡ true
unfolding box
boxed none e = refl
boxed (some first) e = refl

module _ (c : Arguments) (d : Download) (disk : List Node) (s : Remote) where
  pub settle_download-other :
      (p : String) (r : RetryResult (Unit {0}))
      → (d.path == p) ≡ false
      → Same p s (settle_download c d r disk s)
  unfolding settle_download
  settle_download-other p (resolved a) other = (rw (find-upsert, other), rw (find-remove, other))
  settle_download-other p (threw e) other = (refl, rw (find-remove, other))
  settle_download-other p aborted other = (refl, refl)
  settle_download-other p out_of_fuel other = (refl, refl)

  -- The row is brought, or is still being loaded, or the pool has failed.
  pub settle_download-here :
      (e : EntryRow) (r : RetryResult (Unit {0}))
      → IsDownload e (some d)
      → get_download e.path s.downloads ≡ some d
      → IsBrought e (settle_download c d r disk s)
        ⊎ (has_error (settle_download c d r disk s).stream_error ≡ true)
  unfolding settle_download
  settle_download-here e (resolved a) (at, t, h, v) found = inl (
      landed (rw (find-upsert, at, ==-refl e.path, t) (h, refl, refl, ap some v))
        (rw (find-remove, at, ==-refl e.path)))
  settle_download-here e (threw x) (at, t, h, v) found =
      inr (boxed s.stream_error (failure_of d.path x))
  settle_download-here e aborted is found = inl (loading (rw found is))
  settle_download-here e out_of_fuel is found = inl (loading (rw found is))

  pub settle_download-error :
      (r : RetryResult (Unit {0}))
      → has_error s.stream_error ≡ true
      → has_error (settle_download c d r disk s).stream_error ≡ true
  unfolding settle_download
  settle_download-error (resolved a) h = h
  settle_download-error (threw e) h = boxed s.stream_error (failure_of d.path e)
  settle_download-error aborted h = h
  settle_download-error out_of_fuel h = h
