-- ===== src/Sync/ApplyRemote/Steps.antt =====
-- What one row of the merge join does at its own path and at the others.
use sync.Prelude.{
  ◌⊎◌, ◌+◌, String, Bool, true, false, Option, none, some, List, [], ◌∷◌, ◌++◌, ◌≡◌, refl, sym,
  ◌==◌, ==-refl, contains, arith, string_eq, option_eq, inl, inr, Bool-cases,
}
use sync.Prelude.Table
use sync.Prelude.Table.{find-upsert, find-remove}
use sync.Errors.{Result, ok}
use sync.Fs.Disk.{Node, stub_path_for, is_directory, mkdir_sync, currently_stub_backed}
use sync.Fs.GlobMatch.{matches_any_glob}
use sync.Sync.Rows.{
  entry_path, EntryType, file, dir, EntryRow, CacheEntryRow, unchanged, ObjectRow, get_cache,
  get_object,
}
use sync.Sync.MergeJoin.{Step, remote_only, local_only, both, step_path}
use sync.Sync.Soundness.Rows.{Returns, Returns-bind}
use sync.Sync.ApplyRemote.{
  Download, download_path, Remote, Arguments, made_directories, with_directory, with_stub,
  publish_stub, apply_directory, write_stub, dispatch_download, apply_object, apply_file_content,
  apply_remote_content_change, apply_remote_delete, note_ignored, apply_included, apply_step,
}

abbrev pub get_download : String → List Download → Option Download
get_download = Table.find download_path

-- Nothing changes at the path.
abbrev pub Same : String → Remote → Remote → Type 0
Same p s s' =
    (get_cache p s'.cache ≡ get_cache p s.cache)
    × (get_download p s'.downloads ≡ get_download p s.downloads)

abbrev pub entry_content : EntryType → Option String → Option String
entry_content file hash = hash
entry_content dir hash = none

-- The row that the cache holds for an entry which was brought here.
abbrev pub IsRow : EntryRow → Option CacheEntryRow → Type 0
IsRow e none = ⊥
IsRow e (some r) =
    (r.hash ≡ entry_content e.type e.hash)
    × (r.type ≡ e.type)
    × (r.state ≡ unchanged)
    × (r.parent_state_version ≡ some e.state_version)

-- The download that fetches an entry's content.
abbrev pub IsDownload : EntryRow → Option Download → Type 0
IsDownload e none = ⊥
IsDownload e (some d) =
    (d.path ≡ e.path)
    × (e.type ≡ file)
    × (some d.hash ≡ e.hash)
    × (d.state_version ≡ e.state_version)

pub data IsBrought (e : EntryRow) (s : Remote) : Type 0 where
  landed :
      IsRow e (get_cache e.path s.cache) → get_download e.path s.downloads ≡ none → IsBrought e s
  loading : IsDownload e (get_download e.path s.downloads) → IsBrought e s

made_directories-Returns :
    (P : Remote → Type 0) (path : String) (m : Option String × List Node)
    (go_on : List Node → Result Remote)
    → ((disk : List Node) → Returns (go_on disk) P)
    → Returns (made_directories path m go_on) P
made_directories-Returns P path (none, disk) go_on h = h disk
made_directories-Returns P path (some code, disk) go_on h = tt

-- What holds of a state with the new row in its cache holds of the outcomes that return.
pub apply_directory-Returns :
    (P : Remote → Type 0) (c : Arguments) (e : EntryRow) (s : Remote)
    → ((disk : List Node) → P (with_directory c e s disk))
    → Returns (apply_directory c e s) P
unfolding apply_directory
apply_directory-Returns P c e s h =
    let absolute_path = c.absolute e.path in
    made_directories-Returns P e.path
      (mkdir_sync (c.parents absolute_path ++ (absolute_path ∷ [])) s.disk)
      (λ disk. ok (with_directory c e s disk)) h

pub write_stub-Returns :
    (P : Remote → Type 0) (c : Arguments) (e : EntryRow) (hash : String) (o : ObjectRow)
    (s : Remote)
    → ((disk : List Node) → P (with_stub c e hash o s disk))
    → Returns (write_stub c e hash o s) P
unfolding write_stub
write_stub-Returns P c e hash o s h =
    made_directories-Returns P e.path (mkdir_sync (c.parents (c.absolute e.path)) s.disk)
      (publish_stub c e hash o s)
      λ disk. elim (Bool-cases (is_directory (stub_path_for (c.absolute e.path)) disk)) [
        | inl taken ↦ rw taken tt
        | inr free ↦ rw free (h disk)
      ]

module _ (c : Arguments) (e : EntryRow) (s : Remote) where
  module _ (idle : get_download e.path s.downloads ≡ none) where
    apply_object-here :
        (hash : String) (o : Option ObjectRow) (stubbed : Bool)
        → e.type ≡ file
        → e.hash ≡ some hash
        → Returns (apply_object c e hash o stubbed s) (IsBrought e)
    unfolding apply_object dispatch_download
    apply_object-here hash none stubbed t h = tt
    apply_object-here hash (some o) true t h =
        write_stub-Returns (IsBrought e) c e hash o s
          λ disk. landed (rw (find-upsert, ==-refl e.path, t) (sym h, refl, refl, refl)) idle
    apply_object-here hash (some o) false t h =
        loading (rw (find-upsert, ==-refl e.path) (refl, t, sym h, refl))

    apply_file_content-here :
        (content : Option String) (stubbed : Bool)
        → e.type ≡ file
        → e.hash ≡ content
        → Returns (apply_file_content c e content stubbed s) (IsBrought e)
    unfolding apply_file_content
    apply_file_content-here none stubbed t h = tt
    apply_file_content-here (some hash) stubbed t h = elim (Bool-cases (hash == "")) [
      | inl empty ↦ rw empty tt
      | inr full ↦ rw full (apply_object-here hash (get_object hash c.objects) stubbed t h)
    ]

    apply_remote_content_change-here :
        (type : EntryType) (stubbed : Bool)
        → e.type ≡ type
        → Returns (apply_remote_content_change c e type stubbed s) (IsBrought e)
    unfolding apply_remote_content_change
    apply_remote_content_change-here dir stubbed t =
        apply_directory-Returns (IsBrought e) c e s
          λ disk. landed (rw (find-upsert, ==-refl e.path, t) (refl, refl, refl, refl)) idle
    apply_remote_content_change-here file stubbed t = apply_file_content-here e.hash stubbed t refl

  module _ (p : String) (other : (e.path == p) ≡ false) where
    apply_object-other :
        (hash : String) (o : Option ObjectRow) (stubbed : Bool)
        → Returns (apply_object c e hash o stubbed s) (Same p s)
    unfolding apply_object dispatch_download
    apply_object-other hash none stubbed = tt
    apply_object-other hash (some o) true =
        write_stub-Returns (Same p s) c e hash o s λ disk. (rw (find-upsert, other), refl)
    apply_object-other hash (some o) false = (refl, rw (find-upsert, other))

    apply_file_content-other :
        (content : Option String) (stubbed : Bool)
        → Returns (apply_file_content c e content stubbed s) (Same p s)
    unfolding apply_file_content
    apply_file_content-other none stubbed = tt
    apply_file_content-other (some hash) stubbed = elim (Bool-cases (hash == "")) [
      | inl empty ↦ rw empty tt
      | inr full ↦ rw full (apply_object-other hash (get_object hash c.objects) stubbed)
    ]

    apply_remote_content_change-other :
        (type : EntryType) (stubbed : Bool)
        → Returns (apply_remote_content_change c e type stubbed s) (Same p s)
    unfolding apply_remote_content_change
    apply_remote_content_change-other dir stubbed =
        apply_directory-Returns (Same p s) c e s λ disk. (rw (find-upsert, other), refl)
    apply_remote_content_change-other file stubbed = apply_file_content-other e.hash stubbed

note_ignored-Same :
    (p path : String) (o : Option String) (s s' : Remote)
    → Same p s s'
    → Same p s (note_ignored path o s')
unfolding note_ignored
note_ignored-Same p path none s s' same = same
note_ignored-Same p path (some pattern) s s' same = same

note_ignored-IsBrought :
    (e : EntryRow) (path : String) (o : Option String) (s : Remote)
    → IsBrought e s
    → IsBrought e (note_ignored path o s)
unfolding note_ignored
note_ignored-IsBrought e path none s b = b
note_ignored-IsBrought e path (some pattern) s (landed r d) = landed r d
note_ignored-IsBrought e path (some pattern) s (loading d) = loading d

-- The other paths are left alone.
apply_included-other :
    (c : Arguments) (p : String) (x : Step EntryRow) (s : Remote)
    → (step_path entry_path x == p) ≡ false
    → Returns (apply_included c x s) (Same p s)
unfolding apply_included apply_remote_delete
apply_included-other c p (remote_only e) s other =
    Returns-bind (Same p s) _ _ _ (apply_remote_content_change-other c e s p other e.type true)
      λ s' same.
        note_ignored-Same p e.path (matches_any_glob c.matches e.path c.ignore_globs) s
          (record s' { created = s'.created + 1 }) same
apply_included-other c p (local_only r) s other = (rw (find-remove, other), refl)
apply_included-other c p (both r e) s other = elim (Bool-cases (r.hash == e.hash)) [
  | inl same ↦ rw same (refl, refl)
  | inr differs ↦ rw differs (
      Returns-bind (Same p s) _ _ _
        (apply_remote_content_change-other c e s p other e.type
          (currently_stub_backed (c.absolute e.path) s.disk))
        (λ s' same. same))
]

-- What the row of the merge join leaves at its own path.
abbrev pub Applied : Step EntryRow → Remote → Remote → Type 0
Applied (remote_only e) s s' = IsBrought e s'
Applied (local_only r) s s' =
    (get_cache r.path s'.cache ≡ none) × (get_download r.path s'.downloads ≡ none)
Applied (both r e) s s' = ((r.hash ≡ e.hash) × (s' ≡ s)) ⊎ IsBrought e s'

apply_included-here :
    (c : Arguments) (x : Step EntryRow) (s : Remote)
    → get_download (step_path entry_path x) s.downloads ≡ none
    → Returns (apply_included c x s) (Applied x s)
unfolding apply_included apply_remote_delete
apply_included-here c (remote_only e) s idle =
    Returns-bind (IsBrought e) _ _ _ (apply_remote_content_change-here c e s idle e.type true refl)
      λ s' b.
        note_ignored-IsBrought e e.path (matches_any_glob c.matches e.path c.ignore_globs)
          (record s' { created = s'.created + 1 }) (count-IsBrought s' b)
  where
    count-IsBrought :
        (s' : Remote) → IsBrought e s' → IsBrought e (record s' { created = s'.created + 1 })
    count-IsBrought s' (landed r d) = landed r d
    count-IsBrought s' (loading d) = loading d
apply_included-here c (local_only r) s idle = (rw (find-remove, ==-refl r.path), idle)
apply_included-here c (both r e) s idle = elim (Bool-cases (r.hash == e.hash)) [
  | inl same ↦ rw same (inl (ground arith, refl))
  | inr differs ↦ rw differs (
      Returns-bind (IsBrought e) _ _ _
        (apply_remote_content_change-here c e s idle e.type
          (currently_stub_backed (c.absolute e.path) s.disk) refl)
        (λ s' b. inr (count-IsBrought s' b)))
]
  where
    count-IsBrought :
        (s' : Remote) → IsBrought e s' → IsBrought e (record s' { modified = s'.modified + 1 })
    count-IsBrought s' (landed r d) = landed r d
    count-IsBrought s' (loading d) = loading d

pub apply_step-other :
    (c : Arguments) (p : String) (x : Step EntryRow) (s : Remote)
    → (step_path entry_path x == p) ≡ false
    → Returns (apply_step c x s) (Same p s)
unfolding apply_step
apply_step-other c p x s other =
    elim (Bool-cases (contains (step_path entry_path x) c.exclude_paths)) [
      | inl skipped ↦ rw skipped (refl, refl)
      | inr included ↦ rw included (apply_included-other c p x s other)
    ]

pub apply_step-here :
    (c : Arguments) (x : Step EntryRow) (s : Remote)
    → contains (step_path entry_path x) c.exclude_paths ≡ false
    → get_download (step_path entry_path x) s.downloads ≡ none
    → Returns (apply_step c x s) (Applied x s)
unfolding apply_step
apply_step-here c x s included idle = rw included (apply_included-here c x s idle)

pub apply_step-excluded :
    (c : Arguments) (x : Step EntryRow) (s : Remote)
    → contains (step_path entry_path x) c.exclude_paths ≡ true
    → apply_step c x s ≡ ok s
unfolding apply_step
apply_step-excluded c x s skipped = rw skipped
