-- ===== src/Sync/ApplyRemote/ErrorBox.antt =====
-- The rows of the merge join leave the pool's error box alone.
use sync.Prelude.{
  ◌+◌, String, Bool, true, false, Option, none, some, ◌≡◌, refl, ◌∙◌, ◌==◌, contains, string_eq,
  option_eq, inl, inr, Bool-cases,
}
use sync.Fs.Disk.{currently_stub_backed}
use sync.Fs.GlobMatch.{matches_any_glob}
use sync.Sync.Rows.{entry_path, EntryType, file, dir, EntryRow, ObjectRow, get_object}
use sync.Sync.MergeJoin.{Step, remote_only, local_only, both, step_path}
use sync.Sync.Soundness.Rows.{Returns, Returns-bind}
use sync.Sync.ApplyRemote.Steps.{apply_directory-Returns, write_stub-Returns}
use sync.Sync.ApplyRemote.{
  Remote, Arguments, dispatch_download, apply_object, apply_file_content,
  apply_remote_content_change, apply_remote_delete, note_ignored, apply_included, apply_step,
}

note_ignored-error :
    (path : String) (o : Option String) (s : Remote)
    → (note_ignored path o s).stream_error ≡ s.stream_error
unfolding note_ignored
note_ignored-error path none s = refl
note_ignored-error path (some pattern) s = refl

module _ (c : Arguments) (e : EntryRow) (s : Remote) where
  abbrev Errs : Remote → Type 0
  Errs s' = s'.stream_error ≡ s.stream_error

  apply_object-error :
      (hash : String) (o : Option ObjectRow) (stubbed : Bool)
      → Returns (apply_object c e hash o stubbed s) Errs
  unfolding apply_object dispatch_download
  apply_object-error hash none stubbed = tt
  apply_object-error hash (some o) true = write_stub-Returns Errs c e hash o s (λ disk. refl)
  apply_object-error hash (some o) false = refl

  apply_remote_content_change-error :
      (type : EntryType) (stubbed : Bool)
      → Returns (apply_remote_content_change c e type stubbed s) Errs
  unfolding apply_remote_content_change apply_file_content
  apply_remote_content_change-error dir stubbed = apply_directory-Returns Errs c e s (λ disk. refl)
  apply_remote_content_change-error file stubbed = content e.hash
    where
      content : (h : Option String) → Returns (apply_file_content c e h stubbed s) Errs
      content none = unfold apply_file_content in tt
      content (some hash) = elim (Bool-cases (hash == "")) [
        | inl empty ↦ unfold apply_file_content in rw empty tt
        | inr full ↦
            unfold apply_file_content in
            rw full (apply_object-error hash (get_object hash c.objects) stubbed)
      ]

-- Rows of the merge join do not touch the pool's error box.
pub apply_step-error :
    (c : Arguments) (x : Step EntryRow) (s : Remote)
    → Returns (apply_step c x s) (λ s'. s'.stream_error ≡ s.stream_error)
unfolding apply_step
apply_step-error c x s = elim (Bool-cases (contains (step_path entry_path x) c.exclude_paths)) [
  | inl skipped ↦ rw skipped refl
  | inr included ↦ rw included (go x)
]
  where
    go :
        (x : Step EntryRow)
        → Returns (apply_included c x s) (λ s'. s'.stream_error ≡ s.stream_error)
    go (remote_only e) =
        unfold apply_included in
        Returns-bind (Errs c e s) _ _ _ (apply_remote_content_change-error c e s e.type true)
          λ s' same.
            note_ignored-error e.path (matches_any_glob c.matches e.path c.ignore_globs)
              (record s' { created = s'.created + 1 })
            ∙ same
    go (local_only r) = unfold apply_included apply_remote_delete in refl
    go (both r e) = elim (Bool-cases (r.hash == e.hash)) [
      | inl same ↦ unfold apply_included in rw same refl
      | inr differs ↦
          unfold apply_included in
          rw differs (
            Returns-bind (Errs c e s) _ _ _
              (apply_remote_content_change-error c e s e.type
                (currently_stub_backed (c.absolute e.path) s.disk))
              (λ s' same. same))
    ]
