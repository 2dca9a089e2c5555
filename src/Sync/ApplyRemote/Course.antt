-- ===== src/Sync/ApplyRemote/Course.antt =====
-- Where a path stands in the course of a run, and what each kind of step makes of it.
use mathlib.Core.Path.{subst}
use mathlib.Core.Option.{none-ne-some, some-injective}
use sync.Prelude.{
  String, Bool, true, false, Option, none, some, List, ◌≡◌, ◌⊎◌, refl, sym, ap, ◌∙◌, contains,
  string_eq, inl, inr,
}
use sync.Sync.Rows.{entry_path, EntryRow, CacheEntryRow, get_cache}
use sync.Sync.Schedule.{has_error}
use sync.Sync.MergeJoin.{Step, remote_only, local_only, both, step_path}
use sync.Sync.MergeJoin.Laws.{step_at, join}
use sync.Sync.ApplyRemote.{Remote, Arguments}
use sync.Sync.ApplyRemote.Steps.{
  get_download, Same, IsRow, IsDownload, IsBrought, landed, loading, Applied,
}

-- What the cache holds at a path in the end, by whether the path is excluded, the row that it had and
-- the entry of the candidate: an excluded path keeps its row, a path with no entry has none, and any
-- other has its old row if that has the entry's content, or else a row of the entry.
abbrev pub Converged : Bool → Option CacheEntryRow → Option EntryRow → Option CacheEntryRow → Type 0
Converged true before entry found = found ≡ before
Converged false before none found = found ≡ none
Converged false none (some e) found = IsRow e found
Converged false (some r) (some e) found = ((r.hash ≡ e.hash) × (found ≡ some r)) ⊎ IsRow e found

module _ (c : Arguments) (p : String) (before : Option CacheEntryRow)
    (entry : Option EntryRow) where
  -- Where a path stands in the course of a run.
  pub data IsOnCourse (steps : List (Step EntryRow)) (s : Remote) : Type 0 where
    waiting :
        step_at entry_path p steps ≡ join entry_path before entry
        → get_cache p s.cache ≡ before
        → get_download p s.downloads ≡ none
        → IsOnCourse steps s
    downloading :
        step_at entry_path p steps ≡ none
        → (e : EntryRow) → entry ≡ some e
        → e.path ≡ p
        → contains p c.exclude_paths ≡ false
        → IsDownload e (get_download p s.downloads)
        → IsOnCourse steps s
    finished :
        step_at entry_path p steps ≡ none
        → get_download p s.downloads ≡ none
        → Converged (contains p c.exclude_paths) before entry (get_cache p s.cache)
        → IsOnCourse steps s
    failing : has_error s.stream_error ≡ true → IsOnCourse steps s

  pub keep :
      (steps steps' : List (Step EntryRow)) (s s' : Remote)
      → step_at entry_path p steps' ≡ step_at entry_path p steps
      → Same p s s'
      → (has_error s.stream_error ≡ true → has_error s'.stream_error ≡ true)
      → IsOnCourse steps s
      → IsOnCourse steps' s'
  keep steps steps' s s' at (row, download) err (waiting h q i) =
      waiting (at ∙ h) (row ∙ q) (download ∙ i)
  keep steps steps' s s' at (row, download) err (downloading h e q path inc d) =
      downloading (at ∙ h) e q path inc (subst (IsDownload e) (sym download) d)
  keep steps steps' s s' at (row, download) err (finished h i v) =
      finished (at ∙ h) (download ∙ i)
        (subst (Converged (contains p c.exclude_paths) before entry) (sym row) v)
  keep steps steps' s s' at same err (failing h) = failing (err h)

  pub brought :
      (steps : List (Step EntryRow)) (s : Remote) (e : EntryRow)
      → step_at entry_path p steps ≡ none
      → contains p c.exclude_paths ≡ false
      → entry ≡ some e
      → e.path ≡ p
      → IsBrought e s
      → IsOnCourse steps s
  brought steps s e fresh included q path (landed r d) =
      finished fresh (subst (λ x. get_download x s.downloads ≡ none) path d) (
        subst (λ b. Converged b before entry (get_cache p s.cache)) (sym included)
          (subst (λ x. Converged false before x (get_cache p s.cache)) (sym q)
            (rowed before (subst (λ x. IsRow e (get_cache x s.cache)) path r))))
    where
      rowed :
          (before : Option CacheEntryRow)
          → IsRow e (get_cache p s.cache)
          → Converged false before (some e) (get_cache p s.cache)
      rowed none r = r
      rowed (some old) r = inr r
  brought steps s e fresh included q path (loading d) =
      downloading fresh e q path included
        (subst (λ x. IsDownload e (get_download x s.downloads)) path d)

-- The path's own turn brings its entry.
pub applied :
    (c : Arguments) (p : String) (before : Option CacheEntryRow) (entry : Option EntryRow)
    (steps : List (Step EntryRow)) (s s' : Remote) (x : Step EntryRow)
    → step_at entry_path p steps ≡ none
    → contains p c.exclude_paths ≡ false
    → join entry_path before entry ≡ some x
    → step_path entry_path x ≡ p
    → get_cache p s.cache ≡ before
    → get_download p s.downloads ≡ none
    → Applied x s s'
    → IsOnCourse c p before entry steps s'
applied c p none none steps s s' x fresh included q at row idle a = absurd (none-ne-some x q)
applied c p none (some e) steps s s' x fresh included q at row idle a =
    let i : x ≡ remote_only e = sym (some-injective (remote_only e) x q) in
    brought c p none (some e) steps s' e fresh included refl
      (ap (step_path entry_path) (sym i) ∙ at) (subst (λ y. Applied y s s') i a)
applied c p (some r) none steps s s' x fresh included q at row idle a =
    let i : x ≡ local_only r = sym (some-injective (local_only r) x q) in
    let path : r.path ≡ p = ap (step_path entry_path) (sym i) ∙ at in
    let (gone, none_left) = subst (λ y. Applied y s s') i a in
    finished fresh (subst (λ y. get_download y s'.downloads ≡ none) path none_left) (
      subst (λ b. Converged b (some r) none (get_cache p s'.cache)) (sym included)
        (subst (λ y. get_cache y s'.cache ≡ none) path gone))
applied c p (some r) (some e) steps s s' x fresh included q at row idle a =
    let i : x ≡ both r e = sym (some-injective (both r e) x q) in
    elim (subst (λ y. Applied y s s') i a) [
      | inl (same, unchanged) ↦
          finished fresh (ap (λ (t : Remote). get_download p t.downloads) unchanged ∙ idle) (
            subst (λ b. Converged b (some r) (some e) (get_cache p s'.cache)) (sym included)
              (inl (same, ap (λ (t : Remote). get_cache p t.cache) unchanged ∙ row)))
      | inr b ↦
          brought c p (some r) (some e) steps s' e fresh included refl
            (ap (step_path entry_path) (sym i) ∙ at) b
    ]
