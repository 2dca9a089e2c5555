-- ===== src/Sync/ApplyRemote/Convergence.antt =====
-- Path by path, the cache comes to what the candidate holds.
use mathlib.Core.Path.{subst}
use mathlib.Core.Option.{none-ne-some, some-ne-none}
use sync.Prelude.{
  ℕ, String, Bool, true, false, Option, none, some, List, [], ◌∷◌, ◌≡◌, refl, sym, ap, ◌∙◌, ◌==◌,
  contains, arith, string_eq, inl, inr, Bool-cases,
}
use sync.Prelude.Table.{key-find, find-nil}
use sync.Errors.{ok, Failure, ◌>>=◌}
use sync.Fs.Disk.{Node}
use sync.Sync.Rows.{entry_path, EntryRow, CacheEntryRow, get_cache, get_entry}
use sync.Sync.Schedule.{has_error, throw_if_pool_errored}
use sync.Sync.Soundness.Rows.{Returns, Returns-map, Returns-bind, of_Returns}
use sync.Sync.Reconcile.Laws.{Returns-both}
use sync.Sync.MergeJoin.{Step, remote_only, local_only, both, step_path, merge_join}
use sync.Sync.MergeJoin.Laws.{
  IsOrder, SortedCache, SortedEntries, NodupSteps, step_at, step_at-nil, step_at-here,
  step_at-other, join, merge_join_lem, merge_join-NodupSteps,
}
use sync.Sync.ApplyRemote.{
  Download, download_path, Remote, Arguments, Pass, Event, next_path, download_answer, GetAnswer,
  apply_step, run_download, settle_download, next_step, end_download, remote_turn, remote_schedule,
  start_remote, apply_remote_changes,
}
use sync.Sync.ApplyRemote.Steps.{
  get_download, Same, IsDownload, Applied, apply_step-other, apply_step-here, apply_step-excluded,
}
use sync.Sync.ApplyRemote.ErrorBox.{apply_step-error}
use sync.Sync.ApplyRemote.Downloads.{
  settle_download-other, settle_download-here, settle_download-error,
}
use sync.Sync.ApplyRemote.Course.{
  Converged, IsOnCourse, waiting, downloading, finished, failing, keep, brought, applied,
}

module _ (c : Arguments) (p : String) (before : Option CacheEntryRow)
    (entry : Option EntryRow) where
  abbrev pub On : List (Step EntryRow) → Remote → Type 0
  On = IsOnCourse c p before entry

  here :
      (x : Step EntryRow) (steps : List (Step EntryRow)) (s : Remote)
      → step_path entry_path x ≡ p
      → step_at entry_path p steps ≡ none
      → On (x ∷ steps) s
      → Returns (apply_step c x s) (On steps)
  here x steps s at fresh (waiting h row idle) = elim (Bool-cases (contains p c.exclude_paths)) [
    | inl skipped ↦ rw (apply_step-excluded c x s (rw at skipped)) (
        finished fresh idle
          (subst (λ b. Converged b before entry (get_cache p s.cache)) (sym skipped) row))
    | inr included ↦
        Returns-map (Applied x s) _ _ (apply_step-here c x s (rw at included) (rw at idle)) λ s' a.
          applied c p before entry steps s s' x fresh included
            (sym h ∙ step_at-here entry_path p x steps at) at row idle a
  ]
  here x steps s at fresh (downloading h e q path included d) =
      absurd (some-ne-none x (sym (step_at-here entry_path p x steps at) ∙ h))
  here x steps s at fresh (finished h i v) =
      absurd (some-ne-none x (sym (step_at-here entry_path p x steps at) ∙ h))
  here x steps s at fresh (failing h) =
      Returns-map (λ (s' : Remote). s'.stream_error ≡ s.stream_error) _ _ (apply_step-error c x s)
        λ s' same. failing (ap has_error same ∙ h)

  both_kept :
      (x : Step EntryRow) (s : Remote)
      → (step_path entry_path x == p) ≡ false
      → Returns (apply_step c x s) (λ s'. Same p s s' × (s'.stream_error ≡ s.stream_error))
  both_kept x s other =
      Returns-both (Same p s) (λ (s' : Remote). s'.stream_error ≡ s.stream_error) _
        (apply_step c x s) (apply_step-other c p x s other) (apply_step-error c x s)
        (λ s' a b. (a, b))

  next_step-On :
      (steps : List (Step EntryRow)) (s : Remote)
      → NodupSteps entry_path steps
      → On steps s
      → Returns (next_step c steps s) (λ l. NodupSteps entry_path l.steps × On l.steps l.run)
  unfolding next_step
  next_step-On [] s nodup on = (tt, on)
  next_step-On (x ∷ steps) s (fresh, nodup) on = elim (Bool-cases (step_path entry_path x == p)) [
    | inl same ↦
        let at : step_path entry_path x ≡ p = ground arith in
        Returns-bind (On steps) _ _ _
          (here x steps s at (subst (λ y. step_at entry_path y steps ≡ none) at fresh) on)
          (λ s' on'. (nodup, on'))
    | inr other ↦
        Returns-bind (λ (s' : Remote). Same p s s' × (s'.stream_error ≡ s.stream_error)) _ _ _
          (both_kept x s other)
          λ s' (same, errors). (
            nodup,
            keep c p before entry (x ∷ steps) steps s s'
                (sym (step_at-other entry_path p x steps other)) same (λ h. ap has_error errors ∙ h)
                on,
          )
  ]

  end_download-On :
      (steps : List (Step EntryRow)) (answers : ℕ → GetAnswer) (fuel : ℕ) (q : String) (s : Remote)
      → On steps s
      → On steps (end_download c answers fuel (get_download q s.downloads) s)
  end_download-On steps answers fuel q s on = go (get_download q s.downloads) refl on
    where
      ends :
          (d : Download)
          → get_download p s.downloads ≡ some d
          → On steps s
          → On steps (
              settle_download c d
                (run_download c d answers fuel s.disk).0
                (run_download c d answers fuel s.disk).1
                s)
      ends d found (waiting h row idle) = absurd (none-ne-some d (sym idle ∙ found))
      ends d found (finished h idle v) = absurd (none-ne-some d (sym idle ∙ found))
      ends d found (failing h) = failing (settle_download-error c d _ s _ h)
      ends d found (downloading h e q path included is) =
          elim (settle_download-here c d (run_download c d answers fuel s.disk).1 s e
            (run_download c d answers fuel s.disk).0 (subst (IsDownload e) found is)
            (subst (λ y. get_download y s.downloads ≡ some d) (sym path) found)) [
              | inl b ↦ brought c p before entry steps _ e h included q path b
              | inr f ↦ failing f
            ]

      go :
          (o : Option Download)
          → get_download q s.downloads ≡ o
          → On steps s
          → On steps (end_download c answers fuel o s)
      go none found on = unfold end_download in on
      go (some d) found on =
          let key : d.path ≡ q = key-find download_path q s.downloads d found in
          unfold end_download in
          elim (Bool-cases (d.path == p)) [
            | inl same ↦
                let at : q ≡ p = ground arith in
                ends d (subst (λ y. get_download y s.downloads ≡ some d) at found) on
            | inr other ↦
                keep c p before entry steps steps s _ refl (settle_download-other c d _ s p _ other)
                  (settle_download-error c d _ s _) on
          ]

  remote_turn-On :
      (e : Event) (l : Pass)
      → NodupSteps entry_path l.steps
      → On l.steps l.run
      → Returns (remote_turn c e l) (λ l'. NodupSteps entry_path l'.steps × On l'.steps l'.run)
  unfolding remote_turn
  remote_turn-On next_path l nodup on = next_step-On l.steps l.run nodup on
  remote_turn-On (download_answer q answers fuel) l nodup on =
      (nodup, end_download-On l.steps answers fuel q l.run on)

  remote_schedule-On :
      (events : List Event) (l : Pass)
      → NodupSteps entry_path l.steps
      → On l.steps l.run
      → Returns (remote_schedule c events l) (λ l'. On l'.steps l'.run)
  unfolding remote_schedule
  remote_schedule-On [] l nodup on = on
  remote_schedule-On (e ∷ events) l nodup on =
      Returns-bind (λ (l' : Pass). NodupSteps entry_path l'.steps × On l'.steps l'.run) _ _ _
        (remote_turn-On e l nodup on) (λ l' (nodup', on'). remote_schedule-On events l' nodup' on')

  Converged-of_idle :
      (steps : List (Step EntryRow)) (s : Remote)
      → steps ≡ []
      → s.downloads ≡ []
      → has_error s.stream_error ≡ false
      → On steps s
      → Converged (contains p c.exclude_paths) before entry (get_cache p s.cache)
  Converged-of_idle steps s no_steps no_downloads fine (finished h i v) = v
  Converged-of_idle steps s no_steps no_downloads fine (failing h) = cc
  Converged-of_idle steps s no_steps no_downloads fine (downloading h e q path inc d) = absurd (
      subst (IsDownload e)
        (ap (get_download p) no_downloads ∙ find-nil {K = String} {R = Download} download_path p) d)
  Converged-of_idle steps s no_steps no_downloads fine (waiting h row idle) =
      nothing_there before entry
        (sym h ∙ ap (step_at entry_path p) no_steps ∙ step_at-nil entry_path p) row
    where
      nothing_there :
          (b : Option CacheEntryRow) (e : Option EntryRow)
          → join entry_path b e ≡ none
          → get_cache p s.cache ≡ b
          → Converged (contains p c.exclude_paths) b e (get_cache p s.cache)
      nothing_there none none q row = either (contains p c.exclude_paths) row
        where
          either :
              (x : Bool) → get_cache p s.cache ≡ none → Converged x none none (get_cache p s.cache)
          either true row = row
          either false row = row
      nothing_there none (some e) q row = absurd (some-ne-none (remote_only e) q)
      nothing_there (some r) none q row = absurd (some-ne-none (local_only r) q)
      nothing_there (some r) (some e) q row = absurd (some-ne-none (both r e) q)

fine_at_end :
    (P : Pass → Type 0) (l : Pass)
    → P l
    → Returns
        (throw_if_pool_errored l.run.stream_error >>= λ _. ok l)
        (λ l'. (has_error l'.run.stream_error ≡ false) × P l')
unfolding throw_if_pool_errored
fine_at_end P l h = go l.run.stream_error refl
  where
    go :
        (e : Option Failure)
        → l.run.stream_error ≡ e
        → Returns
            (throw_if_pool_errored e >>= λ _. ok l)
            (λ l'. (has_error l'.run.stream_error ≡ false) × P l')
    go none q = unfold throw_if_pool_errored in (ap has_error q, h)
    go (some e) q = unfold throw_if_pool_errored in tt

apply_remote_changes-On :
    (c : Arguments) (lt : String → String → Bool) (o : IsOrder lt) (cache : List CacheEntryRow)
    (entries : List EntryRow) (disk : List Node) (schedule : List Event) (p : String)
    → SortedCache lt o cache
    → SortedEntries entry_path lt o entries
    → Returns (apply_remote_changes c lt cache entries disk schedule) (λ l.
      (has_error l.run.stream_error ≡ false)
      × On c p (get_cache p cache) (get_entry p entries) l.steps l.run)
unfolding apply_remote_changes
apply_remote_changes-On c lt o cache entries disk schedule p sc se =
    Returns-bind (λ (l : Pass). On c p (get_cache p cache) (get_entry p entries) l.steps l.run) _ _
      _
      (remote_schedule-On c p (get_cache p cache) (get_entry p entries) schedule
        (record { steps = merge_join entry_path lt cache entries; run = start_remote cache disk })
        (merge_join-NodupSteps entry_path lt o cache entries sc se)
        (waiting (merge_join_lem entry_path lt o p cache entries sc se) refl
          (find-nil {K = String} {R = Download} download_path p)))
      λ l on.
        fine_at_end (λ l'. On c p (get_cache p cache) (get_entry p entries) l'.steps l'.run) l on

-- When a run has come to its end, with every row of the merge join met and no download in flight, in
-- whatever order the downloads ended, then at every path the cache agrees with the candidate: an
-- excluded path keeps its row; a path that the candidate does not hold has no row; any other has a
-- row with the content of its entry, its old one if that had this content, and otherwise an unchanged
-- one at the entry's version. The two lists are sorted by the order that the loop compares with.
pub cache_converges :
    (c : Arguments) (lt : String → String → Bool) (o : IsOrder lt) (cache : List CacheEntryRow)
    (entries : List EntryRow) (disk : List Node) (schedule : List Event) (l : Pass) (p : String)
    → SortedCache lt o cache
    → SortedEntries entry_path lt o entries
    → apply_remote_changes c lt cache entries disk schedule ≡ ok l
    → l.steps ≡ []
    → l.run.downloads ≡ []
    → Converged
        (contains p c.exclude_paths)
        (get_cache p cache)
        (get_entry p entries)
        (get_cache p l.run.cache)
cache_converges c lt o cache entries disk schedule l p sc se ran no_steps no_downloads =
    let (fine, on) =
      of_Returns
        (λ (l' : Pass).
          (has_error l'.run.stream_error ≡ false)
          × On c p (get_cache p cache) (get_entry p entries) l'.steps l'.run)
        _ (apply_remote_changes-On c lt o cache entries disk schedule p sc se) ran in
    Converged-of_idle c p (get_cache p cache) (get_entry p entries) l.steps l.run no_steps
      no_downloads fine on
