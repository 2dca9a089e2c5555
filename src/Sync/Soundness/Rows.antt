-- ===== src/Sync/Soundness/Rows.antt =====
-- The invariant through the two passes and any schedule of events.
use sync.Prelude.{
  ℕ, String, Bool, true, false, Option, none, some, List, [], ◌∷◌, ◌≡◌, refl, ap, ◌∙◌, ◌==◌,
  string_eq, inl, inr, Bool-cases,
}
use sync.Prelude.Table
use sync.Prelude.Table.{key-find}
use mathlib.Core.Path.{subst}
use sync.Errors.{Result, ok, throw, ◌>>=◌, ok-injective}
use sync.Sync.Rows.{
  EntryType, file, dir, CacheState, created, modified, deleted, unchanged, EntryRow, CacheEntryRow,
  has_object, get_entry, entry_path,
}
use sync.Sync.Conflict.{LocalChangeDecision, apply, noop, conflict, decide_local_change}
use sync.Sync.Conflict.Laws.{Reconciled, decide_noop}
use sync.Sync.Candidate.{Job, Run, handled_path, set_handled, add_conflict, delete_with_history}
use sync.Sync.ApplyLocal.{
  MirrorProbe, probed, probe_failed, delete_applied, delete_decided, delete_row, delete_pass,
  stamp_of, is_deleted, change_row, attach, claim, sized_job, new_content, file_content, apply_file,
  apply_change, change_decided, change_uncollided, change_checked, open_job,
}
use sync.Sync.Soundness.{IsSound, delete-IsSound, keep-IsSound}
use sync.Sync.Soundness.Jobs.{Sound, write_entry-Sound}

-- What holds of the run that a step returns, if it returns one.
abbrev pub Returns {ℓ κ} : {A : Type ℓ} → Result A → (A → Type κ) → Type κ
Returns (ok a) P = P a
Returns (throw e) P = Unit

pub bind-Returns {ℓ κ μ} :
    {A : Type ℓ} {B : Type κ} (P : B → Type μ) (m : Result A) (f : A → Result B)
    → ((a : A) → m ≡ ok a → Returns (f a) P)
    → Returns (m >>= f) P
bind-Returns P (ok a) f h = h a refl
bind-Returns P (throw e) f h = tt

pub of_Returns {ℓ κ} :
    {A : Type ℓ} (P : A → Type κ) (m : Result A) {a : A} → Returns m P → m ≡ ok a → P a
of_Returns P (ok b) h e = subst P (ok-injective e) h
of_Returns P (throw f) h e = cc

pub Returns-map {ℓ κ ν} :
    {A : Type ℓ} (P : A → Type κ) (Q : A → Type ν) (m : Result A)
    → Returns m P
    → ((a : A) → P a → Returns (ok a) Q)
    → Returns m Q
Returns-map P Q (ok a) h k = k a h
Returns-map P Q (throw e) h k = tt

pub Returns-bind {ℓ κ μ ν} :
    {A : Type ℓ} {B : Type κ} (P : A → Type μ) (Q : B → Type ν) (m : Result A) (f : A → Result B)
    → Returns m P
    → ((a : A) → P a → Returns (f a) Q)
    → Returns (m >>= f) Q
Returns-bind P Q (ok a) f h k = k a h
Returns-bind P Q (throw e) f h k = tt

gone_of_noop :
    (row : CacheEntryRow) (existing : Option EntryRow)
    → row.state ≡ deleted
    → decide_local_change row existing ≡ ok noop
    → stamp_of existing ≡ none
gone_of_noop row none is_delete h = refl
gone_of_noop row (some e) is_delete h =
    absurd (subst (λ t. Reconciled row t (some e)) is_delete ((decide_noop row (some e)).0 h))

module _ {orig : List EntryRow} (version : String) where
  delete_applied-Sound :
      (row : CacheEntryRow) (existing : Option EntryRow) (s : Run)
      → get_entry row.path s.entries ≡ existing
      → Sound orig s
      → Returns (delete_applied version row existing s) (Sound orig)
  unfolding delete_applied set_handled delete_with_history
  delete_applied-Sound row none s q sound = tt
  delete_applied-Sound row (some e) s q sound =
      rw (key-find entry_path row.path s.entries e q) (delete-IsSound sound row.path)

  delete_decided-Sound :
      (row : CacheEntryRow) (existing : Option EntryRow) (decision : LocalChangeDecision) (s : Run)
      → get_entry row.path s.entries ≡ existing
      → (decision ≡ noop → stamp_of existing ≡ none)
      → Sound orig s
      → Returns (delete_decided version row existing decision s) (Sound orig)
  unfolding delete_decided set_handled add_conflict
  delete_decided-Sound row existing (conflict reason) s q gone sound = sound
  delete_decided-Sound row existing noop s q gone sound =
      subst
        (λ stamp.
          IsSound orig
            (Table.upsert handled_path (record { path = row.path; stamp = stamp }) s.handled_paths)
            s.entries s.objects s.applied_count)
        (ap stamp_of q ∙ gone refl) (keep-IsSound sound row.path)
  delete_decided-Sound row existing apply s q gone sound =
      delete_applied-Sound row existing s q sound

  delete_row-Sound :
      (row : CacheEntryRow) (s : Run)
      → row.state ≡ deleted
      → Sound orig s
      → Returns (delete_row version row s) (Sound orig)
  unfolding delete_row
  delete_row-Sound row s is_delete sound =
      bind-Returns (Sound orig) (decide_local_change row (get_entry row.path s.entries)) _
        λ decision h.
          delete_decided-Sound row _ decision s refl
            (λ is_noop. gone_of_noop row _ is_delete (h ∙ ap ok is_noop)) sound

  pub delete_pass-Sound :
      (rows : List CacheEntryRow) (s : Run)
      → Sound orig s
      → Returns (delete_pass version rows s) (λ (s', rest). Sound orig s')
  unfolding delete_pass
  delete_pass-Sound [] s sound = sound
  delete_pass-Sound (row ∷ rows) s sound =
      go (λ s' sound'. delete_pass-Sound rows s' sound') row.state refl
    where
      go :
          ((s' : Run)
            → Sound orig s'
            → Returns (delete_pass version rows s') (λ (s'', rest). Sound orig s''))
          → (state : CacheState) → row.state ≡ state
          → Returns {A = Run × List CacheEntryRow}
              (elim (is_deleted state) [
                | true ↦ delete_row version row s >>= λ s'. delete_pass version rows s'
                | false ↦ ok (s, row ∷ rows)
              ])
              (λ (s', rest). Sound orig s')
      go rest deleted q = Returns-bind (Sound orig) _ _ _ (delete_row-Sound row s q sound) rest
      go rest created q = sound
      go rest modified q = sound
      go rest unchanged q = sound

module _ {orig : List EntryRow} (collision_key : String → String) (version : String)
    (verify : Bool) where
  sized_job-Sound :
      (row : CacheEntryRow) (hash : String) (size : Option ℕ) (needs : Bool) (s : Run)
      → Sound orig s
      → Returns (sized_job verify row hash size needs s) (Sound orig)
  unfolding sized_job open_job
  sized_job-Sound row hash none needs s sound = tt
  sized_job-Sound row hash (some n) needs s sound = sound

  new_content-Sound :
      (row : CacheEntryRow) (hash : String) (probe : MirrorProbe) (s : Run)
      → Sound orig s
      → Returns (new_content version verify row hash probe s) (Sound orig)
  unfolding new_content
  new_content-Sound row hash (probe_failed m) s sound = tt
  new_content-Sound row hash (probed needs) s sound =
      elim (Bool-cases (has_object hash s.objects)) [
        | inr e ↦ rw e (sized_job-Sound row hash row.size needs s sound)
        | inl e ↦ elim (Bool-cases needs) [
          | inl n ↦ rw (e, n) (sized_job-Sound row hash row.size true s sound)
          | inr n ↦ rw (e, n) (write_entry-Sound version row.path row.type (some hash) _ sound e)
        ]
      ]

  file_content-Sound :
      (row : CacheEntryRow) (hash : String) (job : Option Job) (probe : MirrorProbe) (s : Run)
      → Sound orig s
      → Returns (file_content version verify row hash job probe s) (Sound orig)
  unfolding file_content attach
  file_content-Sound row hash (some j) probe s sound = sound
  file_content-Sound row hash none probe s sound = new_content-Sound row hash probe s sound

  claim-Sound :
      (row : CacheEntryRow) (state : CacheState) (s : Run)
      → Sound orig s
      → Sound orig (claim collision_key row state s)
  unfolding claim
  claim-Sound row created s sound = sound
  claim-Sound row _ s sound = sound

  apply_change-Sound :
      (row : CacheEntryRow) (type : EntryType) (hash : Option String) (probe : MirrorProbe)
      (s : Run)
      → row.hash ≡ hash
      → Sound orig s
      → Returns (apply_change collision_key version verify row type probe s) (Sound orig)
  unfolding apply_change apply_file
  apply_change-Sound row dir hash probe s q sound =
      write_entry-Sound version row.path row.type none s sound tt
  apply_change-Sound row file none probe s q sound = rw (q, apply_file) tt
  apply_change-Sound row file (some hash) probe s q sound = elim (Bool-cases (hash == "")) [
    | inl empty ↦ rw (q, apply_file, empty) tt
    | inr given ↦
        rw (q, apply_file, given)
          (file_content-Sound row hash _ probe _ (claim-Sound row row.state s sound))
  ]

  change_decided-Sound :
      (row : CacheEntryRow) (decision : LocalChangeDecision) (probe : MirrorProbe) (s : Run)
      → Sound orig s
      → Returns
          (change_decided collision_key version verify row
            (get_entry row.path s.entries)
            decision
            probe
            s)
          (Sound orig)
  unfolding change_decided add_conflict set_handled
  change_decided-Sound row (conflict reason) probe s sound = sound
  change_decided-Sound row noop probe s sound = keep-IsSound sound row.path
  change_decided-Sound row apply probe s sound =
      apply_change-Sound row row.type row.hash probe s refl sound

  change_checked-Sound :
      (row : CacheEntryRow) (other : Option String) (probe : MirrorProbe) (s : Run)
      → Sound orig s
      → Returns (change_checked collision_key version verify row other probe s) (Sound orig)
  unfolding change_checked change_uncollided add_conflict
  change_checked-Sound row (some other) probe s sound = sound
  change_checked-Sound row none probe s sound =
      bind-Returns (Sound orig) (decide_local_change row (get_entry row.path s.entries)) _
        λ decision h. change_decided-Sound row decision probe s sound

  pub change_row-Sound :
      (row : CacheEntryRow) (probe : MirrorProbe) (s : Run)
      → Sound orig s
      → Returns (change_row collision_key version verify row probe s) (Sound orig)
  unfolding change_row
  change_row-Sound row probe s sound = change_checked-Sound row _ probe s sound
