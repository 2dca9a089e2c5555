-- ===== src/Db/Pages/Laws.antt =====
-- A scan in pages gives what one query over the whole table would.
pub mod Cursor
use mathlib.Core.Option
use mathlib.Core.Path.{subst}
use sync.Prelude.{
  ℕ, zero, suc, ◌+◌, ◌<◌, String, Bool, true, false, Option, none, some, List, [], ◌∷◌, ◌++◌, ◌≡◌,
  refl, sym, ap, ◌∙◌, arith, inl, inr, Bool-cases, if◌then◌else◌, take, drop, length, All,
  take-append-drop, length-drop, length-append,
}
use sync.Fs.GlobMatch.{matches_any_glob}
use sync.Sync.Rows.{EntryRow, entry_path}
use sync.Sync.MergeJoin.Laws.{IsOrder, SortedEntries}
use sync.Db.Pages.{
  literal_prefix_of, last_key, paginate_keyset, rows_above, rows_from, is_matched, scan_matching,
  paginate_keyset_filtered_by_glob, entries_page, glob_page, iterate_all_sorted_by_path,
  iterate_by_glob_sorted_by_path,
}
use sync.Db.Pages.Laws.Cursor.{above-All, pages_lem, not_below, above_skip}

module _ {R : Type 0} (key_of : R → String) (lt : String → String → Bool) (o : IsOrder lt)
    (starts_with matches : String → String → Bool) (prefix pattern : String) where
  -- The rows whose path the pattern matches.
  abbrev pub matching : List R → List R
  matching [] = []
  matching (r ∷ rows) =
      let rest = matching rows in if matches pattern (key_of r) then r ∷ rest else rest

  -- What minimatch and the order of texts say of a literal prefix.
  pub record IsPrefix : Type 0 where
    pub of_match : (p : String) → matches pattern p ≡ true → starts_with prefix p ≡ true
    pub not_before : (p : String) → starts_with prefix p ≡ true → lt p prefix ≡ false
    pub one_block :
        (p q : String)
        → lt p prefix ≡ false
        → starts_with prefix p ≡ false
        → lt p q ≡ true
        → starts_with prefix q ≡ false

  is_matched_lem : (p : String) → is_matched key_of matches pattern p ≡ matches pattern p
  unfolding is_matched matches_any_glob
  is_matched_lem p = ground arith

  unmatched : IsPrefix → (p : String) → starts_with prefix p ≡ false → matches pattern p ≡ false
  unmatched laws p h = elim (Bool-cases (matches pattern p)) [
    | inl m ↦ let starts = laws.of_match p m in absurd (cc (starts, h))
    | inr m ↦ m
  ]

  matching_none :
      (laws : IsPrefix) (rows : List R)
      → All (λ d. starts_with prefix (key_of d) ≡ false) rows
      → matching rows ≡ []
  matching_none laws [] h = refl
  matching_none laws (r ∷ rows) h =
      let rest = matching_none laws rows h.1 in rw (unmatched laws (key_of r) h.0) rest

  out_of_block :
      (laws : IsPrefix) (p : String) (rows : List R)
      → lt p prefix ≡ false
      → starts_with prefix p ≡ false
      → All (λ d. lt p (key_of d) ≡ true) rows
      → All (λ d. starts_with prefix (key_of d) ≡ false) rows
  out_of_block laws p [] h k above = tt
  out_of_block laws p (r ∷ rows) h k above =
      (laws.one_block p (key_of r) h k above.0, out_of_block laws p rows h k above.1)

  -- Stopping at the first path without the prefix loses no match.
  scan_lem :
      (laws : IsPrefix) (rows : List R)
      → SortedEntries key_of lt o rows
      → All (λ d. lt (key_of d) prefix ≡ false) rows
      → scan_matching key_of starts_with matches prefix pattern rows ≡ matching rows
  unfolding scan_matching
  scan_lem laws [] sorted h = refl
  scan_lem laws (r ∷ rows) sorted h = elim (Bool-cases (starts_with prefix (key_of r))) [
    | inl k ↦ let rest = scan_lem laws rows sorted.1 h.1 in rw (k, is_matched_lem (key_of r), rest)
    | inr k ↦
        let outside = out_of_block laws (key_of r) rows h.0 k sorted.0 in
        let nothing = matching_none laws (r ∷ rows) (k, outside) in rw k (sym nothing)
  ]

  from_above :
      (p : String) (rows : List R)
      → lt p prefix ≡ false
      → All (λ d. lt p (key_of d) ≡ true) rows
      → All (λ d. lt (key_of d) prefix ≡ false) rows
  from_above p [] h above = tt
  from_above p (r ∷ rows) h above =
      let not_before : lt (key_of r) prefix ≡ false = elim (Bool-cases (lt (key_of r) prefix)) [
        | inl k ↦ let before = o.transitive p (key_of r) prefix above.0 k in absurd (cc (before, h))
        | inr k ↦ k
      ] in
      (not_before, from_above p rows h above.1)

  from-All :
      (rows : List R)
      → All (λ d. lt (key_of d) prefix ≡ false) rows
      → rows_from key_of lt prefix rows ≡ rows
  unfolding rows_from
  from-All [] h = refl
  from-All (r ∷ rows) h = rw h.0 (ap (λ l. r ∷ l) (from-All rows h.1))

  -- The rows before the prefix stand first, and the pattern matches none of them.
  record Split (rows : List R) : Type 0 where
    before : List R
    at : rows ≡ before ++ rows_from key_of lt prefix rows
    same : matching rows ≡ matching (rows_from key_of lt prefix rows)
    not_before : All (λ d. lt (key_of d) prefix ≡ false) (rows_from key_of lt prefix rows)
    still_sorted : SortedEntries key_of lt o (rows_from key_of lt prefix rows)

  from_skip :
      (r : R) (rows : List R)
      → lt (key_of r) prefix ≡ true
      → rows_from key_of lt prefix (r ∷ rows) ≡ rows_from key_of lt prefix rows
  unfolding rows_from
  from_skip r rows h = rw h

  early : IsPrefix → (p : String) → lt p prefix ≡ true → matches pattern p ≡ false
  early laws p h = elim (Bool-cases (matches pattern p)) [
    | inl m ↦ let no = laws.not_before p (laws.of_match p m) in absurd (cc (no, h))
    | inr m ↦ m
  ]

  Split-skip :
      (laws : IsPrefix) (r : R) (rows : List R)
      → lt (key_of r) prefix ≡ true
      → Split rows
      → Split (r ∷ rows)
  Split-skip laws r rows h s =
      let rest = from_skip r rows h in
      record {
        before = r ∷ s.before;
        at = rw rest (ap (λ l. r ∷ l) s.at);
        same = rw (rest, early laws (key_of r) h) s.same;
        not_before = rw rest s.not_before;
        still_sorted = rw rest s.still_sorted;
      }

  Split-here :
      (rows : List R)
      → SortedEntries key_of lt o rows
      → All (λ d. lt (key_of d) prefix ≡ false) rows
      → Split rows
  Split-here rows sorted h =
      let rest = from-All rows h in
      record {
        before = [];
        at = sym rest;
        same = rw rest refl;
        not_before = rw rest h;
        still_sorted = rw rest sorted;
      }

  split : IsPrefix → (rows : List R) → SortedEntries key_of lt o rows → Split rows
  split laws [] sorted = Split-here [] tt tt
  split laws (r ∷ rows) sorted = elim (Bool-cases (lt (key_of r) prefix)) [
    | inl h ↦ Split-skip laws r rows h (split laws rows sorted.1)
    | inr h ↦ Split-here (r ∷ rows) sorted (h, from_above (key_of r) rows h sorted.0)
  ]

-- A scan of `entries` in pages yields every row of the table, in the order of their paths, if the
-- page size is above zero, no path is the empty text and the fuel is above the number of rows.
pub iterate_all_lem :
    (lt : String → String → Bool) (o : IsOrder lt) (rows : List EntryRow) (size fuel : ℕ)
    → SortedEntries entry_path lt o rows
    → All (λ e. lt "" e.path ≡ true) rows
    → length rows < fuel
    → iterate_all_sorted_by_path lt rows (suc size) fuel ≡ some rows
unfolding iterate_all_sorted_by_path entries_page
iterate_all_lem lt o rows size fuel sorted named bound =
    let first : entries_page lt rows none (suc size) ≡ take (suc size) rows =
      ap (take (suc size)) (above-All entry_path lt o "" rows named) in
    pages_lem entry_path lt o (entries_page lt rows) size rows sorted (λ k. refl) fuel none [] rows
      refl first bound

-- A scan by a glob pattern yields exactly the rows of the table that the pattern matches, in the
-- order of their paths, though it starts at the literal prefix of the pattern and stops at the first
-- path without it. The page size is above zero and the fuel above the number of rows; what the
-- pattern matches starts with the prefix, and in the order of the paths those that start with it are
-- one block that begins at the prefix.
pub iterate_by_glob_lem :
    (lt : String → String → Bool) (o : IsOrder lt) (starts_with matches : String → String → Bool)
    (parse : String → List (List (Option String))) (rows : List EntryRow) (pattern : String)
    (size fuel : ℕ)
    → IsPrefix entry_path lt o starts_with matches (literal_prefix_of (parse pattern)) pattern
    → SortedEntries entry_path lt o rows
    → length rows < fuel
    → iterate_by_glob_sorted_by_path lt starts_with matches parse rows pattern (suc size) fuel
      ≡ some (
          matching entry_path lt o starts_with matches
            (literal_prefix_of (parse pattern))
            pattern
            rows)
unfolding iterate_by_glob_sorted_by_path paginate_keyset_filtered_by_glob glob_page
iterate_by_glob_lem lt o starts_with matches parse rows pattern size fuel laws sorted bound =
    let prefix = literal_prefix_of (parse pattern) in
    let s = split entry_path lt o starts_with matches prefix pattern laws rows sorted in
    let tail = rows_from entry_path lt prefix rows in
    let sizes : length rows ≡ length s.before + length tail =
      ap length s.at ∙ length-append s.before tail in
    let scanned =
      pages_lem entry_path lt o (glob_page lt rows prefix) size rows sorted (λ k. refl) fuel none
        s.before tail s.at refl (omega arith) in
    let kept =
      scan_lem entry_path lt o starts_with matches prefix pattern laws tail s.still_sorted
        s.not_before in
    ap (Option.map (scan_matching entry_path starts_with matches prefix pattern)) scanned
    ∙ ap some (kept ∙ sym s.same)
