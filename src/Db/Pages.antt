-- ===== src/Db/Pages.antt =====
-- db/keyset-pagination.ts and db/glob-scan.ts, with the two queries of
-- db/repositories/entries-repository.ts that read `entries` by path. Minimatch's parse of a pattern,
-- its match and SQLite's order of texts are parameters. A generator is the list of what it yields;
-- `none` is a scan that ran out of fuel.
use mathlib.Core.Option
use sync.Prelude.{
  ℕ, zero, suc, String, ◌<>◌, Bool, true, false, Option, none, some, List, [], ◌∷◌, ◌++◌,
  if◌then◌else◌, take,
}
use sync.Fs.GlobMatch.{matches_any_glob}
use sync.Sync.Rows.{EntryRow}
pub mod Laws

-- `literal.join("/")`
unfoldable pub join_segments : List String → String
join_segments [] = ""
join_segments (segment ∷ []) = segment
join_segments (segment ∷ next ∷ rest) = segment <> ("/" <> join_segments (next ∷ rest))

-- The segments in front of the first one that is no plain text.
unfoldable pub leading_literals : List (Option String) → List String
leading_literals [] = []
leading_literals (none ∷ segments) = []
leading_literals (some segment ∷ segments) = segment ∷ leading_literals segments

-- `literalPrefixOf`, of the sets that minimatch parses the pattern into.
unfoldable pub literal_prefix_of : List (List (Option String)) → String
literal_prefix_of [] = ""
literal_prefix_of (segments ∷ []) = join_segments (leading_literals segments)
literal_prefix_of (segments ∷ other ∷ sets) = ""

module _ {R : Type 0} (key_of : R → String) where
  -- `keyOf(page[page.length - 1])`
  unfoldable pub last_key : R → List R → String
  last_key r [] = key_of r
  last_key r (next ∷ page) = last_key next page

  -- `paginateKeyset`: the page size, the fuel and the cursor.
  unfoldable pub paginate_keyset :
      (Option String → ℕ → List R) → ℕ → ℕ → Option String → Option (List R)
  paginate_keyset fetch_page page_size zero after = none
  paginate_keyset fetch_page page_size (suc fuel) after = elim (fetch_page after page_size) [
    | [] ↦ some []
    | r ∷ page ↦
        Option.map (λ rest. (r ∷ page) ++ rest)
          (paginate_keyset fetch_page page_size fuel (some (last_key r page)))
  ]

  -- `WHERE path > ?`
  unfoldable pub rows_above : (String → String → Bool) → String → List R → List R
  rows_above lt key [] = []
  rows_above lt key (r ∷ rows) =
      let rest = rows_above lt key rows in if lt key (key_of r) then r ∷ rest else rest

  -- `WHERE path >= ?`
  unfoldable pub rows_from : (String → String → Bool) → String → List R → List R
  rows_from lt key [] = []
  rows_from lt key (r ∷ rows) =
      let rest = rows_from lt key rows in if lt (key_of r) key then rest else r ∷ rest

  -- `matchesAnyGlob(path, [pattern]).matched`
  unfoldable pub is_matched : (String → String → Bool) → String → String → Bool
  is_matched matches pattern path = elim (matches_any_glob matches path (pattern ∷ [])) [
    | none ↦ false
    | some _ ↦ true
  ]

  -- The loop of `paginateKeysetFilteredByGlob`, with `startsWith` as a test on the prefix and a path.
  unfoldable pub scan_matching :
      (String → String → Bool) → (String → String → Bool) → String → String → List R → List R
  scan_matching starts_with matches prefix pattern [] = []
  scan_matching starts_with matches prefix pattern (r ∷ rows) =
      let rest = scan_matching starts_with matches prefix pattern rows in
      if starts_with prefix (key_of r)
      then (if is_matched matches pattern (key_of r) then r ∷ rest else rest)
      else []

  unfoldable pub paginate_keyset_filtered_by_glob :
      (String → String → Bool)
      → (String → String → Bool)
      → (String → List (List (Option String)))
      → (Option String → ℕ → List R)
      → String
      → ℕ
      → ℕ
      → Option (List R)
  paginate_keyset_filtered_by_glob starts_with matches parse fetch_page pattern page_size fuel =
      Option.map (scan_matching starts_with matches (literal_prefix_of (parse pattern)) pattern)
        (paginate_keyset fetch_page page_size fuel none)

-- The `ORDER BY path ASC LIMIT ?` of a query over the table, whose rows stand in the order of `path`.
unfoldable pub entries_page :
    (String → String → Bool) → List EntryRow → Option String → ℕ → List EntryRow
entries_page lt rows none limit = take limit (rows_above (λ r. r.path) lt "" rows)
entries_page lt rows (some after) limit = take limit (rows_above (λ r. r.path) lt after rows)

unfoldable pub glob_page :
    (String → String → Bool) → List EntryRow → String → Option String → ℕ → List EntryRow
glob_page lt rows prefix none limit = take limit (rows_from (λ r. r.path) lt prefix rows)
glob_page lt rows prefix (some after) limit = take limit (rows_above (λ r. r.path) lt after rows)

-- `iterateAllSortedByPath`
unfoldable pub iterate_all_sorted_by_path :
    (String → String → Bool) → List EntryRow → ℕ → ℕ → Option (List EntryRow)
iterate_all_sorted_by_path lt rows page_size fuel =
    paginate_keyset (λ r. r.path) (entries_page lt rows) page_size fuel none

-- `iterateByGlobSortedByPath`
unfoldable pub iterate_by_glob_sorted_by_path :
    (String → String → Bool)
    → (String → String → Bool)
    → (String → String → Bool)
    → (String → List (List (Option String)))
    → List EntryRow
    → String
    → ℕ
    → ℕ
    → Option (List EntryRow)
iterate_by_glob_sorted_by_path lt starts_with matches parse rows pattern page_size fuel =
    paginate_keyset_filtered_by_glob (λ r. r.path) starts_with matches parse
      (glob_page lt rows (literal_prefix_of (parse pattern))) pattern page_size fuel
