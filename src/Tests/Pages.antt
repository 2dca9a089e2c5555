-- ===== src/Tests/Pages.antt =====
-- A table of three entries, read one row at a time, as a whole and by the pattern of one path.
use Prim.Native.String.{[] as nil, ◌∷◌ as cons}
use Prim.Native.Char.{code}
use sync.Prelude.{
  String, Bool, true, false, Option, some, List, [], ◌∷◌, ◌≡◌, refl, ◌&&◌, ◌==◌, All, arith, nat_eq,
}
use sync.Sync.Rows.{EntryType, EntryRow, entry_path}
use sync.Sync.MergeJoin.Laws.{SortedEntries}
use sync.Db.Pages.{
  literal_prefix_of, join_segments, leading_literals, iterate_all_sorted_by_path,
  iterate_by_glob_sorted_by_path,
}
use sync.Db.Pages.Laws.{IsPrefix, matching, iterate_all_lem, iterate_by_glob_lem}
use sync.Tests.Order.{less, less-IsOrder}

unfoldable starts_with : String → String → Bool
starts_with nil path = true
starts_with (cons c s) nil = false
starts_with (cons c s) (cons d t) = code c == code d && starts_with s t

-- A pattern without wildcards.
abbrev equals : String → String → Bool
equals pattern path = starts_with pattern path && starts_with path pattern

abbrev parse : String → List (List (Option String))
parse pattern = (some pattern ∷ []) ∷ []

prefix_not_before : (s p : String) → starts_with s p ≡ true → less p s ≡ false
unfolding starts_with less
prefix_not_before nil nil h = refl
prefix_not_before nil (cons d t) h = refl
prefix_not_before (cons c s) nil h = cc
prefix_not_before (cons c s) (cons d t) h = ground (arith, prefix_not_before s t)

prefix_one_block :
    (s p q : String)
    → less p s ≡ false
    → starts_with s p ≡ false
    → less p q ≡ true
    → starts_with s q ≡ false
unfolding starts_with less
prefix_one_block nil p q h k above = cc
prefix_one_block (cons c s) nil q h k above = cc
prefix_one_block (cons c s) (cons d t) nil h k above = cc
prefix_one_block (cons c s) (cons d t) (cons e u) h k above = ground (arith, prefix_one_block s t u)

prefix_of_match : (s p : String) → equals s p ≡ true → starts_with s p ≡ true
prefix_of_match s p h = ground arith

equals-IsPrefix : (s : String) → IsPrefix entry_path less less-IsOrder starts_with equals s s
equals-IsPrefix s = record {
  of_match = prefix_of_match s;
  not_before = prefix_not_before s;
  one_block = prefix_one_block s;
}

abbrev entry : String → EntryRow
entry path = record { path = path; type = EntryType.file; hash = some "h1"; state_version = "v1" }

abbrev table : List EntryRow
table = entry "a" ∷ entry "b" ∷ entry "c" ∷ []

sorted_table : SortedEntries entry_path less less-IsOrder table
unfolding less nat_eq
sorted_table = ((refl, (refl, tt)), ((refl, tt), (tt, tt)))

named_table : All (λ e. less "" e.path ≡ true) table
unfolding less
named_table = (refl, (refl, (refl, tt)))

iterate_all_lem_example : iterate_all_sorted_by_path less table 1 4 ≡ some table
iterate_all_lem_example =
    iterate_all_lem less less-IsOrder table 0 4 sorted_table named_table (omega arith)

literal_prefix : literal_prefix_of (parse "b") ≡ "b"
unfolding literal_prefix_of join_segments leading_literals
literal_prefix = refl

iterate_by_glob_lem_example :
    iterate_by_glob_sorted_by_path less starts_with equals parse table "b" 1 4
    ≡ some (
        matching entry_path less less-IsOrder starts_with equals
          (literal_prefix_of (parse "b"))
          "b"
          table)
iterate_by_glob_lem_example =
    iterate_by_glob_lem less less-IsOrder starts_with equals parse table "b" 0 4
      (rw literal_prefix (equals-IsPrefix "b")) sorted_table (omega arith)
