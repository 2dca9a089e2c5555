-- ===== src/Fs/GlobMatch.antt =====
-- src/fs/glob-match.ts: the first pattern of a list that matches. One pattern against one path is
-- minimatch's, and is a parameter.
use sync.Prelude.{String, Bool, Option, none, some, List, [], ◌∷◌, if◌then◌else◌}

-- `matchesAnyGlob`: the pattern that matched, if one did.
unfoldable pub matches_any_glob : (String → String → Bool) → String → List String → Option String
matches_any_glob matches path [] = none
matches_any_glob matches path (pattern ∷ patterns) =
    if matches pattern path then some pattern else matches_any_glob matches path patterns
