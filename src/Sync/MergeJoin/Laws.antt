-- ===== src/Sync/MergeJoin/Laws.antt =====
-- The merge join is the full outer join of its two lists by path.
use mathlib.Core.Path.{subst}
use sync.Prelude.{
  String, Bool, true, false, Option, none, some, List, [], ◌∷◌, ◌≡◌, refl, sym, ap, ◌∙◌, All, arith,
  inl, inr, Bool-cases, ◌==◌, if◌then◌else◌, string_eq,
}
use sync.Sync.Rows.{CacheEntryRow, get_cache}
use sync.Prelude.Table.{find}
use sync.Sync.MergeJoin.{Step, remote_only, local_only, both, step_path, merge_join}

-- A strict total order.
pub record IsOrder (lt : String → String → Bool) : Type 0 where
  pub irreflexive : (a : String) → lt a a ≡ false
  pub transitive : (a b c : String) → lt a b ≡ true → lt b c ≡ true → lt a c ≡ true
  pub total : (a b : String) → lt a b ≡ false → lt b a ≡ false → a ≡ b

module _ {E : Type 0} (path_of : E → String) where
  pub step_at : String → List (Step E) → Option (Step E)
  step_at p [] = none
  step_at p (x ∷ steps) = if step_path path_of x == p then some x else step_at p steps

  pub step_at-nil : (p : String) → step_at p [] ≡ none
  unfolding step_at
  step_at-nil p = refl

  pub step_at-here :
      (p : String) (x : Step E) (steps : List (Step E))
      → step_path path_of x ≡ p
      → step_at p (x ∷ steps) ≡ some x
  unfolding step_at
  step_at-here p x steps at = ground arith

  pub step_at-other :
      (p : String) (x : Step E) (steps : List (Step E))
      → (step_path path_of x == p) ≡ false
      → step_at p (x ∷ steps) ≡ step_at p steps
  unfolding step_at
  step_at-other p x steps other = rw other

  abbrev pub NodupSteps : List (Step E) → Type 0
  NodupSteps [] = Unit
  NodupSteps (x ∷ steps) = (step_at (step_path path_of x) steps ≡ none) × NodupSteps steps

  -- The full outer join at one path.
  abbrev pub join : Option CacheEntryRow → Option E → Option (Step E)
  join none none = none
  join none (some e) = some (remote_only e)
  join (some c) none = some (local_only c)
  join (some c) (some e) = some (both c e)

  merge-remote :
      (lt : String → String → Bool) (c : CacheEntryRow) (cs : List CacheEntryRow) (e : E)
      (es : List E)
      → lt (path_of e) c.path ≡ true
      → merge_join path_of lt (c ∷ cs) (e ∷ es) ≡ remote_only e ∷ merge_join path_of lt (c ∷ cs) es
  unfolding merge_join
  merge-remote lt c cs e es h = ground arith

  merge-local :
      (lt : String → String → Bool) (c : CacheEntryRow) (cs : List CacheEntryRow) (e : E)
      (es : List E)
      → lt (path_of e) c.path ≡ false
      → lt c.path (path_of e) ≡ true
      → merge_join path_of lt (c ∷ cs) (e ∷ es) ≡ local_only c ∷ merge_join path_of lt cs (e ∷ es)
  unfolding merge_join
  merge-local lt c cs e es above h = ground arith

  merge-both :
      (lt : String → String → Bool) (c : CacheEntryRow) (cs : List CacheEntryRow) (e : E)
      (es : List E)
      → lt (path_of e) c.path ≡ false
      → lt c.path (path_of e) ≡ false
      → merge_join path_of lt (c ∷ cs) (e ∷ es) ≡ both c e ∷ merge_join path_of lt cs es
  unfolding merge_join
  merge-both lt c cs e es above h = ground arith

  take_remote :
      (p : String) (e : E) (steps : List (Step E)) (c : Option CacheEntryRow) (rest : Option E)
      → (path_of e ≡ p → c ≡ none)
      → step_at p steps ≡ join c rest
      → step_at p (remote_only e ∷ steps) ≡ join c (if path_of e == p then some e else rest)
  unfolding step_at
  take_remote p e steps c rest h ih = ground (arith, h)

  take_local :
      (p : String) (c : CacheEntryRow) (steps : List (Step E)) (rest : Option CacheEntryRow)
      (e : Option E)
      → (c.path ≡ p → e ≡ none)
      → step_at p steps ≡ join rest e
      → step_at p (local_only c ∷ steps) ≡ join (if c.path == p then some c else rest) e
  unfolding step_at
  take_local p c steps rest e h ih = ground (arith, h)

  take_both :
      (p : String) (c : CacheEntryRow) (e : E) (steps : List (Step E)) (cs : Option CacheEntryRow)
      (es : Option E)
      → c.path ≡ path_of e
      → step_at p steps ≡ join cs es
      → step_at p (both c e ∷ steps)
        ≡ join (if c.path == p then some c else cs) (if path_of e == p then some e else es)
  unfolding step_at
  take_both p c e steps cs es same ih = ground arith

  -- A row and an entry that are met together have one path.
  abbrev pub IsAligned : Step E → Type 0
  IsAligned (remote_only e) = Unit
  IsAligned (local_only c) = Unit
  IsAligned (both c e) = c.path ≡ path_of e

module _ (lt : String → String → Bool) (o : IsOrder lt) where
  abbrev pub SortedCache : List CacheEntryRow → Type 0
  SortedCache [] = Unit
  SortedCache (c ∷ cs) = All (λ d. lt c.path d.path ≡ true) cs × SortedCache cs

  -- Nothing stands below the first row.
  below_cache :
      (p q : String) (cs : List CacheEntryRow)
      → lt p q ≡ true
      → All (λ d. lt q d.path ≡ true) cs
      → get_cache p cs ≡ none
  unfolding find
  below_cache p q [] h all = refl
  below_cache p q (d ∷ cs) h (hd, all) =
      ground (arith, o.transitive p q d.path h hd, o.irreflexive p, below_cache p q cs h all)

  first_cache :
      (p : String) (c : CacheEntryRow) (cs : List CacheEntryRow)
      → lt p c.path ≡ true
      → All (λ d. lt c.path d.path ≡ true) cs
      → get_cache p (c ∷ cs) ≡ none
  unfolding find
  first_cache p c cs h all = ground (arith, o.irreflexive p, below_cache p c.path cs h all)

  pub absent_cache :
      (p : String) (cs : List CacheEntryRow)
      → All (λ d. lt p d.path ≡ true) cs
      → get_cache p cs ≡ none
  unfolding find
  absent_cache p [] all = refl
  absent_cache p (d ∷ cs) (hd, all) = ground (arith, o.irreflexive p, absent_cache p cs all)

module _ {E : Type 0} (path_of : E → String) (lt : String → String → Bool) (o : IsOrder lt) where
  abbrev pub SortedEntries : List E → Type 0
  SortedEntries [] = Unit
  SortedEntries (e ∷ es) = All (λ d. lt (path_of e) (path_of d) ≡ true) es × SortedEntries es

  below_entries :
      (p q : String) (es : List E)
      → lt p q ≡ true
      → All (λ d. lt q (path_of d) ≡ true) es
      → find path_of p es ≡ none
  unfolding find
  below_entries p q [] h all = refl
  below_entries p q (d ∷ es) h (hd, all) =
      ground (arith, o.transitive p q (path_of d) h hd, o.irreflexive p, below_entries p q es h all)

  first_entry :
      (p : String) (e : E) (es : List E)
      → lt p (path_of e) ≡ true
      → All (λ d. lt (path_of e) (path_of d) ≡ true) es
      → find path_of p (e ∷ es) ≡ none
  unfolding find
  first_entry p e es h all = ground (arith, o.irreflexive p, below_entries p (path_of e) es h all)

  -- On lists sorted by the order that the loop compares with, each path is met as the lookups in the
  -- two tables have it: with its row and its entry together, or the one without the other.
  pub merge_join_lem :
      (p : String) (cs : List CacheEntryRow) (es : List E)
      → SortedCache lt o cs
      → SortedEntries es
      → step_at path_of p (merge_join path_of lt cs es)
        ≡ join path_of (get_cache p cs) (find path_of p es)
  unfolding merge_join step_at find
  merge_join_lem p [] [] sc se = refl
  merge_join_lem p [] (e ∷ es) sc se = ground (arith, merge_join_lem p [] es sc se.1)
  merge_join_lem p (c ∷ cs) [] sc se = ground (arith, merge_join_lem p cs [] sc.1 se)
  merge_join_lem p (c ∷ cs) (e ∷ es) (ac, sc) (ae, se) = elim (Bool-cases (lt (path_of e) c.path)) [
    | inl below ↦
        ap (step_at path_of p) (merge-remote path_of lt c cs e es below)
        ∙ (take_remote path_of p e (merge_join path_of lt (c ∷ cs) es) (get_cache p (c ∷ cs))
            (find path_of p es) (λ at. first_cache lt o p c cs (rw (sym at) below) ac)
            (merge_join_lem p (c ∷ cs) es (ac, sc) se))
    | inr above ↦ elim (Bool-cases (lt c.path (path_of e))) [
      | inl below ↦
          ap (step_at path_of p) (merge-local path_of lt c cs e es above below)
          ∙ (take_local path_of p c (merge_join path_of lt cs (e ∷ es)) (get_cache p cs)
              (find path_of p (e ∷ es)) (λ at. first_entry p e es (rw (sym at) below) ae)
              (merge_join_lem p cs (e ∷ es) sc (ae, se)))
      | inr neither ↦
          ap (step_at path_of p) (merge-both path_of lt c cs e es above neither)
          ∙ (take_both path_of p c e (merge_join path_of lt cs es) (get_cache p cs)
              (find path_of p es) (o.total c.path (path_of e) neither above)
              (merge_join_lem p cs es sc se))
    ]
  ]

  absent_entries :
      (p : String) (es : List E) → All (λ d. lt p (path_of d) ≡ true) es → find path_of p es ≡ none
  unfolding find
  absent_entries p [] all = refl
  absent_entries p (d ∷ es) (hd, all) = ground (arith, o.irreflexive p, absent_entries p es all)

  absent_step :
      (p : String) (cs : List CacheEntryRow) (es : List E)
      → SortedCache lt o cs
      → SortedEntries es
      → get_cache p cs ≡ none
      → find path_of p es ≡ none
      → step_at path_of p (merge_join path_of lt cs es) ≡ none
  absent_step p cs es sc se no_row no_entry =
      merge_join_lem p cs es sc se
      ∙ cc (ap (λ r. join path_of r (find path_of p es)) no_row, ap (join path_of none) no_entry)

  -- No path is met twice.
  pub merge_join-NodupSteps :
      (cs : List CacheEntryRow) (es : List E)
      → SortedCache lt o cs
      → SortedEntries es
      → NodupSteps path_of (merge_join path_of lt cs es)
  unfolding merge_join
  merge_join-NodupSteps [] [] sc se = tt
  merge_join-NodupSteps [] (e ∷ es) sc (ae, se) = (
    absent_step (path_of e) [] es tt se (absent_cache lt o (path_of e) [] tt)
        (absent_entries (path_of e) es ae),
    merge_join-NodupSteps [] es sc se,
  )
  merge_join-NodupSteps (c ∷ cs) [] (ac, sc) se = (
    absent_step c.path cs [] sc tt (absent_cache lt o c.path cs ac) (absent_entries c.path [] tt),
    merge_join-NodupSteps cs [] sc se,
  )
  merge_join-NodupSteps (c ∷ cs) (e ∷ es) (ac, sc) (ae, se) =
      elim (Bool-cases (lt (path_of e) c.path)) [
        | inl below ↦ subst (NodupSteps path_of) (sym (merge-remote path_of lt c cs e es below)) (
          absent_step (path_of e) (c ∷ cs) es (ac, sc) se
              (first_cache lt o (path_of e) c cs below ac) (absent_entries (path_of e) es ae),
          merge_join-NodupSteps (c ∷ cs) es (ac, sc) se,
        )
        | inr above ↦ elim (Bool-cases (lt c.path (path_of e))) [
          | inl below ↦
              subst (NodupSteps path_of) (sym (merge-local path_of lt c cs e es above below)) (
                absent_step c.path cs (e ∷ es) sc (ae, se) (absent_cache lt o c.path cs ac)
                    (first_entry c.path e es below ae),
                merge_join-NodupSteps cs (e ∷ es) sc (ae, se),
              )
          | inr neither ↦
              subst (NodupSteps path_of) (sym (merge-both path_of lt c cs e es above neither)) (
                absent_step (path_of e) cs es sc se
                    (rw (o.total (path_of e) c.path above neither) (absent_cache lt o c.path cs ac))
                    (absent_entries (path_of e) es ae),
                merge_join-NodupSteps cs es sc se,
              )
        ]
      ]

  pub merge_join-IsAligned :
      (cs : List CacheEntryRow) (es : List E)
      → All (IsAligned path_of) (merge_join path_of lt cs es)
  unfolding merge_join
  merge_join-IsAligned [] [] = tt
  merge_join-IsAligned [] (e ∷ es) = (tt, merge_join-IsAligned [] es)
  merge_join-IsAligned (c ∷ cs) [] = (tt, merge_join-IsAligned cs [])
  merge_join-IsAligned (c ∷ cs) (e ∷ es) = elim (Bool-cases (lt (path_of e) c.path)) [
    | inl below ↦
        subst (All (IsAligned path_of)) (sym (merge-remote path_of lt c cs e es below))
          (tt, merge_join-IsAligned (c ∷ cs) es)
    | inr above ↦ elim (Bool-cases (lt c.path (path_of e))) [
      | inl below ↦
          subst (All (IsAligned path_of)) (sym (merge-local path_of lt c cs e es above below))
            (tt, merge_join-IsAligned cs (e ∷ es))
      | inr neither ↦
          subst (All (IsAligned path_of)) (sym (merge-both path_of lt c cs e es above neither))
            (o.total c.path (path_of e) neither above, merge_join-IsAligned cs es)
    ]
  ]
