-- ===== src/Db/Pages/Laws/Cursor.antt =====
-- A scan in pages from a cursor yields the rows behind it.
use mathlib.Core.Path.{subst}
use sync.Prelude.{
  ℕ, zero, suc, ◌<◌, String, Bool, true, false, Option, some, List, [], ◌∷◌, ◌++◌, ◌≡◌, refl, sym,
  ap, ◌∙◌, arith, inl, inr, Bool-cases, take, drop, length, All, take-append-drop, length-drop,
}
use sync.Sync.MergeJoin.Laws.{IsOrder, SortedEntries}
use sync.Db.Pages.{last_key, paginate_keyset, rows_above}

append_assoc : {A : Type 0} (xs ys zs : List A) → (xs ++ ys) ++ zs ≡ xs ++ (ys ++ zs)
append_assoc [] ys zs = refl
append_assoc (x ∷ xs) ys zs = ap (λ l. x ∷ l) (append_assoc xs ys zs)

module _ {R : Type 0} (key_of : R → String) (lt : String → String → Bool) (o : IsOrder lt) where
  pub not_below : (a b : String) → lt a b ≡ true → lt b a ≡ false
  not_below a b h = elim (Bool-cases (lt b a)) [
    | inl k ↦
        let loop = o.transitive a b a h k in let no = o.irreflexive a in absurd (cc (loop, no))
    | inr k ↦ k
  ]

  -- What is below every row is below the last one of a page.
  below_last :
      (k : String) (pre : List R) (r : R) (page rest : List R)
      → All (λ d. lt k (key_of d) ≡ true) (pre ++ (r ∷ page ++ rest))
      → lt k (last_key key_of r page) ≡ true
  unfolding last_key
  below_last k (p ∷ pre) r page rest h = below_last k pre r page rest h.1
  below_last k [] r [] rest h = h.0
  below_last k [] r (next ∷ page) rest h = below_last k [] next page rest h.1

  pub above_skip :
      (k : String) (r : R) (rows : List R)
      → lt k (key_of r) ≡ false
      → rows_above key_of lt k (r ∷ rows) ≡ rows_above key_of lt k rows
  unfolding rows_above
  above_skip k r rows h = rw h

  pub above-All :
      (k : String) (rows : List R)
      → All (λ d. lt k (key_of d) ≡ true) rows
      → rows_above key_of lt k rows ≡ rows
  unfolding rows_above
  above-All k [] h = refl
  above-All k (r ∷ rows) h = rw h.0 (ap (λ l. r ∷ l) (above-All k rows h.1))

  -- Behind the last row of a page stand the rows that follow it.
  above_last :
      (pre : List R) (r : R) (page rest : List R)
      → SortedEntries key_of lt o (pre ++ (r ∷ page ++ rest))
      → rows_above key_of lt (last_key key_of r page) (pre ++ (r ∷ page ++ rest)) ≡ rest
  unfolding last_key
  above_last (p ∷ pre) r page rest s =
      let below = below_last (key_of p) pre r page rest s.0 in
      above_skip (last_key key_of r page) p (pre ++ (r ∷ page ++ rest))
        (not_below (key_of p) (last_key key_of r page) below)
      ∙ above_last pre r page rest s.1
  above_last [] r [] rest s =
      above_skip (key_of r) r rest (o.irreflexive (key_of r)) ∙ above-All (key_of r) rest s.0
  above_last [] r (next ∷ page) rest s =
      let below = below_last (key_of r) [] next page rest s.0 in
      above_skip (last_key key_of next page) r (next ∷ page ++ rest)
        (not_below (key_of r) (last_key key_of next page) below)
      ∙ above_last [] next page rest s.1

  paginate_end :
      (fetch_page : Option String → ℕ → List R) (size fuel : ℕ) (after : Option String)
      → fetch_page after size ≡ []
      → paginate_keyset key_of fetch_page size (suc fuel) after ≡ some []
  unfolding paginate_keyset
  paginate_end fetch_page size fuel after h = rw (paginate_keyset, h)

  paginate_more :
      (fetch_page : Option String → ℕ → List R) (size fuel : ℕ) (after : Option String) (r : R)
      (page rest : List R)
      → fetch_page after size ≡ r ∷ page
      → paginate_keyset key_of fetch_page size fuel (some (last_key key_of r page)) ≡ some rest
      → paginate_keyset key_of fetch_page size (suc fuel) after ≡ some (r ∷ page ++ rest)
  unfolding paginate_keyset
  paginate_more fetch_page size fuel after r page rest h later = rw (paginate_keyset, h, later)

  -- From a cursor behind which `tail` stands, the scan yields `tail`.
  pub pages_lem :
      (fetch_page : Option String → ℕ → List R) (size : ℕ) (rows : List R)
      → SortedEntries key_of lt o rows
      → ((k : String)
          → fetch_page (some k) (suc size) ≡ take (suc size) (rows_above key_of lt k rows))
      → (fuel : ℕ) (after : Option String) (pre tail : List R) → rows ≡ pre ++ tail
      → fetch_page after (suc size) ≡ take (suc size) tail
      → length tail < fuel
      → paginate_keyset key_of fetch_page (suc size) fuel after ≡ some tail
  pages_lem fetch_page size rows sorted next zero after pre tail at page bound =
      absurd (omega arith)
  pages_lem fetch_page size rows sorted next (suc fuel) after pre [] at page bound =
      paginate_end fetch_page (suc size) fuel after page
  pages_lem fetch_page size rows sorted next (suc fuel) after pre (r ∷ tail) at page bound =
      let k = last_key key_of r (take size tail) in
      let whole : r ∷ take size tail ++ drop size tail ≡ r ∷ tail =
        ap (λ l. r ∷ l) (take-append-drop size tail) in
      let cut : rows ≡ pre ++ (r ∷ take size tail ++ drop size tail) =
        at ∙ sym (ap (λ l. pre ++ l) whole) in
      let behind : rows_above key_of lt k rows ≡ drop size tail =
        ap (λ l. rows_above key_of lt k l) cut
        ∙ above_last pre r (take size tail) (drop size tail)
            (subst (SortedEntries key_of lt o) cut sorted) in
      let shorter : length (drop size tail) < fuel = rw (length-drop size tail) omega arith in
      let later =
        pages_lem fetch_page size rows sorted next fuel (some k) (pre ++ (r ∷ take size tail))
          (drop size tail) (cut ∙ sym (append_assoc pre (r ∷ take size tail) (drop size tail)))
          (next k ∙ ap (take (suc size)) behind) shorter in
      paginate_more fetch_page (suc size) fuel after r (take size tail) (drop size tail) page later
      ∙ ap some whole
