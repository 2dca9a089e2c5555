-- ===== src/Prelude/Table.antt =====
-- A table of rows with a primary key, as the repositories use SQLite: `SELECT … WHERE key = ?`,
-- `INSERT … ON CONFLICT(key) DO UPDATE` and `DELETE … WHERE key = ?`; a `Map` is one too.
use mathlib.Core.Path.{◌≡◌, refl}
use mathlib.Core.Bool.{Bool, true, false}
use mathlib.Core.Option.{Option, none, some}
use mathlib.Core.List.{List, [], ◌∷◌, ◌++◌}
use native.Mathlib.Omega.{arith}
use sync.Prelude.Tests.{if◌then◌else◌}
use sync.Prelude.Equality.{Eq, ◌==◌}

module _ {ℓ} {K R : Type ℓ} ⦃e : Eq K⦄ (key : R → K) where
  unfoldable pub find : K → List R → Option R
  find k [] = none
  find k (r ∷ rows) = if key r == k then some r else find k rows

  unfoldable pub has : K → List R → Bool
  has k rows = elim (find k rows) [ none ↦ false | some _ ↦ true ]

  unfoldable pub upsert : R → List R → List R
  upsert row [] = row ∷ []
  upsert row (r ∷ rows) = if key r == key row then row ∷ rows else r ∷ upsert row rows

  unfoldable pub remove : K → List R → List R
  remove k [] = []
  remove k (r ∷ rows) = let rest = remove k rows in if key r == k then rest else r ∷ rest

  pub find-nil : (k : K) → find k [] ≡ none
  unfolding find
  find-nil k = refl

  pub find-upsert :
      (k : K) (row : R) (rows : List R)
      → find k (upsert row rows) ≡ (if key row == k then some row else find k rows)
  unfolding find upsert
  find-upsert k row [] = refl
  find-upsert k row (r ∷ rows) = ground (arith, find-upsert k row rows)

  pub find-remove :
      (k j : K) (rows : List R) → find k (remove j rows) ≡ (if j == k then none else find k rows)
  unfolding find remove
  find-remove k j [] = ground arith
  find-remove k j (r ∷ rows) = ground (arith, find-remove k j rows)

  -- What is found under a key has that key.
  pub key-find : (k : K) (rows : List R) (r : R) → find k rows ≡ some r → key r ≡ k
  unfolding find
  key-find k [] r h = cc
  key-find k (x ∷ rows) r h = ground (arith, key-find k rows r)

  pub has-upsert :
      (k : K) (row : R) (rows : List R)
      → has k (upsert row rows) ≡ (if key row == k then true else has k rows)
  unfolding has
  has-upsert k row rows = ground (arith, find-upsert k row rows)

  pub find_of_has : (k : K) (rows : List R) → has k rows ≡ true → (r : R) × (find k rows ≡ some r)
  unfolding has
  find_of_has k rows h = ground arith

  -- `INSERT` of a row with a new key.
  pub find-append_one :
      (k : K) (row : R) (rows : List R)
      → has (key row) rows ≡ false
      → find k (rows ++ (row ∷ [])) ≡ (if key row == k then some row else find k rows)
  unfolding find has
  find-append_one k row [] h = refl
  find-append_one k row (r ∷ rows) h = ground (arith, find-append_one k row rows)

  pub find-append_other :
      (k : K) (row : R) (rows : List R)
      → (key row == k) ≡ false
      → find k (rows ++ (row ∷ [])) ≡ find k rows
  unfolding find
  find-append_other k row [] h = rw h refl
  find-append_other k row (r ∷ rows) h = ground (arith, find-append_other k row rows h)

  pub find-append_here :
      (k : K) (row : R) (rows : List R)
      → key row ≡ k
      → find k rows ≡ none
      → find k (rows ++ (row ∷ [])) ≡ some row
  unfolding find
  find-append_here k row [] at h = ground (arith, at)
  find-append_here k row (r ∷ rows) at h = ground (arith, find-append_here k row rows at)

  pub find-append_kept :
      (k : K) (x : R) (rows ys : List R) → find k rows ≡ some x → find k (rows ++ ys) ≡ some x
  unfolding find
  find-append_kept k x [] ys h = cc
  find-append_kept k x (r ∷ rows) ys h = ground (arith, find-append_kept k x rows ys)

  pub has_of_find : (k : K) (x : R) (rows : List R) → find k rows ≡ some x → has k rows ≡ true
  unfolding has
  has_of_find k x rows h = ground arith
