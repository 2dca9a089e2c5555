-- ===== src/Prelude/Lists.antt =====
-- Lists measured and cut by native numbers, and predicates on their elements.
use Prim.Native.Nat.{ℕ, zero, suc, ◌+◌, ◌-◌, ◌≤◌, ◌<◌, min}
use mathlib.Core.Path.{◌≡◌, refl, sym, ap, ◌∙◌}
use mathlib.Core.Logic.{◌⊎◌, inl, inr}
use mathlib.Core.List.{List, [], ◌∷◌, ◌++◌, append-nil}
use native.Mathlib.Omega.{arith}

module _ {ℓ} {A : Type ℓ} where
  abbrev pub length : List A → ℕ
  length [] = 0
  length (x ∷ xs) = suc (length xs)

  abbrev pub take : ℕ → List A → List A
  take zero xs = []
  take (suc n) [] = []
  take (suc n) (x ∷ xs) = x ∷ take n xs

  abbrev pub drop : ℕ → List A → List A
  drop zero xs = xs
  drop (suc n) [] = []
  drop (suc n) (x ∷ xs) = drop n xs

  abbrev pub All {κ} : (A → Type κ) → List A → Type κ
  All P [] = Unit
  All P (x ∷ xs) = P x × All P xs

  pub length-append : (xs ys : List A) → length (xs ++ ys) ≡ length xs + length ys
  length-append [] ys = omega arith
  length-append (x ∷ xs) ys = omega (arith, length-append xs ys)

  pub take-append-drop : (n : ℕ) (xs : List A) → take n xs ++ drop n xs ≡ xs
  take-append-drop zero xs = refl
  take-append-drop (suc n) [] = refl
  take-append-drop (suc n) (x ∷ xs) = rw (take-append-drop n xs)

  pub length-take : (n : ℕ) (xs : List A) → length (take n xs) ≡ min n (length xs)
  length-take zero xs = omega arith
  length-take (suc n) [] = omega arith
  length-take (suc n) (x ∷ xs) = omega (arith, length-take n xs)

  pub length-drop : (n : ℕ) (xs : List A) → length (drop n xs) ≡ length xs - n
  length-drop zero xs = omega arith
  length-drop (suc n) [] = omega arith
  length-drop (suc n) (x ∷ xs) = omega (arith, length-drop n xs)

  -- Cutting at the length of the first part of an append gives the parts back.
  pub take_append_at : (n : ℕ) (xs ys : List A) → length xs ≡ n → take n (xs ++ ys) ≡ xs
  take_append_at zero [] ys h = refl
  take_append_at zero (x ∷ xs) ys h = absurd (omega arith)
  take_append_at (suc n) [] ys h = absurd (omega arith)
  take_append_at (suc n) (x ∷ xs) ys h = rw (take_append_at n xs ys (omega arith))

  pub drop_append_at : (n : ℕ) (xs ys : List A) → length xs ≡ n → drop n (xs ++ ys) ≡ ys
  drop_append_at zero [] ys h = refl
  drop_append_at zero (x ∷ xs) ys h = absurd (omega arith)
  drop_append_at (suc n) [] ys h = absurd (omega arith)
  drop_append_at (suc n) (x ∷ xs) ys h = drop_append_at n xs ys (omega arith)

  -- A cut that takes everything.
  pub take_all : (n : ℕ) (xs : List A) → length xs ≤ n → take n xs ≡ xs
  take_all zero [] h = refl
  take_all zero (x ∷ xs) h = absurd (omega arith)
  take_all (suc n) [] h = refl
  take_all (suc n) (x ∷ xs) h = rw (take_all n xs (omega arith))

  pub drop_all : (n : ℕ) (xs : List A) → length xs ≤ n → drop n xs ≡ []
  drop_all zero [] h = refl
  drop_all zero (x ∷ xs) h = absurd (omega arith)
  drop_all (suc n) [] h = refl
  drop_all (suc n) (x ∷ xs) h = drop_all n xs (omega arith)

  -- Cutting at the end of the list and beyond it is the same.
  pub take-min : (n : ℕ) (xs : List A) → take (min n (length xs)) xs ≡ take n xs
  take-min n xs =
      let shorter_or_not : (n ≤ length xs) ⊎ (length xs < n) = omega arith in
      elim shorter_or_not [
        | inl h ↦ let same : min n (length xs) ≡ n = omega arith in ap (λ k. take k xs) same
        | inr h ↦ take_all (min n (length xs)) xs (omega arith) ∙ sym (take_all n xs (omega arith))
      ]

  pub drop-min : (n : ℕ) (xs : List A) → drop (min n (length xs)) xs ≡ drop n xs
  drop-min n xs =
      let shorter_or_not : (n ≤ length xs) ⊎ (length xs < n) = omega arith in
      elim shorter_or_not [
        | inl h ↦ let same : min n (length xs) ≡ n = omega arith in ap (λ k. drop k xs) same
        | inr h ↦ drop_all (min n (length xs)) xs (omega arith) ∙ sym (drop_all n xs (omega arith))
      ]

  -- Cutting at the length of a cut is that cut.
  pub take_again : (n : ℕ) (xs : List A) → take (length (take n xs)) xs ≡ take n xs
  take_again n xs = rw (length-take n xs) (take-min n xs)

  pub drop_again : (n : ℕ) (xs : List A) → drop (length (take n xs)) xs ≡ drop n xs
  drop_again n xs = rw (length-take n xs) (drop-min n xs)

  pub drop-drop : (n m : ℕ) (xs : List A) → drop m (drop n xs) ≡ drop (n + m) xs
  drop-drop zero m xs = let same : m ≡ 0 + m = omega arith in ap (λ k. drop k xs) same
  drop-drop (suc n) m [] = drop_all m [] (omega arith) ∙ sym (drop_all (suc n + m) [] (omega arith))
  drop-drop (suc n) m (x ∷ xs) =
      let same : suc (n + m) ≡ suc n + m = omega arith in
      drop-drop n m xs ∙ ap (λ k. drop k (x ∷ xs)) same

  -- A cut behind a first part that is of that length, or that nothing follows.
  pub take_fit :
      (n : ℕ) (xs ys : List A)
      → length xs ≤ n
      → (length xs ≡ n) ⊎ (ys ≡ [])
      → (take n (xs ++ ys) ≡ xs) × (drop n (xs ++ ys) ≡ ys)
  take_fit n xs ys h (inl full) = (take_append_at n xs ys full, drop_append_at n xs ys full)
  take_fit n xs ys h (inr last) =
      let all : xs ++ ys ≡ xs = ap (λ l. xs ++ l) last ∙ append-nil xs in
      (ap (take n) all ∙ take_all n xs h, ap (drop n) all ∙ drop_all n xs h ∙ sym last)

  pub take-append : (n : ℕ) (xs ys : List A) → n ≤ length xs → take n (xs ++ ys) ≡ take n xs
  take-append zero xs ys h = refl
  take-append (suc n) [] ys h = absurd (omega arith)
  take-append (suc n) (x ∷ xs) ys h = rw (take-append n xs ys (omega arith))

  pub drop-append : (n : ℕ) (xs ys : List A) → n ≤ length xs → drop n (xs ++ ys) ≡ drop n xs ++ ys
  drop-append zero xs ys h = refl
  drop-append (suc n) [] ys h = absurd (omega arith)
  drop-append (suc n) (x ∷ xs) ys h = drop-append n xs ys (omega arith)

  -- A cut of a list's first part, where that is long enough or all there is, is a cut of the list.
  pub cut_first :
      (n : ℕ) (xs ys : List A)
      → (n ≤ length xs) ⊎ (ys ≡ [])
      → (take (min n (length xs)) xs ≡ take n (xs ++ ys))
        × (drop (min n (length xs)) xs ++ ys ≡ drop n (xs ++ ys))
  cut_first n xs ys (inl h) =
      let same : min n (length xs) ≡ n = omega arith in
      rw same (sym (take-append n xs ys h), sym (drop-append n xs ys h))
  cut_first n xs ys (inr h) =
      let all : xs ++ ys ≡ xs = ap (λ l. xs ++ l) h ∙ append-nil xs in
      rw (all, h) (take-min n xs, append-nil (drop (min n (length xs)) xs) ∙ drop-min n xs)

  pub take_add : (n m : ℕ) (xs : List A) → take n xs ++ take m (drop n xs) ≡ take (n + m) xs
  take_add zero m xs = let same : m ≡ 0 + m = omega arith in ap (λ k. take k xs) same
  take_add (suc n) m [] = take_all m [] (omega arith) ∙ sym (take_all (suc n + m) [] (omega arith))
  take_add (suc n) m (x ∷ xs) =
      let same : suc (n + m) ≡ suc n + m = omega arith in
      ap (λ l. x ∷ l) (take_add n m xs) ∙ ap (λ k. take k (x ∷ xs)) same
