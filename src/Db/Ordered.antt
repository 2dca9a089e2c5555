-- ===== src/Db/Ordered.antt =====
-- `SELECT … ORDER BY key`: the rows of a table in the order of their keys. Of two rows with one key,
-- which a table does not have, the first stays.
use mathlib.Core.Path.{subst}
use sync.Prelude.{
  String, Bool, true, false, some, List, [], ◌∷◌, ◌≡◌, refl, sym, ◌∙◌, arith, inl, inr, Bool-cases,
  All, ◌==◌, if◌then◌else◌, string_eq,
}
use sync.Prelude.Table
use sync.Sync.MergeJoin.Laws.{IsOrder}

module _ {R : Type 0} (key : R → String) (lt : String → String → Bool) where
  unfoldable pub place : R → List R → List R
  place r [] = r ∷ []
  place r (x ∷ rows) =
      let rest = place r rows in
      if lt (key r) (key x) then r ∷ x ∷ rows else if lt (key x) (key r) then x ∷ rest else r ∷ rows

  unfoldable pub order_by : List R → List R
  order_by [] = []
  order_by (r ∷ rows) = place r (order_by rows)

  abbrev pub Sorted : List R → Type 0
  Sorted [] = Unit
  Sorted (r ∷ rows) = All (λ d. lt (key r) (key d) ≡ true) rows × Sorted rows

  module _ (o : IsOrder lt) where
    All-below :
        (p q : String) (rows : List R)
        → lt p q ≡ true
        → All (λ d. lt q (key d) ≡ true) rows
        → All (λ d. lt p (key d) ≡ true) rows
    All-below p q [] h k = tt
    All-below p q (r ∷ rows) h k = (o.transitive p q (key r) h k.0, All-below p q rows h k.1)

    All-place :
        (p : String) (r : R) (rows : List R)
        → lt p (key r) ≡ true
        → All (λ d. lt p (key d) ≡ true) rows
        → All (λ d. lt p (key d) ≡ true) (place r rows)
    unfolding place
    All-place p r [] h k = (h, tt)
    All-place p r (x ∷ rows) h k = ground (arith, All-place p r rows h)

    same_key : (r x : R) → lt (key r) (key x) ≡ false → lt (key x) (key r) ≡ false → key r ≡ key x
    same_key r x h k = o.total (key r) (key x) h k

    place-Sorted : (r : R) (rows : List R) → Sorted rows → Sorted (place r rows)
    unfolding place
    place-Sorted r [] s = (tt, tt)
    place-Sorted r (x ∷ rows) s = elim (Bool-cases (lt (key r) (key x))) [
      | inl h ↦ rw h ((h, All-below (key r) (key x) rows h s.0), s)
      | inr h ↦ elim (Bool-cases (lt (key x) (key r))) [
        | inl k ↦ rw (h, k) (All-place (key x) r rows k s.0, place-Sorted r rows s.1)
        | inr k ↦
            let e = same_key r x h k in
            rw (h, k) (subst (λ q. All (λ d. lt q (key d) ≡ true) rows) (sym e) s.0, s.1)
      ]
    ]

    pub order_by-Sorted : (rows : List R) → Sorted (order_by rows)
    unfolding order_by
    order_by-Sorted [] = tt
    order_by-Sorted (r ∷ rows) = place-Sorted r (order_by rows) (order_by-Sorted rows)

    not_self : (a b : String) → lt a b ≡ true → (b == a) ≡ false
    not_self a b h = let no = o.irreflexive a in ground arith

    find-place :
        (p : String) (r : R) (rows : List R)
        → Table.find key p (place r rows) ≡ (if key r == p then some r else Table.find key p rows)
    unfolding place Table.find
    find-place p r [] = refl
    find-place p r (x ∷ rows) = elim (Bool-cases (lt (key r) (key x))) [
      | inl h ↦ rw h refl
      | inr h ↦ elim (Bool-cases (lt (key x) (key r))) [
        | inl k ↦
            let ih = find-place p r rows in
            let no = not_self (key x) (key r) k in rw (h, k) (ground (arith, ih, no))
        | inr k ↦ let e = same_key r x h k in rw (h, k) (ground arith)
      ]
    ]

    pub find-order_by :
        (p : String) (rows : List R) → Table.find key p (order_by rows) ≡ Table.find key p rows
    unfolding order_by Table.find
    find-order_by p [] = refl
    find-order_by p (r ∷ rows) = find-place p r (order_by rows) ∙ rw (find-order_by p rows)
