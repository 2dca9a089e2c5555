-- ===== src/Tests/Order.antt =====
-- The order of code points, which is the order of the UTF-8 bytes.
use Prim.Native.String.{[], ◌∷◌}
use Prim.Native.Char.{Char, code}
use text.Mathlib.TextEquality.{Char-path}
use sync.Prelude.{
  ℕ, String, Bool, true, false, ◌≡◌, refl, sym, ◌&&◌, ◌||◌, ◌==◌, ltb, arith, nat_eq,
}
use sync.Sync.MergeJoin.Laws.{IsOrder}

unfoldable pub less : String → String → Bool
less [] [] = false
less [] (d ∷ t) = true
less (c ∷ s) [] = false
less (c ∷ s) (d ∷ t) = ltb (code c) (code d) || (code c == code d && less s t)

less-irreflexive : (a : String) → less a a ≡ false
unfolding less
less-irreflexive [] = refl
less-irreflexive (c ∷ s) = ground (arith, less-irreflexive s)

less-transitive : (a b c : String) → less a b ≡ true → less b c ≡ true → less a c ≡ true
unfolding less
less-transitive [] [] c h k = cc
less-transitive [] (b ∷ s) [] h k = cc
less-transitive [] (b ∷ s) (c ∷ t) h k = refl
less-transitive (a ∷ r) [] c h k = cc
less-transitive (a ∷ r) (b ∷ s) [] h k = cc
less-transitive (a ∷ r) (b ∷ s) (c ∷ t) h k = ground (arith, less-transitive r s t)

same_code :
    (c d : Char) → ltb (code c) (code d) ≡ false → ltb (code d) (code c) ≡ false → code c ≡ code d
same_code c d h k = ground arith

rest_not : (m n : ℕ) (b : Bool) → m ≡ n → (ltb m n || (m == n && b)) ≡ false → b ≡ false
unfolding nat_eq
rest_not m n b e h = ground arith

head_not : (x y : Bool) → (x || y) ≡ false → x ≡ false
head_not x y h = ground arith

less-total : (a b : String) → less a b ≡ false → less b a ≡ false → a ≡ b
unfolding less
less-total [] [] h k = refl
less-total [] (b ∷ s) h k = cc
less-total (a ∷ r) [] h k = cc
less-total (a ∷ r) (b ∷ s) h k =
    let e : code a ≡ code b = same_code a b (head_not _ _ h) (head_not _ _ k) in
    let q : r ≡ s = less-total r s (rest_not _ _ _ e h) (rest_not _ _ _ (sym e) k) in
    let p : a ≡ b = Char-path a b e in cc (p, q)

pub less-IsOrder : IsOrder less
less-IsOrder = record {
  irreflexive = less-irreflexive;
  transitive = less-transitive;
  total = less-total;
}
