-- ===== src/Prelude/Acts.antt =====
-- Code that changes a state and may throw: an act returns, throws, or has not ended, and leaves a
-- state in each case. `Leads P m Q E` is what a proof says of one.
use sync.Errors.{Failure, Result, ok, throw}

pub data Outcome {ℓ} (A : Type ℓ) : Type ℓ where
  finished : A → Outcome A
  threw : Failure → Outcome A
  unfinished : Outcome A

abbrev pub Act : Type 0 → Type 0 → Type 0
Act S A = S → Outcome A × S

module _ {S A : Type 0} where
  abbrev pub pure : A → Act S A
  pure a s = (finished a, s)

  abbrev pub read : (S → A) → Act S A
  read f s = (finished (f s), s)

  abbrev pub raise : Failure → Act S A
  raise e s = (threw e, s)

  abbrev pub wait : Act S A
  wait s = (unfinished, s)

  abbrev pub of_result : Result A → Act S A
  of_result (ok a) s = (finished a, s)
  of_result (throw e) s = (threw e, s)

  -- `try … finally`, for a block at its end that neither throws nor waits.
  abbrev pub finally : Act S A → (S → S) → Act S A
  finally m clean s = let (o, s') = m s in (o, clean s')

abbrev pub change : {S : Type 0} → (S → S) → Act S (Unit {0})
change f s = (finished tt, f s)

abbrev pub and_then : {S A B : Type 0} → (A → Act S B) → Outcome A × S → Outcome B × S
and_then f (finished a, s) = f a s
and_then f (threw e, s) = (threw e, s)
and_then f (unfinished, s) = (unfinished, s)

infixl 5 ◌>>=◌ ◌>>◌
abbrev pub ◌>>=◌ : {S A B : Type 0} → Act S A → (A → Act S B) → Act S B
◌>>=◌ m f s = and_then f (m s)

abbrev pub ◌>>◌ : {S B : Type 0} → Act S (Unit {0}) → Act S B → Act S B
m >> k = m >>= λ _. k

-- `Q` of a result and the state left with it, `E` of the state left otherwise.
abbrev pub Post {ℓ} : {S A : Type 0} → (A → S → Type ℓ) → (S → Type ℓ) → Outcome A × S → Type ℓ
Post Q E (finished a, s) = Q a s
Post Q E (threw e, s) = E s
Post Q E (unfinished, s) = E s

abbrev pub Leads {ℓ} :
    {S A : Type 0} → (S → Type ℓ) → Act S A → (A → S → Type ℓ) → (S → Type ℓ) → Type ℓ
Leads P m Q E = (s : _) → P s → Post Q E (m s)

module _ {ℓ} {S A B : Type 0} (Q : A → S → Type ℓ) (R : B → S → Type ℓ) (E : S → Type ℓ) where
  pub Post-and_then :
      (f : A → Act S B) (o : Outcome A × S)
      → Post Q E o
      → ((a : A) → Leads (Q a) (f a) R E)
      → Post R E (and_then f o)
  Post-and_then f (finished a, s) h k = k a s h
  Post-and_then f (threw e, s) h k = h
  Post-and_then f (unfinished, s) h k = h

  pub Leads-bind :
      (P : S → Type ℓ) (m : Act S A) (f : A → Act S B)
      → Leads P m Q E
      → ((a : A) → Leads (Q a) (f a) R E)
      → Leads P (m >>= f) R E
  Leads-bind P m f h k s p = Post-and_then f (m s) (h s p) k

module _ {ℓ} {S A : Type 0} (Q R : A → S → Type ℓ) (E F : S → Type ℓ) where
  pub Post-weaken :
      (o : Outcome A × S)
      → Post Q E o
      → ((a : A) (s : S) → Q a s → R a s)
      → ((s : S) → E s → F s)
      → Post R F o
  Post-weaken (finished a, s) h f g = f a s h
  Post-weaken (threw e, s) h f g = g s h
  Post-weaken (unfinished, s) h f g = g s h

-- One act after another, whose failures leave `F`.
module _ {ℓ} {S A B : Type 0} (Q : A → S → Type ℓ) (F : S → Type ℓ) (R : B → S → Type ℓ)
    (E : S → Type ℓ) where
  pub Post-step :
      (f : A → Act S B) (o : Outcome A × S)
      → Post Q F o
      → ((s : S) → F s → E s)
      → ((a : A) → Leads (Q a) (f a) R E)
      → Post R E (and_then f o)
  Post-step f (finished a, s) h e k = k a s h
  Post-step f (threw x, s) h e k = e s h
  Post-step f (unfinished, s) h e k = e s h
