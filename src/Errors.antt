-- ===== src/Errors.antt =====
-- errors.ts and the error classes declared beside their operations (S3UploadFatalError,
-- MirrorRequiredError, CasConflictError, RemoteDivergedError). A function that may throw returns a
-- `Result`.
use sync.Prelude.{String, List, ◌≡◌, refl, Bool, true, false, if◌then◌else◌}

pub data Failure : Type 0 where
  corruption : String → Failure
  invalid : String → Failure
  vault_locked : String → Failure
  cas_conflict : Failure
  remote_diverged : Failure
  too_many_commits : Failure
  crypto_auth : Failure
  aborted : Failure
  mirror_required : List String → String → Failure
  s3_upload_fatal : List String → String → Failure
  transport : String → Failure

pub data Result {ℓ} (A : Type ℓ) : Type ℓ where
  ok : A → Result A
  throw : Failure → Result A

infixl 5 ◌>>=◌ ◌>>◌
abbrev pub ◌>>=◌ {ℓ κ} : {A : Type ℓ} {B : Type κ} → Result A → (A → Result B) → Result B
ok a >>= f = f a
throw e >>= f = throw e

abbrev pub ◌>>◌ {ℓ} : {B : Type ℓ} → Result (Unit {0}) → Result B → Result B
m >> k = m >>= λ _. k

pub ok-injective {ℓ} : {A : Type ℓ} {a b : A} → ok a ≡ ok b → a ≡ b
ok-injective e = cc

-- A chain that returns has a first part that returns.
pub bind-ok {ℓ} :
    {A B : Type ℓ} (m : Result A) (f : A → Result B) (b : B)
    → (m >>= f) ≡ ok b
    → (a : A) × (m ≡ ok a) × (f a ≡ ok b)
bind-ok (ok a) f b h = (a, refl, h)
bind-ok (throw e) f b h = absurd (cc h)

-- Behind a guard that throws, a result means that the guard did not hold.
pub guard-ok {ℓ} :
    {A : Type ℓ} (guard : Bool) (e : Failure) (m : Result A) (a : A)
    → (if guard then throw e else m) ≡ ok a
    → (guard ≡ false) × (m ≡ ok a)
guard-ok true e m a h = absurd (cc h)
guard-ok false e m a h = (refl, h)

pub bind_assoc {ℓ} :
    {A B C : Type ℓ} (m : Result A) (f : A → Result B) (g : B → Result C)
    → ((m >>= f) >>= g) ≡ (m >>= λ a. f a >>= g)
bind_assoc (ok a) f g = refl
bind_assoc (throw e) f g = refl
