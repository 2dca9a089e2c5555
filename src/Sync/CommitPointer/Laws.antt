-- ===== src/Sync/CommitPointer/Laws.antt =====
-- The commit happens at most once, and is reported only if it happened.
use mathlib.Core.Option.{some-injective}
use sync.Prelude.{
  ℕ, zero, suc, ◌≤◌, String, Bool, true, false, ◌&&◌, Option, none, some, List, [], ◌∷◌, ◌≡◌, ◌≢◌,
  refl, sym, ◌∙◌, arith, ◌==◌, string_eq, option_eq, All,
}
use sync.S3.Retry.{ErrorChain, Attempted, returned, rejected, resolved}
use sync.S3.Retry.Laws.{retry_inv}
use sync.Sync.CommitPointer.{
  PointerStore, Turn, World, rivals, read_back, handle, reply, put_cas, attempt_commit,
  commit_current_pointer,
}

-- Other machines commit neither the base version nor this run's stamp: version stamps are fresh.
abbrev pub IsForeign : String → String → List String → Type 0
IsForeign base stamp = All (λ v. (v ≢ base) × (v ≢ stamp))

abbrev pub Foreign : String → String → (ℕ → Turn) → Type 0
Foreign base stamp env =
    (n : ℕ) → IsForeign base stamp (env n).before × IsForeign base stamp (env n).between

module _ (B : PointerStore) (base stamp if_match : String) where
  -- Before the commit the pointer is not ours; after it the base is gone for good.
  abbrev pub Committed : ℕ → B.State → Type 0
  Committed zero s = B.body s ≢ some stamp
  Committed (suc zero) s = B.body s ≢ some base
  Committed _ s = ⊥

  at_most_one : (landed : ℕ) (s : B.State) → Committed landed s → landed ≤ 1
  at_most_one zero s h = omega arith
  at_most_one (suc zero) s h = omega arith
  at_most_one (suc (suc n)) s h = absurd h

  rivals-Committed :
      (commits : List String) (landed : ℕ) (s : B.State)
      → IsForeign base stamp commits
      → Committed landed s
      → Committed landed (rivals B commits s)
  rivals-Committed [] landed s foreign h = h
  rivals-Committed (v ∷ commits) zero s ((_, not_stamp), foreign) h =
      rivals-Committed commits zero (B.put s v) foreign
        (λ e. not_stamp (some-injective v stamp (sym (B.body-put s v) ∙ e)))
  rivals-Committed (v ∷ commits) (suc zero) s ((not_base, _), foreign) h =
      rivals-Committed commits 1 (B.put s v) foreign
        (λ e. not_base (some-injective v base (sym (B.body-put s v) ∙ e)))
  rivals-Committed (v ∷ commits) (suc (suc n)) s f h = absurd h

  module _ (start : B.State) (at_base : B.body start ≡ some base)
      (tagged : B.etag start ≡ some if_match) (fresh : stamp ≢ base) where
    put_cas-Committed :
        (hit : Bool) (landed : ℕ) (s : B.State)
        → (hit ≡ true → B.etag s ≡ some if_match)
        → Committed landed s
        → Committed (put_cas B stamp hit s landed).landed (put_cas B stamp hit s landed).state
    unfolding put_cas
    put_cas-Committed false landed s accepted h = h
    put_cas-Committed true zero s accepted h =
        λ e. fresh (some-injective stamp base (sym (B.body-put s stamp) ∙ e))
    put_cas-Committed true (suc zero) s accepted h =
        absurd (h (B.body_of_etag s start if_match (accepted refl) tagged ∙ at_base))
    put_cas-Committed true (suc (suc n)) s accepted h = absurd h

    accepted-etag :
        (s : B.State) (reaches : Bool)
        → (reaches && (B.etag s == some if_match)) ≡ true
        → B.etag s ≡ some if_match
    accepted-etag s reaches h = ground arith

    handle-Committed :
        (turn : Turn) (r : Attempted (Unit {0})) (w : World B)
        → IsForeign base stamp turn.between
        → Committed w.landed w.state
        → let out = handle B stamp turn r w in Committed out.1.landed out.1.state
    unfolding handle
    handle-Committed turn (returned a) w foreign h = h
    handle-Committed turn (rejected e) w foreign h =
        rivals-Committed turn.between w.landed w.state foreign h

    -- An attempt returns only once the PUT has taken effect.
    landed_once :
        (landed : ℕ) (s : B.State) → Committed landed s → B.body s ≡ some stamp → landed ≡ 1
    landed_once zero s h e = absurd (h e)
    landed_once (suc zero) s h e = refl
    landed_once (suc (suc n)) s h e = absurd h

    read_back-returned :
        (read_error : Option ErrorChain) (e : ErrorChain) (s : B.State)
        → read_back B stamp read_error e s ≡ returned tt
        → B.body s ≡ some stamp
    unfolding read_back
    read_back-returned (some r) e s h = cc
    read_back-returned none e s h = ground arith

    handle-returned :
        (turn : Turn) (r : Attempted (Unit {0})) (w : World B)
        → IsForeign base stamp turn.between
        → Committed w.landed w.state
        → (r ≡ returned tt → w.landed ≡ 1)
        → (handle B stamp turn r w).0 ≡ returned tt
        → w.landed ≡ 1
    unfolding handle
    handle-returned turn (returned a) w foreign h direct e = direct (ground arith)
    handle-returned turn (rejected e) w foreign h direct q =
        landed_once w.landed (rivals B turn.between w.state)
          (rivals-Committed turn.between w.landed w.state foreign h)
          (read_back-returned turn.read_error e (rivals B turn.between w.state) q)

    reply_accepts :
        (turn : Turn) (accepted : Bool)
        → reply B turn accepted ≡ returned tt
        → (turn.reaches && accepted) ≡ true
    unfolding reply
    reply_accepts turn accepted e = ground arith

    -- What the reply says is what happened.
    hit-landed :
        (hit : Bool) (s : B.State) (landed : ℕ)
        → Committed landed s
        → (hit ≡ true → B.etag s ≡ some if_match)
        → hit ≡ true
        → (put_cas B stamp hit s landed).landed ≡ 1
    unfolding put_cas
    hit-landed false s landed h accepted e = cc
    hit-landed true s zero h accepted e = refl
    hit-landed true s (suc zero) h accepted e =
        absurd (h (B.body_of_etag s start if_match (accepted refl) tagged ∙ at_base))
    hit-landed true s (suc (suc n)) h accepted e = absurd h

    handle-landed :
        (turn : Turn) (r : Attempted (Unit {0})) (w : World B)
        → (handle B stamp turn r w).1.landed ≡ w.landed
    unfolding handle
    handle-landed turn (returned a) w = refl
    handle-landed turn (rejected e) w = refl

    attempt-Committed :
        (env : ℕ → Turn)
        → Foreign base stamp env
        → (n : ℕ) (w : World B) → Committed w.landed w.state
        → let out = attempt_commit B stamp if_match env n w in
          Committed out.1.landed out.1.state
          × ((a : Unit {0}) → out.0 ≡ returned a → out.1.landed ≡ 1)
    unfolding attempt_commit
    attempt-Committed env foreign n w h =
        let turn = env n in
        let s = rivals B turn.before w.state in
        let accepted = B.etag s == some if_match in
        let hit = turn.reaches && accepted in
        let etag = accepted-etag s turn.reaches in
        let before = rivals-Committed turn.before w.landed w.state (foreign n).0 h in
        let after = put_cas-Committed hit w.landed s etag before in
        let w' = put_cas B stamp hit s w.landed in
        (
          handle-Committed turn (reply B turn accepted) w' (foreign n).1 after,
          λ a e.
              handle-landed turn (reply B turn accepted) w'
              ∙ handle-returned turn (reply B turn accepted) w' (foreign n).1 after
                  (λ r. hit-landed hit s w.landed before etag (reply_accepts turn accepted r)) e,
        )

-- From the version that the run started from, with version stamps that no other commit uses, this run's PUT
-- takes effect at most once, however the requests and replies of the attempts are lost; and when the
-- commit is reported as done, it took effect exactly once.
pub commit_at_most_once :
    (B : PointerStore) (base stamp if_match : String) (start : B.State) (env : ℕ → Turn) (fuel : ℕ)
    → B.body start ≡ some base
    → B.etag start ≡ some if_match
    → stamp ≢ base
    → Foreign base stamp env
    → let out =
        commit_current_pointer B stamp if_match env fuel (record { state = start; landed = 0 }) in
      (out.1.landed ≤ 1) × (out.0 ≡ resolved tt → out.1.landed ≡ 1)
unfolding commit_current_pointer
commit_at_most_once B base stamp if_match start env fuel at_base tagged fresh foreign =
    let (kept, done) =
      retry_inv (λ _. false) (attempt_commit B stamp if_match env)
        (λ (w : World B). Committed B base stamp if_match w.landed w.state)
        (λ a (w : World B). w.landed ≡ 1)
        (attempt-Committed B base stamp if_match start at_base tagged fresh env foreign) fuel 1
        (record { state = start; landed = 0 })
        (λ e. fresh (some-injective stamp base (sym e ∙ at_base))) in
    (at_most_one B base stamp if_match _ _ kept, done tt)
