-- ===== src/S3/Storage/Laws.antt =====
-- The warmest class wins, and when an object is copied.
use sync.Prelude.{
  ℕ, ◌≤◌, ◌<◌, String, Bool, true, false, Option, none, some, ◌==◌, List, [], ◌∷◌, ◌≡◌, sym, ◌∙◌,
  ◌↔◌, ◌≢◌, ◌⊎◌, inl, inr, refl, map, All, contains, ltb, arith, string_eq, nat_eq, Bool-cases,
}
use sync.Errors.{ok}
use sync.S3.Storage.{
  SupportedStorageClass, coldness_order, ArchiveStatus, standard, glacier, deep_archive,
  already_correct, ParsedRestoreHeader, classify_archive_status, cold_status, restored_status,
  immediate, needs_restore_request, restore_ongoing, restore_ready, restore_expired_needs_reissue,
  StoragePolicyRow, evaluate_path_target_class, HashPolicyEvaluation, warmer_of, warmest_of,
  some_differ, resolve_hash_target_class, finalize_copy, warmer_action, decide_storage_class_action,
}

-- A HEAD request reports a class: by its name, or by none for a standard object.
abbrev pub Reports : SupportedStorageClass → Option String → Type 0
Reports standard name = (name ≡ none) ⊎ (name ≡ some "STANDARD")
Reports glacier name = name ≡ some "GLACIER"
Reports deep_archive name = name ≡ some "DEEP_ARCHIVE"

-- The header of a restored copy that is there until an expiry to come.
abbrev pub IsRestored : (String → ParsedRestoreHeader) → Option String → ℕ → Type 0
IsRestored parse restore now =
    (header : String) × (expiry : ℕ) × (restore ≡ some header)
    × ((header == "") ≡ false)
    × ((parse header).ongoing ≡ false)
    × ((parse header).expiry_date ≡ some expiry)
    × (now < expiry)

warmer-finalize :
    (status : ArchiveStatus) → (warmer_action status ≡ finalize_copy) ↔ (status ≡ restore_ready)
warmer-finalize immediate = (λ h. cc, λ h. cc)
warmer-finalize needs_restore_request = (λ h. cc, λ h. cc)
warmer-finalize restore_ongoing = (λ h. cc, λ h. cc)
warmer-finalize restore_ready = (λ h. refl, λ h. refl)
warmer-finalize restore_expired_needs_reissue = (λ h. cc, λ h. cc)

warmer_correct :
    (status : ArchiveStatus) → (warmer_action status ≡ already_correct) ↔ (status ≡ immediate)
warmer_correct immediate = (λ h. refl, λ h. refl)
warmer_correct needs_restore_request = (λ h. cc, λ h. cc)
warmer_correct restore_ongoing = (λ h. cc, λ h. cc)
warmer_correct restore_ready = (λ h. cc, λ h. cc)
warmer_correct restore_expired_needs_reissue = (λ h. cc, λ h. cc)

cold_status-ready :
    (parse : String → ParsedRestoreHeader) (restore : Option String) (now : ℕ)
    → (cold_status parse restore now ≡ restore_ready) ↔ IsRestored parse restore now
unfolding cold_status restored_status
cold_status-ready parse none now = (λ h. cc, λ (header, expiry, at, given, quiet, until, later). cc)
cold_status-ready parse (some header) now = ground arith

cold_status-cold :
    (parse : String → ParsedRestoreHeader) (restore : Option String) (now : ℕ)
    → cold_status parse restore now ≢ immediate
unfolding cold_status restored_status
cold_status-cold parse none now h = cc
cold_status-cold parse (some header) now h = ground arith

-- The status of an object that is not a standard one is read off its header.
status_of :
    (parse : String → ParsedRestoreHeader) (current : SupportedStorageClass)
    (name restore : Option String) (now : ℕ)
    → Reports current name
    → 0 < coldness_order current
    → classify_archive_status parse name restore now ≡ cold_status parse restore now
unfolding classify_archive_status string_eq
status_of parse standard name restore now is h = absurd (omega (arith, h))
status_of parse glacier name restore now is h = rw is refl
status_of parse deep_archive name restore now is h = rw is refl

coldness_order-injective :
    (t w : SupportedStorageClass) → coldness_order t ≡ coldness_order w → t ≡ w
coldness_order-injective t w h = ground arith

decided :
    (current target : SupportedStorageClass) (status : ArchiveStatus)
    → (0 < coldness_order current → status ≢ immediate)
    → ((decide_storage_class_action current target status ≡ already_correct) ↔ (current ≡ target))
      × ((decide_storage_class_action current target status ≡ finalize_copy)
          ↔ ((coldness_order target < coldness_order current) × (status ≡ restore_ready)))
unfolding decide_storage_class_action
decided current target status cold =
    ground (
      arith,
      warmer-finalize status,
      warmer_correct status,
      coldness_order-injective current target,
    )

-- An object with a class that a HEAD reports is taken for correct exactly if the class is its target,
-- so that no other object is passed over; and it is copied back from the archive exactly if the target
-- is warmer and the header names a restored copy that has not expired.
pub acts_until_correct :
    (parse : String → ParsedRestoreHeader) (current target : SupportedStorageClass)
    (name restore : Option String) (now : ℕ)
    → Reports current name
    → let action =
        decide_storage_class_action current target
          (classify_archive_status parse name restore now) in
      ((action ≡ already_correct) ↔ (current ≡ target))
      × ((action ≡ finalize_copy)
          ↔ ((coldness_order target < coldness_order current) × IsRestored parse restore now))
acts_until_correct parse current target name restore now is =
    let status = classify_archive_status parse name restore now in
    let read = λ (h : 0 < coldness_order current). status_of parse current name restore now is h in
    let (correct, finalize) =
      decided current target status
        (λ h e. cold_status-cold parse restore now (sym (read h) ∙ e)) in
    let ready = cold_status-ready parse restore now in
    (
      correct,
      (
        λ h.
            let (warmer, e) = finalize.0 h in
            (warmer, ready.0 (sym (read (omega (arith, warmer))) ∙ e)),
        λ (warmer, restored). finalize.1 (warmer, read (omega (arith, warmer)) ∙ ready.1 restored),
      ),
    )

warmer_of_least :
    (t w : SupportedStorageClass)
    → (coldness_order (warmer_of t w) ≤ coldness_order w)
      × (coldness_order (warmer_of t w) ≤ coldness_order t)
unfolding warmer_of
warmer_of_least t w = ground arith

le_trans : (a b c : ℕ) → a ≤ b → b ≤ c → a ≤ c
le_trans a b c h k = omega arith

-- The class is no colder than that of any path.
warmest_of_least :
    (warmest : SupportedStorageClass) (targets : List SupportedStorageClass)
    → (coldness_order (warmest_of warmest targets) ≤ coldness_order warmest)
      × All (λ t. coldness_order (warmest_of warmest targets) ≤ coldness_order t) targets
unfolding warmest_of
warmest_of_least warmest [] = (omega arith, tt)
warmest_of_least warmest (t ∷ targets) =
    let (least, all) = warmest_of_least (warmer_of t warmest) targets in
    let (below, below_t) = warmer_of_least t warmest in
    (le_trans _ _ _ least below, (le_trans _ _ _ least below_t, all))

-- What holds of the first class and of each path's holds of the warmest.
warmest_of_kept :
    (P : SupportedStorageClass → Type 0) (warmest : SupportedStorageClass)
    (targets : List SupportedStorageClass)
    → P warmest
    → All P targets
    → P (warmest_of warmest targets)
unfolding warmest_of
warmest_of_kept P warmest [] h all = h
warmest_of_kept P warmest (t ∷ targets) h (ht, all) =
    warmest_of_kept P (warmer_of t warmest) targets (either (Bool-cases _)) all
  where
    either :
        (ltb (coldness_order t) (coldness_order warmest) ≡ true)
          ⊎ (ltb (coldness_order t) (coldness_order warmest) ≡ false)
        → P (warmer_of t warmest)
    either (inl e) = unfold warmer_of in rw e ht
    either (inr e) = unfold warmer_of in rw e h

weaken :
    (x : String) (all paths : List String)
    → All (λ path. contains path all ≡ true) paths
    → All (λ path. contains path (x ∷ all) ≡ true) paths
weaken x all [] h = tt
weaken x all (y ∷ paths) (h, hs) = (ground arith, weaken x all paths hs)

self_contained : (paths : List String) → All (λ path. contains path paths ≡ true) paths
self_contained [] = tt
self_contained (x ∷ paths) = (ground arith, weaken x paths paths (self_contained paths))

some_differ-false :
    (w : SupportedStorageClass) (targets : List SupportedStorageClass)
    → (some_differ w targets ≡ false) ↔ All (λ t. t ≡ w) targets
unfolding some_differ nat_eq
some_differ-false w [] = (λ h. tt, λ h. refl)
some_differ-false w (t ∷ targets) =
    ground (arith, some_differ-false w targets, coldness_order-injective t w)

module _ (f : String → SupportedStorageClass) where
  All-of_map :
      (P : SupportedStorageClass → Type 0) (paths : List String)
      → All P (map f paths)
      → All (λ path. P (f path)) paths
  All-of_map P [] all = tt
  All-of_map P (x ∷ paths) (h, all) = (h, All-of_map P paths all)

  map-of_All :
      (P : SupportedStorageClass → Type 0) (paths : List String)
      → All (λ path. P (f path)) paths
      → All P (map f paths)
  map-of_All P [] all = tt
  map-of_All P (x ∷ paths) (h, all) = (h, map-of_All P paths all)

  IsTarget : List String → SupportedStorageClass → Type 0
  IsTarget paths t = (path : String) × (contains path paths ≡ true) × (f path ≡ t)

  each_IsTarget :
      (all paths : List String)
      → All (λ path. contains path all ≡ true) paths
      → All (IsTarget all) (map f paths)
  unfolding IsTarget
  each_IsTarget all [] h = tt
  each_IsTarget all (x ∷ paths) (h, hs) = ((x, h, refl), each_IsTarget all paths hs)

-- Of the classes that the policies give to an object's paths, the warmest is chosen: it is no colder
-- than that of any path, it is that of some path, and a conflict is reported exactly if the paths do
-- not all have it. With at least one path there is an answer.
pub resolve_warmest :
    (matches : String → String → Bool) (p : String) (paths : List String)
    (policies : List StoragePolicyRow) (default_policy : StoragePolicyRow)
    → let target =
        λ (path : String). evaluate_path_target_class matches path policies default_policy in
      (r : HashPolicyEvaluation) × (resolve_hash_target_class matches
          (p ∷ paths)
          policies
          default_policy
        ≡ ok r)
      × All (λ path. coldness_order r.target_class ≤ coldness_order (target path)) (p ∷ paths)
      × ((path : String) × (contains path (p ∷ paths) ≡ true) × (target path ≡ r.target_class))
      × ((r.conflicted ≡ false) ↔ All (λ path. target path ≡ r.target_class) (p ∷ paths))
unfolding resolve_hash_target_class IsTarget
resolve_warmest matches p paths policies default_policy =
    let target =
      λ (path : String). evaluate_path_target_class matches path policies default_policy in
    let w = warmest_of (target p) (map target (p ∷ paths)) in
    let members = self_contained (p ∷ paths) in
    (
      record { target_class = w; conflicted = some_differ w (map target (p ∷ paths)) },
      refl,
      All-of_map target (λ t. coldness_order w ≤ coldness_order t) (p ∷ paths)
          (warmest_of_least (target p) (map target (p ∷ paths))).1,
      warmest_of_kept (IsTarget target (p ∷ paths)) (target p) (map target (p ∷ paths))
          (p, members.0, refl) (each_IsTarget target (p ∷ paths) (p ∷ paths) members),
      (
        λ h.
            All-of_map target (λ t. t ≡ w) (p ∷ paths)
              ((some_differ-false w (map target (p ∷ paths))).0 h),
        λ h.
            (some_differ-false w (map target (p ∷ paths))).1
              (map-of_All target (λ t. t ≡ w) (p ∷ paths) h),
      ),
    )
