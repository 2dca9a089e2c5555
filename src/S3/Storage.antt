-- ===== src/S3/Storage.antt =====
-- Storage classes: src/s3/archive-status.ts, src/s3/policy-evaluation.ts and
-- src/s3/storage-class-actions.ts. minimatch and the reading of a `Restore` header (a regular
-- expression and `Date`) are parameters; times are milliseconds.
pub mod Laws
use sync.Prelude.{
  ℕ, String, Bool, true, false, not, Option, none, some, List, [], ◌∷◌, map, ◌==◌, ltb,
  if◌then◌else◌, string_eq, nat_eq,
}
use sync.Errors.{Result, ok, throw, invalid}
use sync.Fs.GlobMatch.{matches_any_glob}

pub data SupportedStorageClass : Type 0 where
  standard glacier deep_archive : SupportedStorageClass

-- `COLDNESS_ORDER`
abbrev pub coldness_order : SupportedStorageClass → ℕ
coldness_order standard = 0
coldness_order glacier = 1
coldness_order deep_archive = 2

unfoldable pub is_colder_target : SupportedStorageClass → SupportedStorageClass → Bool
is_colder_target current target = ltb (coldness_order current) (coldness_order target)

pub data ArchiveStatus : Type 0 where
  immediate needs_restore_request restore_ongoing restore_ready restore_expired_needs_reissue :
      ArchiveStatus

-- `ParsedRestoreHeader`
pub record ParsedRestoreHeader : Type 0 where
  pub ongoing : Bool
  pub expiry_date : Option ℕ

abbrev cold_class : Option String → Bool
cold_class none = false
cold_class (some name) = if name == "GLACIER" then true else name == "DEEP_ARCHIVE"

unfoldable pub restored_status : ParsedRestoreHeader → ℕ → ArchiveStatus
restored_status parsed now = if parsed.ongoing then restore_ongoing else elim parsed.expiry_date [
  | none ↦ restore_expired_needs_reissue
  | some expiry ↦ if ltb now expiry then restore_ready else restore_expired_needs_reissue
]

unfoldable pub cold_status : (String → ParsedRestoreHeader) → Option String → ℕ → ArchiveStatus
unfolding restored_status
cold_status parse_restore_header none now = needs_restore_request
cold_status parse_restore_header (some restore) now =
    if restore == ""
    then needs_restore_request
    else restored_status (parse_restore_header restore) now

-- A HEAD's `storageClass` and `restore`; with no class the object is a standard one.
unfoldable pub classify_archive_status :
    (String → ParsedRestoreHeader) → Option String → Option String → ℕ → ArchiveStatus
unfolding cold_status
classify_archive_status parse_restore_header storage_class restore now =
    if cold_class storage_class then cold_status parse_restore_header restore now else immediate

pub record StoragePolicyRow : Type 0 where
  pub glob : Option String
  pub target_class : SupportedStorageClass

pub record HashPolicyEvaluation : Type 0 where
  pub target_class : SupportedStorageClass
  pub conflicted : Bool

unfoldable pub warmer_of : SupportedStorageClass → SupportedStorageClass → SupportedStorageClass
warmer_of target warmest =
    if ltb (coldness_order target) (coldness_order warmest) then target else warmest

unfoldable pub warmest_of :
    SupportedStorageClass → List SupportedStorageClass → SupportedStorageClass
unfolding warmer_of
warmest_of warmest [] = warmest
warmest_of warmest (target ∷ targets) = warmest_of (warmer_of target warmest) targets

unfoldable pub some_differ : SupportedStorageClass → List SupportedStorageClass → Bool
some_differ warmest [] = false
some_differ warmest (target ∷ targets) =
    if coldness_order target == coldness_order warmest then some_differ warmest targets else true

module _ (matches : String → String → Bool) where
  abbrev policy_matches : String → Option String → Bool
  policy_matches path none = false
  policy_matches path (some glob) = elim (matches_any_glob matches path (glob ∷ [])) [
    | none ↦ false
    | some _ ↦ true
  ]

  unfoldable pub evaluate_path_target_class :
      String → List StoragePolicyRow → StoragePolicyRow → SupportedStorageClass
  evaluate_path_target_class path [] default_policy = default_policy.target_class
  evaluate_path_target_class path (policy ∷ policies) default_policy =
      if policy_matches path policy.glob
      then policy.target_class
      else evaluate_path_target_class path policies default_policy

  unfoldable pub resolve_hash_target_class :
      List String → List StoragePolicyRow → StoragePolicyRow → Result HashPolicyEvaluation
  unfolding evaluate_path_target_class warmest_of some_differ
  resolve_hash_target_class [] policies default_policy = throw (invalid "paths")
  resolve_hash_target_class (p ∷ paths) policies default_policy =
      let per_path_targets =
        map (λ path. evaluate_path_target_class path policies default_policy) (p ∷ paths) in
      let warmest =
        warmest_of (evaluate_path_target_class p policies default_policy) per_path_targets in
      ok (record { target_class = warmest; conflicted = some_differ warmest per_path_targets })

pub data StorageClassAction : Type 0 where
  already_correct immediate_copy request_restore wait_for_restore finalize_copy : StorageClassAction

abbrev pub warmer_action : ArchiveStatus → StorageClassAction
warmer_action immediate = already_correct
warmer_action needs_restore_request = request_restore
warmer_action restore_expired_needs_reissue = request_restore
warmer_action restore_ongoing = wait_for_restore
warmer_action restore_ready = finalize_copy

-- Two classes are the same just when they are equally cold.
unfoldable pub decide_storage_class_action :
    SupportedStorageClass → SupportedStorageClass → ArchiveStatus → StorageClassAction
unfolding is_colder_target
decide_storage_class_action current_class target_class archive_status =
    if coldness_order current_class == coldness_order target_class
    then already_correct
    else if is_colder_target current_class target_class
    then immediate_copy
    else warmer_action archive_status
