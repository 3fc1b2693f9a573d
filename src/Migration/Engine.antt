-- ===== src/Migration/Engine.antt =====
-- `execute_migration_with_cancel` of crates/core-profiles/src/migration.rs.
pub mod Execute
pub mod Kept
pub mod Clean
pub mod Selected
pub mod Receipt
use win_profile.Base.{
  ℕ, Bool, true, false, not, List, [], ◌∷◌, ◌++◌, Option, none, some, Result, ok, err, Program,
  pure, raise, lift, map_err, ◌>>=◌, ◌>>◌, with_error, raise_if, Text, codes, split, decimal,
  is_empty, if◌then◌else◌,
}
use win_profile.Audit.Event.{Event, AuditStatus, success, warning, failed, rolled_back}
use win_profile.Profiles.Models.{MigrationPlan, appdata_roaming_rel_path}
use win_profile.Migration.Errors.{
  SecureFsError, not_found, MigrationError, invalid_plan, rollback_failed, audit, map_secure_error,
}
use win_profile.Migration.Transaction.{
  CopyTransaction, MigrationReceipt, receipt, completed_files, copied_bytes, rollback,
}
use win_profile.Migration.Copy.{
  Source, Target, MigrationProgress, MigrationPhase, enumerating, finalizing, rolling_back, Copying,
  on_state, change, report, created_entry, created_if_any, check_cancelled, copy_tree_verified,
}
use win_profile.Migration.Validation.{ValidatedMigration}

abbrev pub personal_folders : List Text
personal_folders =
    codes "Documents"
    ∷ codes "Desktop"
    ∷ codes "Downloads"
    ∷ codes "Favorites"
    ∷ codes "Pictures"
    ∷ []

-- The folders that a plan selects.
unfoldable pub roots_of : MigrationPlan → List Text
roots_of plan =
    (if plan.include_roaming_appdata then appdata_roaming_rel_path ∷ [] else [])
    ++ (if plan.include_personal_folders then personal_folders else [])

-- What the engine calls besides the target. `find_child` opens a named child of a source directory;
-- `as_bytes` are the bytes of a text.
pub record Host (S : Type 0) (D : Type 0) : Type 0 where
  pub find_child : Source → Text → Result SecureFsError Source
  pub overlaps : Source → D → Bool
  pub as_bytes : Text → List ℕ
  pub secure_text : SecureFsError → Text
  pub error_text : MigrationError → Text
  pub acquire_operation_guard : Program S Text (Unit {0})
  pub release_operation_guard : S → S
  pub log : Event → Program S Text (Unit {0})

abbrev pub event : MigrationPlan → Text → AuditStatus → Text → Event
event plan operation status details = record {
  operation = operation;
  actor = codes "WinProfile-Admin";
  target = plan.source_sid;
  status = status;
  details = details;
}

abbrev pub empty_transaction : {E : Type 0} → CopyTransaction E
empty_transaction = record {
  created_entries = [];
  manifest = [];
  observed_copied_bytes = 0;
  last_relative_path = none;
}

module _ {S : Type 0} (T : Target S) (H : Host S T.Directory) where
  open T use {Directory, Created}

  -- The directory at the components, `none` if one of them is not there.
  unfoldable pub open_components : Source → List Text → Result MigrationError (Option Source)
  unfolding map_secure_error
  open_components source [] = ok (some source)
  open_components source (name ∷ names) = elim (H.find_child source name) [
    | ok next ↦ open_components next names
    | err (not_found path) ↦ ok none
    | err error ↦ err (map_secure_error error)
  ]

  unfoldable pub open_relative_directory_if_present :
      Source → Text → Result MigrationError (Option Source)
  unfolding open_components split
  open_relative_directory_if_present root relative = open_components root (split b'\\' relative)

  unfoldable pub ensure_components : Directory → List Text → Copying T Directory
  unfolding map_secure_error
  ensure_components directory [] = pure directory
  ensure_components directory (name ∷ names) = do
    next ← on_state T map_secure_error (T.open_or_create_directory directory name)
    change T (created_if_any T next.1)
    ensure_components next.0 names

  unfoldable pub ensure_relative_directory : Directory → Text → Copying T Directory
  unfolding ensure_components split
  ensure_relative_directory root relative = ensure_components root (split b'\\' relative)

  unfoldable pub copy_found : Directory → Text → Option Source → Copying T (Unit {0})
  unfolding ensure_relative_directory copy_tree_verified
  copy_found target root none = pure tt
  copy_found target root (some source) = do
    destination ← ensure_relative_directory target root
    copy_tree_verified T source destination root

  unfoldable pub copy_roots : Source → Directory → List Text → Copying T (Unit {0})
  unfolding open_relative_directory_if_present copy_found check_cancelled
  copy_roots source target [] = pure tt
  copy_roots source target (root ∷ roots) = do
    check_cancelled T
    found ← lift (open_relative_directory_if_present source root)
    copy_found target root found
    copy_roots source target roots

  abbrev pub plain_progress : MigrationPhase → ℕ → ℕ → MigrationProgress
  plain_progress phase files bytes = record {
    phase = phase;
    relative_path = none;
    completed_files = files;
    copied_bytes = bytes;
  }

  abbrev pub success_details : MigrationReceipt → Text
  success_details r =
      codes "Verified "
      ++ (decimal r.copied_files
          ++ (codes " files ("
              ++ (decimal r.copied_bytes
                  ++ (codes " bytes); manifest SHA-256 " ++ r.manifest_sha256))))

  -- From the last copied file to the receipt.
  unfoldable pub finish_copy : MigrationPlan → Copying T MigrationReceipt
  unfolding receipt check_cancelled decimal
  finish_copy plan = do
    check_cancelled T
    r ← (λ w. (ok (receipt H.as_bytes T.hash w.1), w))
    check_cancelled T
    report T (λ t. plain_progress finalizing r.copied_files r.copied_bytes)
    check_cancelled T
    on_state T audit (H.log (event plan (codes "MigrationSuccess") success (success_details r)))
    pure r

  unfoldable pub warn_of_secrets : MigrationPlan → Bool → Copying T (Unit {0})
  warn_of_secrets plan false = pure tt
  warn_of_secrets plan true = on_state T audit (
      H.log (
        event plan (codes "MigrationWarning") warning (
          codes
            "DPAPI material detected; SID-bound secrets are copied but may not decrypt under the destination account.")))

  abbrev pub is_some : {A : Type 0} → Option A → Bool
  is_some none = false
  is_some (some a) = true

  -- `secure_directory_exists` of the directory of DPAPI keys.
  unfoldable pub secrets_exist : Source → Result MigrationError Bool
  unfolding open_relative_directory_if_present
  secrets_exist source =
      elim (open_relative_directory_if_present source
        (appdata_roaming_rel_path ++ codes "\\Microsoft\\Protect")) [
          | ok found ↦ ok (is_some found)
          | err e ↦ err e
        ]

  unfoldable pub copy_into : MigrationPlan → Source → Directory → Copying T MigrationReceipt
  unfolding secrets_exist warn_of_secrets copy_roots finish_copy roots_of
  copy_into plan source target = do
    raise_if (H.overlaps source target)
        (invalid_plan (codes "opened source and destination directory handles overlap"))
    secrets ← lift (secrets_exist source)
    warn_of_secrets plan secrets
    raise_if (is_empty (roots_of plan))
        (invalid_plan (codes "at least one migration scope must be selected"))
    report T (λ t. plain_progress enumerating 0 0)
    copy_roots source target (roots_of plan)
    finish_copy plan

  -- `validate_opened_roots` and what follows come after the target's entry in the transaction.
  unfoldable pub operation :
      MigrationPlan → ValidatedMigration Source Directory → Copying T MigrationReceipt
  unfolding copy_into map_secure_error
  operation plan validated = do
    created ←
        on_state T map_secure_error
          (T.create_directory validated.target_parent validated.target_leaf)
    change T (created_entry T created.1)
    copy_into plan validated.source_directory created.0
