-- ===== src/Audit/Snapshot.antt =====
-- `SnapshotEngine` of crates/audit-journal/src/snapshot.rs.
pub mod Create
pub mod NoNew
pub mod Leftovers
pub mod Made
pub mod Undone
pub mod Inventory
use win_profile.Base.{
  ℕ, Bool, true, false, not, ◌&&◌, ◌||◌, List, [], ◌∷◌, ◌++◌, Option, none, some, Result, ok, err,
  map_err, Program, pure, raise, lift, with_error, raise_if, ◌>>=◌, ◌>>◌, Text, codes, text_eq,
  decimal, replace_char, join, ends_with, ◌==◌, leb, if◌then◌else◌,
}
use win_profile.Platform.Registry.Api.{RegistryError}
use win_profile.Audit.Rollback.{FileIdentity}
use win_profile.Audit.Journal.{StorageError, not_found, collision, other_error}

-- Errors of the storage, the registry and the privileges keep their text.
pub data SnapshotError : Type 0 where
  io_error : Text → SnapshotError
  registry_error : Text → SnapshotError
  security_error : Text → SnapshotError
  storage_error : Text → SnapshotError
  name_collision : Text → SnapshotError
  save_cleanup_failed : Text → Text → SnapshotError
  cleanup_failed : Text → Text → SnapshotError
  post_save_cleanup_failed : Text → Text → SnapshotError
  privilege_restore_cleanup_failed : Text → Text → SnapshotError
  operation_and_privilege_restore_failed : Text → Text → SnapshotError
  invalid_inventory : Text → Text → SnapshotError
  hash_error : Text → ℕ → SnapshotError

-- The time, as microseconds and as the text of a file name, and the sequence number.
pub record Stamp : Type 0 where
  pub timestamp : ℕ
  pub text : Text
  pub sequence : ℕ

-- The serialized fields, and the open hive with its path.
pub record Metadata (F : Type 0) : Type 0 where
  pub id : Text
  pub timestamp : ℕ
  pub sid : Text
  pub profile_path : Text
  pub registry_key_path : Text
  pub snapshot_file_name : Text
  pub sha256 : Text
  pub file_volume_serial : ℕ
  pub file_index : ℕ
  pub reason : Text
  pub protected_artifact : Option (F × Text)

-- The calls of the engine. `File` is an open file, `Created` a `CreatedStorageFile`.
pub record Snapshots (S : Type 0) : Type 1 where
  pub File : Type 0
  pub Created : Type 0
  pub Key : Type 0
  pub process_id : ℕ
  pub storage_text : StorageError → Text
  pub error_text : SnapshotError → Text
  pub acquire_lock : Program S Text (Unit {0})
  pub release_lock : S → S
  pub new_privileges : Program S Text (Unit {0})
  pub restore_privileges : Program S Text (Unit {0})
  pub now : S → Stamp × S
  pub child_path : Text → Result StorageError Text
  pub open_file : Text → Program S StorageError File
  pub open_key : Text → Program S Text Key
  pub save_key : Key → Text → Program S Text (Unit {0})
  pub file_identity : File → Text → Program S StorageError FileIdentity
  pub sha256_file : File → Program S SnapshotError Text
  pub create_file : Text → Program S StorageError Created
  pub to_writer_pretty : Created → Metadata File → Program S Text (Unit {0})
  pub flush : Created → Program S Text (Unit {0})
  pub sync_all : Created → Program S Text (Unit {0})
  pub commit : Created → S → S
  pub rollback : Created → Program S StorageError (Unit {0})
  pub delete_open_file : File → Text → Program S StorageError (Unit {0})
  pub remove_file_if_exists : Text → Program S StorageError Bool
  pub entries : Program S StorageError (List (Option Text))
  pub from_reader : File → Program S Text (Metadata File)

unfoldable pub snapshot_name : ℕ → Stamp → Text → Text
unfolding decimal replace_char
snapshot_name process_id stamp sid =
    codes "snap_"
    ++ (stamp.text
        ++ (codes "_"
            ++ (decimal process_id
                ++ (codes "_"
                    ++ (decimal stamp.sequence
                        ++ (codes "_"
                            ++ (replace_char b':' b'_' (replace_char b'\\' b'_' sid)
                                ++ codes ".hiv")))))))

abbrev pub metadata_name : Text → Text
metadata_name filename = filename ++ codes ".json"

module _ {S : Type 0} (F : Snapshots S) where
  open F use {File, Created}

  -- One text for each deletion that failed.
  unfoldable pub failure_text : Text → Result StorageError (Unit {0}) → List Text
  failure_text step (ok _) = []
  failure_text step (err e) = (step ++ F.storage_text e) ∷ []

  unfoldable pub rollback_metadata : Option Created → S → List Text × S
  unfolding failure_text
  rollback_metadata none s = ([], s)
  rollback_metadata (some created) s =
      let (r, t) = F.rollback created s in (failure_text (codes "metadata: ") r, t)

  unfoldable pub delete_hive : Option (File × Text) → S → List Text × S
  unfolding failure_text
  delete_hive none s = (codes "hive: protected artifact unavailable" ∷ [], s)
  delete_hive (some artifact) s =
      let (r, t) = F.delete_open_file artifact.0 artifact.1 s in
      (failure_text (codes "hive: ") r, t)

  unfoldable pub cleanup_transaction_artifacts : Metadata File → Option Created → S → List Text × S
  unfolding rollback_metadata delete_hive
  cleanup_transaction_artifacts metadata metadata_file s =
      let (first, t) = rollback_metadata metadata_file s in
      let (second, u) = delete_hive metadata.protected_artifact t in (first ++ second, u)

  unfoldable pub with_cleanup_errors : SnapshotError → List Text → SnapshotError
  unfolding join
  with_cleanup_errors operation_error [] = operation_error
  with_cleanup_errors operation_error (e ∷ es) =
      cleanup_failed (F.error_text operation_error) (join (codes "; ") (e ∷ es))

  unfoldable pub cleanup_after_metadata_error :
      {A : Type 0} → Metadata File → Option Created → SnapshotError → Program S SnapshotError A
  unfolding cleanup_transaction_artifacts with_cleanup_errors
  cleanup_after_metadata_error metadata metadata_file operation_error s =
      let (errors, t) = cleanup_transaction_artifacts metadata metadata_file s in
      (err (with_cleanup_errors operation_error errors), t)

  unfoldable pub after_removal :
      SnapshotError → (Text → SnapshotError) → Result StorageError Bool → SnapshotError
  after_removal error failed (ok _) = error
  after_removal error failed (err e) = failed (F.storage_text e)

  unfoldable pub cleanup_after_failed_save : {A : Type 0} → Text → Text → Program S SnapshotError A
  unfolding after_removal
  cleanup_after_failed_save filename save_error s =
      let (r, t) = F.remove_file_if_exists filename s in
      (err (after_removal (registry_error save_error) (save_cleanup_failed save_error) r), t)

  unfoldable pub cleanup_after_post_save_error :
      {A : Type 0} → Text → SnapshotError → Program S SnapshotError A
  unfolding after_removal
  cleanup_after_post_save_error filename error s =
      let (r, t) = F.remove_file_if_exists filename s in
      (err (after_removal error (post_save_cleanup_failed (F.error_text error)) r), t)
