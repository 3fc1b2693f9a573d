-- ===== src/Audit/Legacy/Calls.antt =====
-- The errors of crates/audit-journal/src/legacy.rs and the storage calls that it makes.
use win_profile.Base.{ℕ, List, Option, Result, Program, Text}
use win_profile.Audit.Journal.{StorageError}
use win_profile.Audit.Legacy.{MigrationStateRecord}

-- `LegacyStorageError`; errors of other crates keep their text.
pub data LegacyStorageError : Type 0 where
  storage : StorageError → LegacyStorageError
  cleanup_failed : Text → Text → LegacyStorageError
  serialization : Text → LegacyStorageError
  io : Text → LegacyStorageError
  published_state_sync : Text → Text → LegacyStorageError
  state_publication : Text → StorageError → LegacyStorageError
  privilege : Text → LegacyStorageError
  operation_and_privilege_restore : Text → Text → LegacyStorageError
  privilege_restore : Text → LegacyStorageError
  identity_changed : LegacyStorageError
  invalid_state : Text → LegacyStorageError
  ambiguous_state : LegacyStorageError
  random : ℕ → LegacyStorageError

-- The calls, over a state `S`: names are children of the program data directory, `Object` is an
-- object that is open for detachment, `Directory` a protected directory. `drop_state_file` is the
-- deletion, without a report, by which a state's file that was not published is dropped.
pub record Calls (S : Type 0) : Type 1 where
  pub Object : Type 0
  pub Directory : Type 0
  pub Temp : Type 0
  pub File : Type 0
  pub error_text : LegacyStorageError → Text
  pub storage_text : StorageError → Text
  pub enable_privileges : Program S Text (Unit {0})
  pub restore_privileges : Program S Text (Unit {0})
  pub open_object_for_detach : Text → Program S StorageError Object
  pub object_identity : Object → ℕ
  pub rename_object : Object → Text → Program S StorageError (Unit {0})
  pub open_object_identity : Text → Program S StorageError ℕ
  pub create_protected_child : Text → Program S StorageError Directory
  pub open_existing_child_for_rename : Text → Program S StorageError Directory
  pub directory_identity : Directory → Program S StorageError ℕ
  pub rename_directory : Directory → Text → Program S StorageError Directory
  pub validate_production_root : Directory → Program S StorageError (Unit {0})
  pub remove : Directory → Program S StorageError (Unit {0})
  pub open_existing_root : Program S StorageError Directory
  pub random_id : Program S ℕ Text
  pub entries : Program S StorageError (List (Option Text))
  pub read_bytes : Text → Program S StorageError (Result Text (List ℕ))
  pub from_json : List ℕ → Result Text MigrationStateRecord
  pub read_state : Text → Program S StorageError (Result Text MigrationStateRecord)
  pub create_state_file : Text → Program S StorageError Temp
  pub to_json : MigrationStateRecord → Result Text (List ℕ)
  pub write_synced : Temp → List ℕ → Program S Text (Unit {0})
  pub drop_state_file : Temp → S → S
  pub publish : Temp → Text → Program S StorageError File
  pub sync_all : File → Program S Text (Unit {0})
