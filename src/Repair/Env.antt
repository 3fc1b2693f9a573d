-- ===== src/Repair/Env.antt =====
-- What the repair engine of crates/core-profiles/src/repair.rs works with: its errors, the events
-- that it logs, and the services that it calls, over the state of the registry.
use win_profile.Base.{ℕ, Bool, List, Option, Result, Program, Text, codes}
use win_profile.Audit.Event.{Event}
use win_profile.Platform.Registry.Api.{RegistryError}

pub record ManualCloseBlocker : Type 0 where
  pub application : Text
  pub process_id : ℕ

-- `RepairError`; the errors of the snapshot engine, the rollback and the journal keep their text.
pub data RepairError : Type 0 where
  session_active : RepairError
  no_action_selected : RepairError
  invalid_sid : Text → RepairError
  missing_registry_key : Text → RepairError
  registry_error : RegistryError → RepairError
  snapshot_error : Text → RepairError
  rollback_error : Text → RepairError
  audit_error : Text → RepairError
  lock_inspection_failed : Text → RepairError
  manual_close_required : List ManualCloseBlocker → RepairError
  automatic_unlock_unsupported : RepairError
  transaction_failed : Text → Text → RepairError

-- The services, over the registry's state `S`. `Snapshot` is `SnapshotMetadata`; `error_text` is
-- `RepairError::to_string`.
pub record Services (S : Type 0) : Type 1 where
  pub Snapshot : Type 0
  pub expand : Text → Result RegistryError Text
  pub is_absolute : Text → Bool
  pub error_text : RepairError → Text
  pub timestamp : S → Text
  pub acquire_operation_guard : Program S Text (Unit {0})
  pub release_operation_guard : S → S
  pub log : Event → Program S Text (Unit {0})
  pub inspect : Text → Program S Text (List ManualCloseBlocker)
  pub create_registry_snapshot : Text → Text → Text → Text → Program S Text Snapshot
  pub restore_registry_snapshot : Snapshot → Text → Program S Text (Unit {0})

pub record RegistryMutation : Type 0 where
  pub bak_moved : Bool
  pub canonical_backup : Option Text

pub record RepairSnapshot (X : Type 0) : Type 0 where
  pub metadata : X
  pub expected_registry_key_path : Text

abbrev pub audit_actor : Text
audit_actor = codes "WinProfile-Admin"

abbrev pub backup_suffix : Text
backup_suffix = codes "pre-repair"
