-- ===== src/Audit/Legacy/Transition.antt =====
-- The namespace transition of crates/audit-journal/src/legacy.rs.
use win_profile.Base.{
  ℕ, Bool, true, false, not, ◌++◌, Option, none, some, Result, ok, err, Program, pure, raise, lift,
  ◌>>=◌, ◌>>◌, with_error, map_err, raise_if, Text, codes, ◌==◌, if◌then◌else◌,
}
use win_profile.Audit.Journal.{StorageError, not_found, collision, other_error}
use win_profile.Audit.Legacy.{
  MigrationPhase, prepared, detached, root_ready, audit_pending, done, label, RecoveryPlan,
  mark_audit_pending, retry_terminal_audit, recovery_plan, MigrationStateRecord, record_eq,
  state_file_name,
}
use win_profile.Audit.Legacy.Calls.{
  LegacyStorageError, storage, cleanup_failed, serialization, io, published_state_sync,
  state_publication, privilege, operation_and_privilege_restore, privilege_restore,
  identity_changed, invalid_state, random, Calls,
}

abbrev pub product_directory : Text
product_directory = codes "WinProfile"

abbrev pub with_phase : MigrationPhase → MigrationStateRecord → MigrationStateRecord
with_phase phase state = record state { phase = phase }

-- The record of a migration that is about to begin.
unfoldable pub prepared_record : Text → ℕ → ℕ → MigrationStateRecord
prepared_record id source next = record {
  schema = 1;
  migration_id = id;
  phase = prepared;
  source_identity = source;
  next_identity = next;
  legacy_name = codes "WinProfile.Legacy.Untrusted." ++ id;
  next_name = codes "WinProfile.Next." ++ id;
}

module _ {S : Type 0} (C : Calls S) where
  open C use {Object, Directory, Temp, File}

  abbrev pub Legacy : Type 0 → Type 0
  Legacy A = Program S LegacyStorageError A

  abbrev pub stored : {A : Type 0} → Program S StorageError A → Legacy A
  stored m = with_error storage m

  -- What is at the state's file name: an equal record is done, another one a collision.
  unfoldable pub existing_state :
      MigrationStateRecord
      → Result StorageError (Result Text MigrationStateRecord)
      → Result LegacyStorageError Bool
  unfolding record_eq state_file_name
  existing_state state (ok (err e)) = err (serialization e)
  existing_state state (ok (ok found)) =
      if record_eq found state
      then ok true
      else err (invalid_state (codes "state collision for " ++ state_file_name state))
  existing_state state (err not_found) = ok false
  existing_state state (err collision) = err (storage collision)
  existing_state state (err (other_error e)) = err (storage (other_error e))

  unfoldable pub write_and_publish : Temp → MigrationStateRecord → Legacy File
  unfolding state_file_name
  write_and_publish created state = do
    bytes ← lift (map_err serialization (C.to_json state))
    with_error io (C.write_synced created bytes)
    with_error (state_publication (state_file_name state))
        (C.publish created (state_file_name state))

  -- The `Drop` of a file that is not published.
  unfoldable pub drop_unpublished :
      {A : Type 0} → Temp → Result LegacyStorageError A × S → Result LegacyStorageError A × S
  drop_unpublished created (ok published, s) = (ok published, s)
  drop_unpublished created (err e, s) = (err e, C.drop_state_file created s)

  unfoldable pub publish_state : MigrationStateRecord → Legacy (Unit {0})
  unfolding state_file_name write_and_publish drop_unpublished
  publish_state state = do
    id ← with_error random C.random_id
    created ← stored (
        C.create_state_file
          (codes "." ++ (state.migration_id ++ (codes "-" ++ (id ++ codes ".tmp")))))
    published ← (λ s. drop_unpublished created (write_and_publish created state s))
    with_error (published_state_sync (state_file_name state)) (C.sync_all published)

  unfoldable pub write_state : MigrationStateRecord → Legacy (Unit {0})
  unfolding existing_state publish_state state_file_name
  write_state state = do
    there ←
        (λ s. let (r, t) = C.read_state (state_file_name state) s in (existing_state state r, t))
    (if there then pure tt else publish_state state)

  -- A prepared directory whose record cannot be written is removed, unless the record may be out.
  unfoldable pub after_persist :
      Directory → Result LegacyStorageError (Unit {0}) × S → Result LegacyStorageError Directory × S
  after_persist next (ok _, s) = (ok next, s)
  after_persist next (err (published_state_sync n e), s) = (err (published_state_sync n e), s)
  after_persist next (err (state_publication n e), s) = (err (state_publication n e), s)
  after_persist next (err operation_error, s) =
      let (removed, t) = C.remove next s in
      (
        elim removed [
          | ok _ ↦ err operation_error
          | err e ↦ err (cleanup_failed (C.error_text operation_error) (C.storage_text e))
        ],
        t,
      )

  unfoldable pub persist_prepared_state : Directory → MigrationStateRecord → Legacy Directory
  unfolding after_persist
  persist_prepared_state next state s = after_persist next (write_state state s)

  unfoldable pub verify_ready_root : MigrationStateRecord → Legacy (Unit {0})
  verify_ready_root state = do
    root ← stored C.open_existing_root
    identity ← stored (C.directory_identity root)
    raise_if (not (identity == state.next_identity)) identity_changed
    legacy ← stored (C.open_object_identity state.legacy_name)
    raise_if (not (legacy == state.source_identity)) identity_changed

  -- The prepared migration of an object: a new record, the object moved away, the new root in place.
  unfoldable pub activate_prepared :
      Object → Directory → MigrationStateRecord → Legacy MigrationStateRecord
  activate_prepared source next state = do
    stored (C.rename_object source state.legacy_name)
    write_state (with_phase detached state)
    active ← stored (C.rename_directory next product_directory)
    stored (C.validate_production_root active)
    identity ← stored (C.directory_identity active)
    raise_if (not (identity == state.next_identity)) identity_changed
    write_state (with_phase root_ready state)
    pure (with_phase root_ready state)

  unfoldable pub start_operation : ℕ → Legacy MigrationStateRecord
  start_operation detected_identity = do
    source ← stored (C.open_object_for_detach product_directory)
    raise_if (not (detected_identity == C.object_identity source)) identity_changed
    id ← with_error random C.random_id
    next ← stored (C.create_protected_child (codes "WinProfile.Next." ++ id))
    identity ← stored (C.directory_identity next)
    kept ← persist_prepared_state next (prepared_record id (C.object_identity source) identity)
    activate_prepared source kept (prepared_record id (C.object_identity source) identity)

  unfoldable pub finish_privileged_namespace :
      Result LegacyStorageError MigrationStateRecord
      → Result Text (Unit {0})
      → Result LegacyStorageError MigrationStateRecord
  finish_privileged_namespace (ok state) (ok _) = ok state
  finish_privileged_namespace (err error) (ok _) = err error
  finish_privileged_namespace (ok _) (err error) = err (privilege_restore error)
  finish_privileged_namespace (err operation_error) (err restore_error) =
      err (operation_and_privilege_restore (C.error_text operation_error) restore_error)

  -- An operation between the privileges' adjustment and their restoration.
  unfoldable pub privileged : Legacy MigrationStateRecord → Legacy MigrationStateRecord
  unfolding finish_privileged_namespace
  privileged operation = do
    with_error privilege C.enable_privileges
    (λ s.
        let (r, t) = operation s in
        let (restored, u) = C.restore_privileges t in (finish_privileged_namespace r restored, u))

  unfoldable pub start_namespace : ℕ → Legacy MigrationStateRecord
  unfolding privileged
  start_namespace detected_identity = privileged (start_operation detected_identity)

  -- The source of an interrupted detachment: still there, or already under its legacy name.
  unfoldable pub detach_again :
      MigrationStateRecord
      → Result StorageError Object × S
      → Result LegacyStorageError (Unit {0}) × S
  detach_again state (ok source, s) =
      (raise_if (not (C.object_identity source == state.source_identity)) identity_changed
          >> stored (C.rename_object source state.legacy_name))
        s
  detach_again state (err not_found, s) =
      (do
        identity ← stored (C.open_object_identity state.legacy_name)
        raise_if (not (identity == state.source_identity)) identity_changed)
        s
  detach_again state (err collision, s) = (err (storage collision), s)
  detach_again state (err (other_error e), s) = (err (storage (other_error e)), s)

  -- The new root of an interrupted activation: still under its own name, or already in place.
  unfoldable pub activate_again :
      MigrationStateRecord
      → Result StorageError Directory × S
      → Result LegacyStorageError (Unit {0}) × S
  activate_again state (ok next, s) =
      (do
        identity ← stored (C.directory_identity next)
        raise_if (not (identity == state.next_identity)) identity_changed
        active ← stored (C.rename_directory next product_directory)
        pure tt)
        s
  activate_again state (err not_found, s) = verify_ready_root state s
  activate_again state (err collision, s) = (err (storage collision), s)
  activate_again state (err (other_error e), s) = (err (storage (other_error e)), s)

  unfoldable pub resume_detached : MigrationStateRecord → Legacy MigrationStateRecord
  resume_detached state = do
    identity ← stored (C.open_object_identity state.legacy_name)
    raise_if (not (identity == state.source_identity)) identity_changed
    (λ s. activate_again state (C.open_existing_child_for_rename state.next_name s))
    write_state (with_phase root_ready state)
    pure (with_phase root_ready state)

  unfoldable pub resume_prepared : MigrationStateRecord → Legacy MigrationStateRecord
  resume_prepared state = do
    (λ s. detach_again state (C.open_object_for_detach product_directory s))
    write_state (with_phase detached state)
    resume_detached (with_phase detached state)

  unfoldable pub resume_ready : MigrationStateRecord → Legacy MigrationStateRecord
  resume_ready state = do verify_ready_root state; pure state

  unfoldable pub resume_operation :
      MigrationPhase → MigrationStateRecord → Legacy MigrationStateRecord
  resume_operation prepared state = resume_prepared state
  resume_operation detached state = resume_detached state
  resume_operation root_ready state = resume_ready state
  resume_operation audit_pending state = resume_ready state
  resume_operation done state = resume_ready state

  unfoldable pub resume_namespace : MigrationStateRecord → Legacy MigrationStateRecord
  unfolding privileged resume_operation
  resume_namespace state = privileged (resume_operation state.phase state)

  -- The last step before the audit.
  unfoldable pub mark_pending : RecoveryPlan → MigrationStateRecord → Legacy MigrationStateRecord
  unfolding label
  mark_pending mark_audit_pending state = do
    write_state (with_phase audit_pending state)
    pure (with_phase audit_pending state)
  mark_pending retry_terminal_audit state = pure state
  mark_pending _ state =
      raise
        (invalid_state (codes "expected root-ready or audit-pending, found " ++ label state.phase))

  -- `execute_recovery` under the bootstrap lock, with the record that was found.
  unfoldable pub execute_recovery : Option MigrationStateRecord → ℕ → Legacy MigrationStateRecord
  unfolding start_namespace resume_namespace mark_pending recovery_plan
  execute_recovery existing detected_identity = do
    state ← (elim existing [
      | none ↦ start_namespace detected_identity
      | some found ↦ resume_namespace found
    ])
    root ← stored C.open_existing_root
    mark_pending (recovery_plan state.phase) state
