-- ===== src/Audit/Snapshot/Create.antt =====
-- `create_registry_snapshot` of crates/audit-journal/src/snapshot.rs.
use win_profile.Base.{
  List, [], ◌∷◌, ◌++◌, none, some, Result, ok, err, Program, pure, with_error, ◌>>=◌, ◌>>◌, Text,
  codes, decimal, join,
}
use win_profile.Audit.Rollback.{FileIdentity}
use win_profile.Audit.Journal.{StorageError, not_found, collision, other_error}
use win_profile.Audit.Snapshot.{
  SnapshotError, Stamp, Metadata, snapshot_name, metadata_name, cleanup_transaction_artifacts,
  cleanup_after_metadata_error, cleanup_after_failed_save, cleanup_after_post_save_error, Snapshots,
  name_collision, storage_error, registry_error, security_error, io_error,
  privilege_restore_cleanup_failed, operation_and_privilege_restore_failed,
}

module _ {S : Type 0} (F : Snapshots S) where
  open F use {File, Created}

  -- The saved hive, opened, with its identity and its digest.
  unfoldable pub capture_artifact :
      Text → Text → Program S SnapshotError (File × (FileIdentity × Text))
  capture_artifact filename path = do
    file ← with_error (λ e. storage_error (F.storage_text e)) (F.open_file filename)
    identity ← with_error (λ e. storage_error (F.storage_text e)) (F.file_identity file path)
    digest ← F.sha256_file file
    pure (file, (identity, digest))

  unfoldable pub write_metadata : Created → Metadata File → Program S SnapshotError (Unit {0})
  write_metadata created metadata = do
    with_error io_error (F.to_writer_pretty created metadata)
    with_error io_error (F.flush created)
    with_error io_error (F.sync_all created)

  unfoldable pub create_metadata :
      Text → Metadata File → Program S SnapshotError (Metadata File × Created)
  unfolding write_metadata cleanup_after_metadata_error
  create_metadata filename metadata s =
      let (made, t) = F.create_file (metadata_name filename) s in
      elim made [
        | err e ↦ cleanup_after_metadata_error F metadata none (storage_error (F.storage_text e)) t
        | ok created ↦
            let (written, u) = write_metadata created metadata t in
            elim written [
              | err e ↦ cleanup_after_metadata_error F metadata (some created) e u
              | ok _ ↦ (ok (metadata, created), u)
            ]
      ]

  abbrev pub metadata_of :
      Text → Text → Text → Text → Stamp → Text → Text → File × (FileIdentity × Text) → Metadata File
  metadata_of subkey sid profile_path reason stamp filename path captured = record {
    id =
        decimal stamp.timestamp
        ++ (codes "_" ++ (decimal F.process_id ++ (codes "_" ++ decimal stamp.sequence)));
    timestamp = stamp.timestamp;
    sid = sid;
    profile_path = profile_path;
    registry_key_path = codes "HKLM\\" ++ subkey;
    snapshot_file_name = filename;
    sha256 = captured.1.1;
    file_volume_serial = captured.1.0.volume_serial;
    file_index = captured.1.0.file_index;
    reason = reason;
    protected_artifact = some (captured.0, path);
  }

  -- From the saved hive on.
  unfoldable pub record_hive :
      Text
      → Text
      → (File × (FileIdentity × Text) → Metadata File)
      → Program S SnapshotError (Metadata File × Created)
  unfolding capture_artifact create_metadata cleanup_after_post_save_error
  record_hive filename path describe s =
      let (captured, t) = capture_artifact filename path s in
      elim captured [
        | err e ↦ cleanup_after_post_save_error F filename e t
        | ok c ↦ create_metadata filename (describe c) t
      ]

  unfoldable pub save_hive :
      Text
      → Text
      → Text
      → (File × (FileIdentity × Text) → Metadata File)
      → Program S SnapshotError (Metadata File × Created)
  unfolding record_hive cleanup_after_failed_save
  save_hive subkey filename path describe = do
    key ← with_error registry_error (F.open_key subkey)
    (λ s.
        let (saved, t) = F.save_key key path s in
        elim saved [
          | err e ↦ cleanup_after_failed_save F filename e t
          | ok _ ↦ record_hive filename path describe t
        ])

  -- The name must be free.
  unfoldable pub free_result : Text → Result StorageError File → Result SnapshotError (Unit {0})
  free_result filename (ok _) = err (name_collision filename)
  free_result filename (err not_found) = ok tt
  free_result filename (err collision) = err (storage_error (F.storage_text collision))
  free_result filename (err (other_error t)) = err (storage_error (F.storage_text (other_error t)))

  unfoldable pub capture :
      Text → Text → Text → Text → Program S SnapshotError (Metadata File × Created)
  unfolding snapshot_name free_result save_hive decimal
  capture subkey sid profile_path reason s =
      let (stamp, t) = F.now s in
      let filename = snapshot_name F.process_id stamp sid in
      elim (F.child_path filename) [
        | err e ↦ (err (storage_error (F.storage_text e)), t)
        | ok path ↦
            let (opened, u) = F.open_file filename t in
            elim (free_result filename opened) [
              | err e ↦ (err e, u)
              | ok _ ↦
                  save_hive subkey filename path
                    (metadata_of subkey sid profile_path reason stamp filename path) u
            ]
      ]

  unfoldable pub restore_failure : Text → List Text → SnapshotError
  unfolding join
  restore_failure restore_error [] = security_error restore_error
  restore_failure restore_error (e ∷ es) =
      privilege_restore_cleanup_failed restore_error (join (codes "; ") (e ∷ es))

  unfoldable pub finish_snapshot_operation :
      Result SnapshotError (Metadata File × Created)
      → Result Text (Unit {0})
      → Program S SnapshotError (Metadata File)
  unfolding cleanup_transaction_artifacts restore_failure
  finish_snapshot_operation (ok (metadata, created)) (ok _) s = (ok metadata, F.commit created s)
  finish_snapshot_operation (err operation_error) (ok _) s = (err operation_error, s)
  finish_snapshot_operation (err operation_error) (err restore_error) s =
      (err (operation_and_privilege_restore_failed (F.error_text operation_error) restore_error), s)
  finish_snapshot_operation (ok (metadata, created)) (err restore_error) s =
      let (errors, t) = cleanup_transaction_artifacts F metadata (some created) s in
      (err (restore_failure restore_error errors), t)

  unfoldable pub with_privileges :
      Text → Text → Text → Text → Program S SnapshotError (Metadata File)
  unfolding capture finish_snapshot_operation
  with_privileges subkey sid profile_path reason = do
    with_error security_error F.new_privileges
    (λ s.
        let (operation, t) = capture subkey sid profile_path reason s in
        let (restored, u) = F.restore_privileges t in
        finish_snapshot_operation operation restored u)

  unfoldable pub create_registry_snapshot :
      Text → Text → Text → Text → Program S SnapshotError (Metadata File)
  unfolding with_privileges
  create_registry_snapshot subkey sid profile_path reason = do
    with_error storage_error F.acquire_lock
    (λ s. let (r, t) = with_privileges subkey sid profile_path reason s in (r, F.release_lock t))
