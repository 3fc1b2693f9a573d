-- ===== src/Audit/Snapshot/Inventory.antt =====
-- `list_snapshots` and `validate_inventory_entry` of crates/audit-journal/src/snapshot.rs.
pub mod Genuine
use win_profile.Base.{
  ℕ, Bool, true, false, not, ◌&&◌, List, [], ◌∷◌, ◌++◌, Option, none, some, Result, ok, err,
  map_err, Program, pure, raise, lift, with_error, raise_if, ◌>>=◌, ◌>>◌, Text, codes, text_eq,
  ends_with, ◌==◌, leb, if◌then◌else◌,
}
use win_profile.Audit.Journal.{StorageError}
use win_profile.Audit.Rollback.{FileIdentity, identity_eq}
use win_profile.Audit.Snapshot.{
  SnapshotError, invalid_inventory, storage_error, io_error, Metadata, Snapshots, metadata_name,
}

-- A stable sort, the newest first.
unfoldable pub insert_newest : {F : Type 0} → Metadata F → List (Metadata F) → List (Metadata F)
insert_newest m [] = m ∷ []
insert_newest m (n ∷ ms) =
    if leb n.timestamp m.timestamp then m ∷ n ∷ ms else n ∷ insert_newest m ms

unfoldable pub sort_newest : {F : Type 0} → List (Metadata F) → List (Metadata F)
unfolding insert_newest
sort_newest [] = []
sort_newest (m ∷ ms) = insert_newest m (sort_newest ms)

abbrev pub expected_identity : {F : Type 0} → Metadata F → FileIdentity
expected_identity metadata = record {
  volume_serial = metadata.file_volume_serial;
  file_index = metadata.file_index;
}

module _ {S : Type 0} (F : Snapshots S) where
  open F use {File}

  unfoldable pub validate_inventory_entry :
      Text → Metadata File → Program S SnapshotError (Unit {0})
  unfolding ends_with
  validate_inventory_entry metadata_file metadata = do
    raise_if (not (ends_with metadata.snapshot_file_name (codes ".hiv")))
        (invalid_inventory metadata_file (codes "snapshot file name must be a .hiv component"))
    raise_if (not (text_eq metadata_file (metadata_name metadata.snapshot_file_name))) (
        invalid_inventory metadata_file
          (codes "metadata name does not match associated hive " ++ metadata.snapshot_file_name))
    path ← lift (
        map_err (λ e. invalid_inventory metadata_file (F.storage_text e))
          (F.child_path metadata.snapshot_file_name))
    hive ←
        with_error (λ e. invalid_inventory metadata_file (F.storage_text e))
          (F.open_file metadata.snapshot_file_name)
    identity ←
        with_error (λ e. invalid_inventory metadata_file (F.storage_text e))
          (F.file_identity hive path)
    raise_if (not (identity_eq identity (expected_identity metadata)))
        (invalid_inventory metadata_file (codes "associated hive identity does not match metadata"))
    digest ← with_error (λ e. invalid_inventory metadata_file (F.error_text e)) (F.sha256_file hive)
    raise_if (not (text_eq digest metadata.sha256))
        (invalid_inventory metadata_file (codes "associated hive SHA-256 does not match metadata"))

  -- The protected artifact is not serialized.
  abbrev pub without_artifact : Metadata File → Metadata File
  without_artifact metadata = record metadata { protected_artifact = none }

  unfoldable pub read_entry : Text → Program S SnapshotError (Metadata File)
  unfolding validate_inventory_entry
  read_entry name = do
    file ← with_error (λ e. storage_error (F.storage_text e)) (F.open_file name)
    metadata ← with_error io_error (F.from_reader file)
    validate_inventory_entry name (without_artifact metadata)
    pure (without_artifact metadata)

  -- A name that is no Unicode text is `none`.
  unfoldable pub read_entries : List (Option Text) → Program S SnapshotError (List (Metadata File))
  unfolding read_entry ends_with
  read_entries [] = pure []
  read_entries (none ∷ names) = read_entries names
  read_entries (some name ∷ names) =
      let rest = read_entries names in
      if not (ends_with name (codes ".json"))
      then rest
      else do metadata ← read_entry name; others ← rest; pure (metadata ∷ others)

  unfoldable pub list_entries : Program S SnapshotError (List (Metadata File))
  unfolding read_entries sort_newest
  list_entries = do
    names ← with_error (λ e. storage_error (F.storage_text e)) F.entries
    results ← read_entries names
    pure (sort_newest results)

  unfoldable pub list_snapshots : Program S SnapshotError (List (Metadata File))
  unfolding list_entries
  list_snapshots = do
    with_error storage_error F.acquire_lock
    (λ s. let (r, t) = list_entries s in (r, F.release_lock t))
