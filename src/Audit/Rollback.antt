-- ===== src/Audit/Rollback.antt =====
-- The restoration of a registry snapshot, crates/audit-journal/src/rollback.rs.
pub mod Guard
use win_profile.Base.{
  ℕ, Bool, true, false, not, ◌&&◌, ◌||◌, List, [], ◌∷◌, ◌++◌, Option, none, some, Result, ok, err,
  Program, pure, raise, lift, continue, ◌>>=◌, ◌>>◌, with_error, raise_if, Text, codes, text_eq,
  eq_ignore_ascii_case, strip_prefix, ◌==◌, if◌then◌else◌,
}
use win_profile.Platform.Registry.Api.{
  RegistryError, invalid_path, local_machine, Win32Registry, error_success, key_all_access,
}
use win_profile.Platform.Registry.Keys.{open_key, create_key}

-- `RollbackError`; errors of other crates keep their text.
pub data RollbackError : Type 0 where
  target_mismatch : Text → Text → RollbackError
  artifact_unavailable : RollbackError
  identity_mismatch : RollbackError
  digest_mismatch : RollbackError
  registry_error : ℕ → RollbackError
  base_reg_error : RegistryError → RollbackError
  snapshot_error : Text → RollbackError
  security_error : Text → RollbackError
  operation_and_privilege_restore_failed : Text → Text → RollbackError
  aggregate : Text → RollbackError

-- The identity of a file on its volume.
pub record FileIdentity : Type 0 where
  pub volume_serial : ℕ
  pub file_index : ℕ

abbrev pub identity_eq : FileIdentity → FileIdentity → Bool
identity_eq a b = a.volume_serial == b.volume_serial && a.file_index == b.file_index

-- The open artifact of a snapshot, and what is read of it.
pub record Artifacts (S : Type 0) : Type 1 where
  pub Artifact : Type 0
  pub path : Artifact → Text
  pub identity : Artifact → FileIdentity
  pub file_identity : Artifact → Program S Text FileIdentity
  pub sha256_file : Artifact → Program S Text Text

-- The fields of `SnapshotMetadata` that a restoration reads.
pub record SnapshotMetadata (A : Type 0) : Type 0 where
  pub registry_key_path : Text
  pub sha256 : Text
  pub file_volume_serial : ℕ
  pub file_index : ℕ
  pub artifact : Option A

module _ {S : Type 0} (F : Artifacts S) where
  open F use {Artifact}

  unfoldable pub restore_artifact :
      SnapshotMetadata Artifact
      → Text
      → (Text → Text → Program S RollbackError (Unit {0}))
      → Artifact
      → Program S RollbackError (Unit {0})
  restore_artifact metadata expected restore artifact = do
    current ← with_error snapshot_error (F.file_identity artifact)
    raise_if
        (not (identity_eq current (F.identity artifact))
          || not (current.volume_serial == metadata.file_volume_serial)
          || not (current.file_index == metadata.file_index))
        identity_mismatch
    digest ← with_error snapshot_error (F.sha256_file artifact)
    raise_if (not (text_eq digest metadata.sha256)) digest_mismatch
    restore (F.path artifact) expected

  unfoldable pub restore_registry_snapshot_with :
      SnapshotMetadata Artifact
      → Text
      → (Text → Text → Program S RollbackError (Unit {0}))
      → Program S RollbackError (Unit {0})
  unfolding restore_artifact eq_ignore_ascii_case
  restore_registry_snapshot_with metadata expected restore s =
      if not (eq_ignore_ascii_case metadata.registry_key_path expected)
      then (err (target_mismatch expected metadata.registry_key_path), s)
      else elim metadata.artifact [
        | none ↦ (err artifact_unavailable, s)
        | some artifact ↦ restore_artifact metadata expected restore artifact s
      ]

-- `error_text` is `RollbackError::to_string`.
unfoldable pub finish_privileged_restore :
    (RollbackError → Text)
    → Result RollbackError (Unit {0})
    → Result Text (Unit {0})
    → Result RollbackError (Unit {0})
finish_privileged_restore error_text (ok _) (ok _) = ok tt
finish_privileged_restore error_text (err operation_error) (ok _) = err operation_error
finish_privileged_restore error_text (ok _) (err restore_error) = err (security_error restore_error)
finish_privileged_restore error_text (err operation_error) (err restore_error) =
    err (operation_and_privilege_restore_failed (error_text operation_error) restore_error)

-- `rsplit_once('\\')`: the text before and behind the last backslash.
unfoldable pub rsplit_once : ℕ → Text → Option (Text × Text)
rsplit_once c [] = none
rsplit_once c (x ∷ s) = elim (rsplit_once c s) [
  | some parts ↦ some (x ∷ parts.0, parts.1)
  | none ↦ if x == c then some ([], s) else none
]

module _ (R : Win32Registry) (error_text : RollbackError → Text)
    (enable restore_privileges : Program R.State Text (Unit {0}))
    (reg_restore_key : R.Hkey → Text → R.State → ℕ × R.State) where
  status_error : ℕ → Result RollbackError (Unit {0})
  status_error status = if status == error_success then ok tt else err (registry_error status)

  unfoldable pub restore_key : Text → Text → Text → Program R.State RollbackError (Unit {0})
  unfolding status_error
  restore_key path parent_path leaf_name = do
    parent ← with_error base_reg_error (open_key R local_machine parent_path key_all_access)
    hkey ← with_error base_reg_error (create_key R parent leaf_name key_all_access)
    (λ s. let (status, t) = reg_restore_key hkey path s in (status_error status, t))

  -- The key below `HKLM`, its parent and its name.
  unfoldable pub target_of : Text → Option (Text × Text)
  unfolding rsplit_once
  target_of expected = elim (strip_prefix expected (codes "HKLM\\")) [
    | none ↦ none
    | some subkey ↦ rsplit_once b'\\' subkey
  ]

  unfoldable pub restore_registry_file : Text → Text → Program R.State RollbackError (Unit {0})
  unfolding restore_key target_of finish_privileged_restore
  restore_registry_file path expected = elim (target_of expected) [
    | none ↦ raise (base_reg_error invalid_path)
    | some target ↦ with_error security_error enable >> (λ s.
        let (r, t) = restore_key path target.0 target.1 s in
        let (restored, u) = restore_privileges t in
        (finish_privileged_restore error_text r restored, u))
  ]
