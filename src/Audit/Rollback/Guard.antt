-- ===== src/Audit/Rollback/Guard.antt =====
-- When a snapshot's restoration is called at all.
use win_profile.Base.{
  ◌≡◌, ◌⊎◌, inl, inr, ap, ◌∙◌, true, some, ok, Program, Text, text_eq, text_eq_iff,
  eq_ignore_ascii_case, Result-cases, Bool-cases, Option-cases, arith, ◌==◌,
}
use win_profile.Audit.Rollback.{
  RollbackError, FileIdentity, identity_eq, Artifacts, SnapshotMetadata, restore_artifact,
  restore_registry_snapshot_with,
}

module _ {S : Type 0} (F : Artifacts S) where
  -- The artifact that a restoration is called with: that of the captured key, the same file still,
  -- with the digest that was recorded.
  pub record IsGenuine (metadata : SnapshotMetadata F.Artifact) (expected : Text) (s : S)
      : Type 0 where
    pub artifact : F.Artifact
    pub captured : metadata.artifact ≡ some artifact
    pub target : eq_ignore_ascii_case metadata.registry_key_path expected ≡ true
    pub current : FileIdentity
    pub read : (F.file_identity artifact s).0 ≡ ok current
    pub same_file : identity_eq current (F.identity artifact) ≡ true
    pub same_volume : current.volume_serial ≡ metadata.file_volume_serial
    pub same_index : current.file_index ≡ metadata.file_index
    pub digest : (F.sha256_file artifact (F.file_identity artifact s).1).0 ≡ ok metadata.sha256

  restore_artifact-IsGenuine :
      (metadata : SnapshotMetadata F.Artifact) (expected : Text) (s : S)
      (f g : Text → Text → Program S RollbackError (Unit {0})) (artifact : F.Artifact)
      (current : FileIdentity)
      → eq_ignore_ascii_case metadata.registry_key_path expected ≡ true
      → metadata.artifact ≡ some artifact
      → (F.file_identity artifact s).0 ≡ ok current
      → identity_eq current (F.identity artifact) ≡ true
      → (restore_registry_snapshot_with F metadata expected f s
          ≡ restore_registry_snapshot_with F metadata expected g s)
        ⊎ IsGenuine metadata expected s
  unfolding restore_registry_snapshot_with restore_artifact
  restore_artifact-IsGenuine metadata expected s f g artifact current target captured read
        same_file =
      let t = (F.file_identity artifact s).1 in
      elim (Bool-cases (current.volume_serial == metadata.file_volume_serial)) [
        | inr other ↦ inl (ground (arith, target, captured, read, same_file, other))
        | inl volume ↦ elim (Bool-cases (current.file_index == metadata.file_index)) [
          | inr other ↦ inl (ground (arith, target, captured, read, same_file, volume, other))
          | inl index ↦ elim (Result-cases (F.sha256_file artifact t).0) [
            | inr (e, failed) ↦
                inl (ground (arith, target, captured, read, same_file, volume, index, failed))
            | inl (digest, hashed) ↦ elim (Bool-cases (text_eq digest metadata.sha256)) [
              | inr other ↦
                  inl (
                    ground (arith, target, captured, read, same_file, volume, index, hashed, other))
              | inl same ↦ inr record {
                artifact = artifact;
                captured = captured;
                target = target;
                current = current;
                read = read;
                same_file = same_file;
                same_volume = ground (arith, volume);
                same_index = ground (arith, index);
                digest = hashed ∙ ap ok ((text_eq_iff digest metadata.sha256).0 same);
              }
            ]
          ]
        ]
      ]

  -- A restoration whose outcome depends on what is done to restore has a genuine artifact: for any
  -- other one nothing is restored.
  pub restore_registry_snapshot_with-IsGenuine :
      (metadata : SnapshotMetadata F.Artifact) (expected : Text) (s : S)
      (f g : Text → Text → Program S RollbackError (Unit {0}))
      → (restore_registry_snapshot_with F metadata expected f s
          ≡ restore_registry_snapshot_with F metadata expected g s)
        ⊎ IsGenuine metadata expected s
  unfolding restore_registry_snapshot_with restore_artifact
  restore_registry_snapshot_with-IsGenuine metadata expected s f g =
      elim (Bool-cases (eq_ignore_ascii_case metadata.registry_key_path expected)) [
        | inr other ↦ inl (ground (arith, other))
        | inl target ↦ elim (Option-cases metadata.artifact) [
          | inl gone ↦ inl (ground (arith, target, gone))
          | inr (artifact, captured) ↦ elim (Result-cases (F.file_identity artifact s).0) [
            | inr (e, failed) ↦ inl (ground (arith, target, captured, failed))
            | inl (current, read) ↦ elim (Bool-cases (identity_eq current (F.identity artifact))) [
              | inr other ↦ inl (ground (arith, target, captured, read, other))
              | inl same_file ↦
                  restore_artifact-IsGenuine metadata expected s f g artifact current target
                    captured read same_file
            ]
          ]
        ]
      ]
