-- ===== src/Audit/Snapshot/Made.antt =====
-- The parts of `create_registry_snapshot` up to the hive with its metadata, by the files that they
-- leave.
use win_profile.Base.{
  ◌≡◌, inl, inr, refl, Bool, false, none, some, Result, ok, err, map_err, continue, with_error,
  with_error_ok, Text, text_eq, arith,
}
use win_profile.Base.Hoare.{Gives, Gives-bind, Gives-pure}
use win_profile.Audit.Journal.{StorageError}
use win_profile.Audit.Rollback.{FileIdentity}
use win_profile.Audit.Snapshot.Create.{
  capture_artifact, write_metadata, create_metadata, metadata_of, record_hive, save_hive,
  free_result, capture,
}
use win_profile.Audit.Snapshot.{
  SnapshotError, save_cleanup_failed, post_save_cleanup_failed, registry_error, storage_error,
  Stamp, Metadata, Snapshots, snapshot_name, metadata_name, cleanup_after_metadata_error,
  cleanup_after_failed_save, cleanup_after_post_save_error,
}
use win_profile.Audit.Snapshot.NoNew.{
  Without, NoNew, Files, KeepsFiles, Without-then, Without-still, Without-widen, Undone, both, Made,
}
use win_profile.Audit.Snapshot.Leftovers.{
  removed-Undone, cleanup_hive-Undone, cleanup_both-Undone, NoNew-bind, write_metadata-NoNew,
}

module _ {S : Type 0} {F : Snapshots S} (D : Files F) (K : KeepsFiles D) where
  abbrev pub Fresh : S → S → Type 0
  Fresh = NoNew D

  abbrev pub But : (Text → Bool) → S → S → Type 0
  But = Without D

  abbrev pub Ends : S → Result SnapshotError (Metadata F.File × F.Created) × S → Type 0
  Ends s = Undone D (Made D s) s

  pub create_metadata-Ends :
      (n p : Text) (meta : Metadata F.File) (f : F.File) (s t : S)
      → meta.protected_artifact ≡ some (f, p)
      → D.IsOpen f n
      → But (λ m. text_eq m n) s t
      → Ends s (create_metadata F n meta t)
  unfolding create_metadata
  create_metadata-Ends n p meta f s t artifact is_open only =
      made (F.create_file (metadata_name n) t).0 refl
    where
      u : S
      u = (F.create_file (metadata_name n) t).1

      written :
          (c : F.Created)
          → D.IsCreated c (metadata_name n)
          → But (both D n) s u
          → (g : Result SnapshotError (Unit {0}) × S) → Fresh u g.1
          → Ends s (elim g.0 [
            | err e ↦ cleanup_after_metadata_error F meta (some c) e g.1
            | ok _ ↦ (ok (meta, c), g.1)
          ])
      written c is_created others (err e, v) fresh =
          cleanup_both-Undone D K (Made D s) meta c f p n e s v artifact is_open is_created
            (Without-still D (both D n) s u v others fresh)
      written c is_created others (ok x, v) fresh = record {
        filename = n;
        hive = f;
        path = p;
        artifact = artifact;
        is_open = is_open;
        is_created = is_created;
        others = Without-still D (both D n) s u v others fresh;
      }

      made :
          (r : Result StorageError F.Created)
          → (F.create_file (metadata_name n) t).0 ≡ r
          → Ends s (elim r [
            | err e ↦ cleanup_after_metadata_error F meta none (storage_error (F.storage_text e)) u
            | ok created ↦
                let (written, v) = write_metadata F created meta u in
                elim written [
                  | err e ↦ cleanup_after_metadata_error F meta (some created) e v
                  | ok _ ↦ (ok (meta, created), v)
                ]
          ])
      made (err e) h =
          cleanup_hive-Undone D K (Made D s) meta f p n t e s u artifact is_open h (λ m away free.
            K.not_created (metadata_name n) t e h m (ground (arith, away))
              (only m (ground (arith, away)) free))
      made (ok c) h =
          let (is_created, one) = K.created (metadata_name n) t c h in
          written c is_created
            (λ m away free. one m (ground (arith, away)) (only m (ground (arith, away)) free))
            (write_metadata F c meta u) (write_metadata-NoNew D K c meta u)

  -- What is captured is the file that the name opens.
  pub capture_artifact-open :
      (n p : Text)
      → Gives {S = S}
          (λ (c : F.File × (FileIdentity × Text)). D.IsOpen c.0 n)
          (capture_artifact F n p)
  unfolding capture_artifact
  capture_artifact-open n p =
      Gives-bind _ (with_error (λ e. storage_error (F.storage_text e)) (F.open_file n)) _
        (λ f s opened.
          let is_open =
            K.opened_as n s f
              (with_error_ok (λ e. storage_error (F.storage_text e)) (F.open_file n) s f opened) in
          Gives-bind _ (with_error (λ e. storage_error (F.storage_text e)) (F.file_identity f p)) _
            (λ identity _ _.
              Gives-bind _ (F.sha256_file f) _
                (λ digest _ _. Gives-pure _ (f, (identity, digest)) is_open)))

  pub capture_artifact-Fresh : (n p : Text) (s : S) → Fresh s (capture_artifact F n p s).1
  unfolding capture_artifact
  capture_artifact-Fresh n p s =
      NoNew-bind D K (with_error (λ e. storage_error (F.storage_text e)) (F.open_file n)) _
        (K.opened n)
        (λ f.
          NoNew-bind D K (with_error (λ e. storage_error (F.storage_text e)) (F.file_identity f p))
            _ (K.identified f p)
            (λ identity.
              NoNew-bind D K (F.sha256_file f) (λ digest s. (ok (f, (identity, digest)), s))
                (K.hashed f) (λ digest t m away free. free)))
        s

  -- What is described keeps the file that was captured.
  abbrev pub Keeps : Text → (F.File × (FileIdentity × Text) → Metadata F.File) → Type 0
  Keeps p describe =
      (c : F.File × (FileIdentity × Text)) → (describe c).protected_artifact ≡ some (c.0, p)

  pub record_hive-Ends :
      (n p : Text) (describe : F.File × (FileIdentity × Text) → Metadata F.File) (s t : S)
      → Keeps p describe
      → But (λ m. text_eq m n) s t
      → Ends s (record_hive F n p describe t)
  unfolding record_hive cleanup_after_post_save_error
  record_hive-Ends n p describe s t keeps only =
      captured (capture_artifact F n p t) (capture_artifact-Fresh n p t)
        (λ c e. (capture_artifact-open n p).holds t c e)
    where
      captured :
          (r : Result SnapshotError (F.File × (FileIdentity × Text)) × S)
          → Fresh t r.1
          → ((c : F.File × (FileIdentity × Text)) → r.0 ≡ ok c → D.IsOpen c.0 n)
          → Ends s (elim r.0 [
            | err e ↦ cleanup_after_post_save_error F n e r.1
            | ok c ↦ create_metadata F n (describe c) r.1
          ])
      captured (err e, u) fresh is_open =
          removed-Undone D K (Made D s) n e (post_save_cleanup_failed (F.error_text e)) s u
            (λ x. tt) (Without-still D (λ m. text_eq m n) s t u only fresh)
      captured (ok c, u) fresh is_open =
          create_metadata-Ends n p (describe c) c.0 s u (keeps c) (is_open c refl)
            (Without-still D (λ m. text_eq m n) s t u only fresh)

  pub save_hive-Ends :
      (subkey n p : Text) (describe : F.File × (FileIdentity × Text) → Metadata F.File) (s t : S)
      → Keeps p describe
      → F.child_path n ≡ ok p
      → Fresh s t
      → Ends s (save_hive F subkey n p describe t)
  unfolding save_hive cleanup_after_failed_save
  save_hive-Ends subkey n p describe s t keeps named fresh =
      opened (F.open_key subkey t)
        (Without-then D (λ m. false) s t (F.open_key subkey t).1 fresh (K.key_opened subkey t))
    where
      saved :
          (r : Result Text (Unit {0}) × S)
          → But (λ m. text_eq m n) s r.1
          → Ends s (elim r.0 [
            | err e ↦ cleanup_after_failed_save F n e r.1
            | ok _ ↦ record_hive F n p describe r.1
          ])
      saved (err e, u) only =
          removed-Undone D K (Made D s) n (registry_error e) (save_cleanup_failed e) s u (λ x. tt)
            only
      saved (ok x, u) only = record_hive-Ends n p describe s u keeps only

      opened :
          (r : Result Text F.Key × S)
          → Fresh s r.1
          → Ends s (
              continue
                (map_err registry_error r.0, r.1)
                (λ key s.
                  let (saved, t) = F.save_key key p s in
                  elim saved [
                    | err e ↦ cleanup_after_failed_save F n e t
                    | ok _ ↦ record_hive F n p describe t
                  ]))
      opened (err e, u) fresh = inr (inl fresh)
      opened (ok key, u) fresh = saved (F.save_key key p u) (
          Without-then D (λ m. text_eq m n) s u (F.save_key key p u).1
            (Without-widen D (λ m. text_eq m n) s u fresh) (K.saved key n p u named))

  pub capture-Ends :
      (subkey sid profile_path reason : Text) (s : S)
      → Ends s (capture F subkey sid profile_path reason s)
  unfolding capture
  capture-Ends subkey sid profile_path reason s = named (F.child_path n) refl
    where
      stamp : Stamp
      stamp = (F.now s).0

      t : S
      t = (F.now s).1

      n : Text
      n = snapshot_name F.process_id stamp sid

      u : S
      u = (F.open_file n t).1

      fresh : Fresh s u
      fresh = Without-then D (λ m. false) s t u (K.stamped s) (K.opened n t)

      free :
          (p : Text)
          → F.child_path n ≡ ok p
          → (r : Result SnapshotError (Unit {0}))
          → Ends s (elim r [
            | err e ↦ (err e, u)
            | ok _ ↦
                save_hive F subkey n p (metadata_of F subkey sid profile_path reason stamp n p) u
          ])
      free p h (err e) = inr (inl fresh)
      free p h (ok x) =
          save_hive-Ends subkey n p (metadata_of F subkey sid profile_path reason stamp n p) s u
            (λ c. refl) h fresh

      named :
          (r : Result StorageError Text)
          → F.child_path n ≡ r
          → Ends s (elim r [
            | err e ↦ (err (storage_error (F.storage_text e)), t)
            | ok path ↦
                let (opened, u) = F.open_file n t in
                elim (free_result F n opened) [
                  | err e ↦ (err e, u)
                  | ok _ ↦
                      save_hive F subkey n path
                        (metadata_of F subkey sid profile_path reason stamp n path)
                        u
                ]
          ])
      named (err e) h = inr (inl (K.stamped s))
      named (ok p) h = free p h (free_result F n (F.open_file n t).0)
