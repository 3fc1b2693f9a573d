-- ===== src/Audit/Snapshot/NoNew.antt =====
-- What the calls of a snapshot do with the files of the directory.
use win_profile.Base.{
  ◌≡◌, ◌⊎◌, inl, inr, refl, sym, subst, Bool, false, not, ◌&&◌, ◌||◌, Bool-cases, some, Result, ok,
  err, Text, text_eq, text_eq_iff, arith,
}
use win_profile.Audit.Journal.{StorageError}
use win_profile.Audit.Snapshot.{
  SnapshotError, storage_error, save_cleanup_failed, cleanup_failed, post_save_cleanup_failed,
  privilege_restore_cleanup_failed, operation_and_privilege_restore_failed, Metadata, Snapshots,
  metadata_name,
}

-- An error that says that files may be left.
abbrev pub IsCleanup : SnapshotError → Type 0
IsCleanup (save_cleanup_failed a b) = Unit {0}
IsCleanup (cleanup_failed a b) = Unit {0}
IsCleanup (post_save_cleanup_failed a b) = Unit {0}
IsCleanup (privilege_restore_cleanup_failed a b) = Unit {0}
IsCleanup _ = ⊥

-- How a state shows the directory: which names have a file, which of them are those of the lock's
-- own file `.storage.lock`, and what an open file and a created one stand for.
pub record Files {S : Type 0} (F : Snapshots S) : Type 1 where
  pub present : Text → S → Bool
  pub is_lock_name : Text → Bool
  pub IsOpen : F.File → Text → Type 0
  pub IsCreated : F.Created → Text → Type 0

module _ {S : Type 0} {F : Snapshots S} (D : Files F) where
  -- A file stands under the name, and it is not the lock's.
  abbrev pub exists : Text → S → Bool
  exists n s = not (D.is_lock_name n) && D.present n s

  -- The error, or the one that it has besides the failed restoration of the privileges.
  abbrev pub Carries : (SnapshotError → Type 0) → SnapshotError → Type 0
  Carries P e =
      P e
      ⊎ ((c : SnapshotError) × (r : Text) × P c
          × (e ≡ operation_and_privilege_restore_failed (F.error_text c) r))

  abbrev pub IsReported : SnapshotError → Type 0
  IsReported = Carries IsCleanup

  -- No file appears, but for those with these names.
  abbrev pub Without : (Text → Bool) → S → S → Type 0
  Without names s t = (m : Text) → names m ≡ false → exists m s ≡ false → exists m t ≡ false

  abbrev pub NoNew : S → S → Type 0
  NoNew s t = Without (λ m. false) s t

  -- The creation of a metadata file failed with this error, and no other file appeared: when the
  -- creation fails, its own deletion may fail too.
  pub record MetadataLeft (s t : S) (e : SnapshotError) : Type 0 where
    pub name : Text
    pub at : S
    pub reason : StorageError
    pub failed : (F.create_file (metadata_name name) at).0 ≡ err reason
    pub error : e ≡ storage_error (F.storage_text reason)
    pub others : Without (λ m. text_eq m (metadata_name name)) s t

  -- What the calls are documented to do with the directory's files but the lock's: only the save of
  -- a key and the creation of a file make one appear, the one that they name, also when they fail,
  -- and a removal that succeeds leaves none under the name of what it removes.
  pub record KeepsFiles : Type 0 where
    pub locked : (s : S) → NoNew s (F.acquire_lock s).1
    pub unlocked : (s : S) → NoNew s (F.release_lock s)
    pub enabled : (s : S) → NoNew s (F.new_privileges s).1
    pub restored : (s : S) → NoNew s (F.restore_privileges s).1
    pub stamped : (s : S) → NoNew s (F.now s).1
    pub opened : (n : Text) (s : S) → NoNew s (F.open_file n s).1
    pub opened_as : (n : Text) (s : S) (f : F.File) → (F.open_file n s).0 ≡ ok f → D.IsOpen f n
    pub key_opened : (k : Text) (s : S) → NoNew s (F.open_key k s).1
    pub saved :
        (key : F.Key) (n p : Text) (s : S)
        → F.child_path n ≡ ok p
        → Without (λ m. text_eq m n) s (F.save_key key p s).1
    pub identified : (f : F.File) (p : Text) (s : S) → NoNew s (F.file_identity f p s).1
    pub hashed : (f : F.File) (s : S) → NoNew s (F.sha256_file f s).1
    pub created :
        (n : Text) (s : S) (c : F.Created)
        → (F.create_file n s).0 ≡ ok c
        → D.IsCreated c n × Without (λ m. text_eq m n) s (F.create_file n s).1
    pub not_created :
        (n : Text) (s : S) (e : StorageError)
        → (F.create_file n s).0 ≡ err e
        → Without (λ m. text_eq m n) s (F.create_file n s).1
    pub written :
        (c : F.Created) (m : Metadata F.File) (s : S) → NoNew s (F.to_writer_pretty c m s).1
    pub flushed : (c : F.Created) (s : S) → NoNew s (F.flush c s).1
    pub synced : (c : F.Created) (s : S) → NoNew s (F.sync_all c s).1
    pub rolled_back : (c : F.Created) (s : S) → NoNew s (F.rollback c s).1
    pub rollback_gone :
        (c : F.Created) (n : Text) (s : S)
        → D.IsCreated c n
        → (F.rollback c s).0 ≡ ok tt
        → exists n (F.rollback c s).1 ≡ false
    pub deleted : (f : F.File) (p : Text) (s : S) → NoNew s (F.delete_open_file f p s).1
    pub delete_gone :
        (f : F.File) (n p : Text) (s : S)
        → D.IsOpen f n
        → (F.delete_open_file f p s).0 ≡ ok tt
        → exists n (F.delete_open_file f p s).1 ≡ false
    pub removed : (n : Text) (s : S) → NoNew s (F.remove_file_if_exists n s).1
    pub remove_gone :
        (n : Text) (s : S) (b : Bool)
        → (F.remove_file_if_exists n s).0 ≡ ok b
        → exists n (F.remove_file_if_exists n s).1 ≡ false

  pub Without-then :
      (names : Text → Bool) (s t u : S) → Without names s t → Without names t u → Without names s u
  Without-then names s t u a b m away h = b m away (a m away h)

  pub Without-widen : (names : Text → Bool) (s t : S) → NoNew s t → Without names s t
  Without-widen names s t a m away h = a m refl h

  pub Without-still :
      (names : Text → Bool) (s t u : S) → Without names s t → NoNew t u → Without names s u
  Without-still names s t u a b = Without-then names s t u a (Without-widen names t u b)

  -- A name that is free at the end needs no exception.
  pub Without-narrow :
      (names : Text → Bool) (n : Text) (s t : S)
      → Without (λ m. text_eq m n || names m) s t
      → exists n t ≡ false
      → Without names s t
  Without-narrow names n s t a gone m away h = elim (Bool-cases (text_eq m n)) [
    | inl same ↦ subst (λ k. exists k t ≡ false) (sym ((text_eq_iff m n).0 same)) gone
    | inr other ↦ a m (ground (arith, other, away)) h
  ]

  pub Without-one :
      (n : Text) (s t : S) → Without (λ m. text_eq m n) s t → exists n t ≡ false → NoNew s t
  Without-one n s t a gone =
      Without-narrow (λ m. false) n s t (λ m away h. a m (ground (arith, away)) h) gone

  -- How a part of a snapshot ends: with an error that is reported or no new file but metadata whose
  -- creation failed, or with what was made.
  abbrev pub Undone : {A : Type 0} → (A → S → Type 0) → S → Result SnapshotError A × S → Type 0
  Undone Q s (ok a, t) = Q a t
  Undone Q s (err e, t) = IsCleanup e ⊎ (NoNew s t ⊎ MetadataLeft s t e)

  pub MetadataLeft-then :
      (e : SnapshotError) (s t u : S) → MetadataLeft s t e → NoNew t u → MetadataLeft s u e
  MetadataLeft-then e s t u l a = record {
    name = l.name;
    at = l.at;
    reason = l.reason;
    failed = l.failed;
    error = l.error;
    others = Without-still (λ m. text_eq m (metadata_name l.name)) s t u l.others a;
  }

  pub MetadataLeft-before :
      (e : SnapshotError) (s t u : S) → NoNew s t → MetadataLeft t u e → MetadataLeft s u e
  MetadataLeft-before e s t u a l = record {
    name = l.name;
    at = l.at;
    reason = l.reason;
    failed = l.failed;
    error = l.error;
    others =
        Without-then (λ m. text_eq m (metadata_name l.name)) s t u
          (Without-widen (λ m. text_eq m (metadata_name l.name)) s t a) l.others;
  }

  -- The hive and its metadata.
  abbrev pub both : Text → Text → Bool
  both f m = text_eq m (metadata_name f) || text_eq m f

  pub record Made (s : S) (pair : Metadata F.File × F.Created) (t : S) : Type 0 where
    pub filename : Text
    pub hive : F.File
    pub path : Text
    pub artifact : pair.0.protected_artifact ≡ some (hive, path)
    pub is_open : D.IsOpen hive filename
    pub is_created : D.IsCreated pair.1 (metadata_name filename)
    pub others : Without (both filename) s t
