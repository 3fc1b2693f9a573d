-- ===== src/Migration/Copy.antt =====
-- The verified copy of crates/core-profiles/src/migration.rs: `copy_tree_verified` and
-- `copy_file_verified`, over the tree that the source directories show.
pub mod Stable
pub mod Grows
pub mod Manifest
pub mod Entries
use win_profile.Base.{
  ℕ, ◌+◌, Bool, true, false, not, ◌||◌, List, [], ◌∷◌, ◌++◌, Option, none, some, Result, ok, err,
  Program, pure, raise, lift, map_err, ◌>>=◌, ◌>>◌, with_error, raise_if, Text, length, text_eq,
  ◌==◌, if◌then◌else◌,
}
use win_profile.Profiles.DirectorySize.{saturating_add, join_path}
use win_profile.Migration.Errors.{
  SecureFsError, MigrationError, cancelled, verification_failed, io_error, map_secure_error,
}
use win_profile.Migration.Transaction.{
  ManifestEntry, CopyTransaction, completed_files, copied_bytes, observe_copy,
  display_relative_path,
}

-- What the reads of an open file give, in order, up to the one that gives no byte.
pub data Reads : Type 0 where
  end : Reads
  failed : Text → Reads
  chunk : List ℕ → Reads → Reads

-- A source directory, by what its calls give: its entries, and each entry opened.
mutual
  pub data Source : Type 0 where
    unlisted : SecureFsError → Source
    listed : Items → Source

  pub data Items : Type 0 where
    nil : Items
    file : Text → Result SecureFsError Reads → Items → Items
    denied_directory : Text → SecureFsError → Items → Items
    directory : Text → Source → Items → Items

pub data MigrationPhase : Type 0 where
  enumerating copying verifying finalizing rolling_back : MigrationPhase

pub record MigrationProgress : Type 0 where
  pub phase : MigrationPhase
  pub relative_path : Option Text
  pub completed_files : ℕ
  pub copied_bytes : ℕ

-- The calls that write, the callbacks of the caller, and the SHA-256 of bytes in hexadecimal digits.
pub record Target (S : Type 0) : Type 1 where
  pub Directory : Type 0
  pub Output : Type 0
  pub Created : Type 0
  pub hash : List ℕ → Text
  pub open_or_create_directory :
      Directory → Text → Program S SecureFsError (Directory × Option Created)
  pub create_directory : Directory → Text → Program S SecureFsError (Directory × Created)
  pub create_file : Directory → Text → Program S SecureFsError (Output × Created)
  pub write_all : Output → List ℕ → Program S Text (Unit {0})
  pub flush : Output → Program S Text (Unit {0})
  pub sync_all : Output → Program S Text (Unit {0})
  pub seek_start : Output → Program S Text (Unit {0})
  pub read_back : Output → S → Reads × S
  pub file_length : Output → Program S Text ℕ
  pub remove : Created → Program S SecureFsError (Unit {0})
  pub on_progress : MigrationProgress → S → S
  pub is_cancelled : S → Bool × S

module _ {S : Type 0} (T : Target S) where
  open T use {Directory, Output, Created}

  -- The transaction stands beside the state, and an error keeps both.
  abbrev pub Copying : Type 0 → Type 0
  Copying A = Program (S × CopyTransaction Created) MigrationError A

  abbrev pub on_state : {E A : Type 0} → (E → MigrationError) → Program S E A → Copying A
  on_state f m (s, t) = let (r, s') = m s in (map_err f r, (s', t))

  abbrev pub change : (CopyTransaction Created → CopyTransaction Created) → Copying (Unit {0})
  change f (s, t) = (ok tt, (s, f t))

  abbrev pub report : (CopyTransaction Created → MigrationProgress) → Copying (Unit {0})
  report f (s, t) = (ok tt, (T.on_progress (f t) s, t))

  abbrev pub created_entry : Created → CopyTransaction Created → CopyTransaction Created
  created_entry e t = record t { created_entries = t.created_entries ++ e ∷ [] }

  abbrev pub created_if_any : Option Created → CopyTransaction Created → CopyTransaction Created
  created_if_any none t = t
  created_if_any (some e) t = created_entry e t

  -- `if is_cancelled() { return Err(MigrationError::Cancelled); }`
  unfoldable pub check_cancelled : Copying (Unit {0})
  check_cancelled (s, t) = let (c, s') = T.is_cancelled s in raise_if c cancelled (s', t)

  abbrev pub progress_of : MigrationPhase → Text → ℕ → CopyTransaction Created → MigrationProgress
  progress_of phase relative_path bytes t = record {
    phase = phase;
    relative_path = some (display_relative_path relative_path);
    completed_files = completed_files t;
    copied_bytes = bytes;
  }

  -- The loop of `copy_file_verified`: the bytes so far go to the hash, their count is held at the
  -- largest `u64`.
  unfoldable pub copy_reads : Output → Text → ℕ → Reads → ℕ → List ℕ → Copying (ℕ × List ℕ)
  unfolding check_cancelled observe_copy saturating_add
  copy_reads output relative_path completed_bytes end copied seen = do
    check_cancelled
    pure (copied, seen)
  copy_reads output relative_path completed_bytes (failed e) copied seen = do
    check_cancelled
    raise (io_error e)
  copy_reads output relative_path completed_bytes (chunk bytes reads) copied seen =
      let copied' = saturating_add copied (length bytes) in
      let observed = saturating_add completed_bytes copied' in
      do
        check_cancelled
        on_state io_error (T.write_all output bytes)
        change (λ t. observe_copy t relative_path observed)
        report (progress_of copying relative_path observed)
        copy_reads output relative_path completed_bytes reads copied' (seen ++ bytes)

  -- `sha256_file`
  unfoldable pub hash_reads : Reads → List ℕ → Copying Text
  unfolding check_cancelled
  hash_reads end seen = do check_cancelled; pure (T.hash seen)
  hash_reads (failed e) seen = do check_cancelled; raise (io_error e)
  hash_reads (chunk bytes reads) seen = do check_cancelled; hash_reads reads (seen ++ bytes)

  -- The operand behind `||`, which is reached only if the hashes are equal.
  unfoldable pub check_length : Output → Text → ℕ → Copying (Unit {0})
  check_length output relative_path copied = do
    len ← on_state io_error (T.file_length output)
    raise_if (not (copied == len)) (verification_failed relative_path)

  -- The second half: the file is forced to the disk, read again and compared.
  unfoldable pub verify_copy : Output → Text → ℕ → List ℕ → Copying (Unit {0})
  unfolding hash_reads check_length
  verify_copy output relative_path copied seen = do
    check_cancelled
    on_state io_error (T.flush output)
    on_state io_error (T.sync_all output)
    on_state io_error (T.seek_start output)
    report (λ t. progress_of verifying relative_path (copied_bytes t) t)
    destination_sha ← (λ w. let (reads, s) = T.read_back output w.0 in hash_reads reads [] (s, w.1))
    (if text_eq (T.hash seen) destination_sha
        then check_length output relative_path copied
        else raise (verification_failed relative_path))

  -- What the manifest has of a file.
  abbrev pub file_entry : Text → ℕ × List ℕ → ManifestEntry
  file_entry relative_path copied = record {
    relative_path = display_relative_path relative_path;
    size = copied.0;
    sha256 = T.hash copied.1;
  }

  abbrev pub with_entry : ManifestEntry → CopyTransaction Created → CopyTransaction Created
  with_entry e t = record t { manifest = t.manifest ++ e ∷ [] }

  unfoldable pub verify_and_record : Output → Text → ℕ × List ℕ → Copying (Unit {0})
  unfolding verify_copy display_relative_path
  verify_and_record output relative_path copied = do
    verify_copy output relative_path copied.0 copied.1
    change (with_entry (file_entry relative_path copied))

  unfoldable pub copy_contents : Output → Text → Reads → ℕ → Copying (Unit {0})
  unfolding copy_reads verify_and_record
  copy_contents output relative_path input completed_bytes = do
    copied ← copy_reads output relative_path completed_bytes input 0 []
    verify_and_record output relative_path copied

  unfoldable pub copy_created : Text → Reads → Output × Created → Copying (Unit {0})
  unfolding copy_contents copied_bytes
  copy_created relative_path input created = do
    change (created_entry created.1)
    (λ w. copy_contents created.0 relative_path input (copied_bytes w.1) w)

  unfoldable pub copy_file_verified :
      Directory → Text → Text → Result SecureFsError Reads → Copying (Unit {0})
  unfolding copy_created map_secure_error
  copy_file_verified destination name relative_path opened = do
    input ← lift (map_err map_secure_error opened)
    created ← on_state map_secure_error (T.create_file destination name)
    copy_created relative_path input created

  unfoldable mutual
    unfolding copy_file_verified join_path map_secure_error

    pub copy_tree_verified : Source → Directory → Text → Copying (Unit {0})
    copy_tree_verified (unlisted e) destination relative_directory = raise (map_secure_error e)
    copy_tree_verified (listed items) destination relative_directory =
        copy_items items destination relative_directory

    pub copy_items : Items → Directory → Text → Copying (Unit {0})
    copy_items nil destination relative_directory = pure tt
    copy_items (file name opened items) destination relative_directory = do
      check_cancelled
      copy_file_verified destination name (join_path relative_directory name) opened
      copy_items items destination relative_directory
    copy_items (denied_directory name e items) destination relative_directory = do
      check_cancelled
      raise (map_secure_error e)
    copy_items (directory name source items) destination relative_directory = do
      check_cancelled
      child ← on_state map_secure_error (T.open_or_create_directory destination name)
      change (created_if_any child.1)
      copy_tree_verified source child.0 (join_path relative_directory name)
      copy_items items destination relative_directory
