-- ===== src/Audit/Journal/Files.antt =====
-- What is documented of the storage that the journal writes to, in terms of the files' bytes.
use win_profile.Base.{
  ℕ, ◌≡◌, ◌≢◌, Bool, false, Option, none, some, List, [], ◌++◌, ok, err, Text, length,
}
use win_profile.Audit.Journal.{Storage, not_found, collision}

-- The bytes of each file, by name, the name of an open file, and the names that the lock's file
-- `.storage.lock` goes by, which stands in the same directory.
pub record FilesView {S : Type 0} (T : Storage S) : Type 0 where
  pub file : S → Text → Option (List ℕ)
  pub name_of : T.File → Text
  pub is_lock_name : Text → Bool

module _ {S : Type 0} {T : Storage S} (W : FilesView T) where
  open W use {file, name_of, is_lock_name}

  pub record SameFiles (s t : S) : Type 0 where
    pub files : (n : Text) → file t n ≡ file s n

  -- No file but the lock's differs.
  pub record SameButLock (s t : S) : Type 0 where
    pub files : (n : Text) → is_lock_name n ≡ false → file t n ≡ file s n

  -- Taking the lock may create its file.
  pub record LocksFaithfully : Type 0 where
    pub lock_keeps : (s : S) → SameButLock s (T.acquire_lock s).1
    pub release_keeps : (s : S) → SameButLock s (T.release_lock s)

  pub record StoresFaithfully : Type 0 where
    pub open_keeps : (n : Text) (s : S) → SameFiles s (T.open_file n s).1
    pub open_missing : (n : Text) (s : S) → (T.open_file n s).0 ≡ err not_found → file s n ≡ none
    pub open_ok :
        (n : Text) (s : S) (f : T.File)
        → (T.open_file n s).0 ≡ ok f
        → (name_of f ≡ n) × (file s n ≢ none)
    pub len_keeps : (f : T.File) (s : S) → SameFiles s (T.file_len f s).1
    pub len_ok :
        (f : T.File) (s : S) (k : ℕ) (c : List ℕ)
        → (T.file_len f s).0 ≡ ok k
        → file s (name_of f) ≡ some c
        → k ≡ length c
    pub create_ok :
        (n : Text) (s : S) (f : T.File)
        → (T.create_file n s).0 ≡ ok f
        → (name_of f ≡ n) × (file (T.create_file n s).1 n ≡ some [])
    -- A name that is taken is left as it is; any other failure may leave a file.
    pub create_taken :
        (n : Text) (s : S)
        → (T.create_file n s).0 ≡ err collision
        → SameFiles s (T.create_file n s).1
    pub append_ok :
        (f : T.File) (data_ c : List ℕ) (s : S) (u : Unit {0})
        → (T.append f data_ s).0 ≡ ok u
        → file s (name_of f) ≡ some c
        → file (T.append f data_ s).1 (name_of f) ≡ some (c ++ data_)
    pub rename_ok :
        (old new : Text) (s : S) (u : Unit {0})
        → (T.durable_rename old new s).0 ≡ ok u
        → old ≢ new
        → file (T.durable_rename old new s).1 old ≡ none
