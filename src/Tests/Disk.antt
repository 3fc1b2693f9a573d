-- ===== src/Tests/Disk.antt =====
-- A disk for the journal, and runs of the journal on it.
use win_profile.Base.{
  ℕ, refl, List, [], ◌++◌, Option, none, some, Result, ok, err, Text, codes, text_eq, text_eq_refl,
  length, arith, if◌then◌else◌,
}
use win_profile.Audit.Event.{success}
use win_profile.Audit.Journal.{Storage, StorageError, not_found, collision}
use win_profile.Audit.Journal.Files.{FilesView, LocksFaithfully, StoresFaithfully}

abbrev pub Disk : Type 0
Disk = Text → Option (List ℕ)

abbrev pub put : Disk → Text → Option (List ℕ) → Disk
put s n c = λ m. if text_eq m n then c else s m

abbrev pub created : Disk → Text → Option (List ℕ) → Result StorageError Text × Disk
created s n none = (ok n, put s n (some []))
created s n (some c) = (err collision, s)

abbrev pub opened : Text → Option (List ℕ) → Result StorageError Text
opened n none = err not_found
opened n (some c) = ok n

abbrev pub size : Option (List ℕ) → Result Text ℕ
size none = err (codes "gone")
size (some c) = ok (length c)

abbrev pub appended : Disk → Text → List ℕ → Option (List ℕ) → Result Text (Unit {0}) × Disk
appended s n data_ none = (err (codes "gone"), s)
appended s n data_ (some c) = (ok tt, put s n (some (c ++ data_)))

abbrev pub renamed : Disk → Text → Text → Option (List ℕ) → Result StorageError (Unit {0}) × Disk
renamed s old new none = (err not_found, s)
renamed s old new (some c) = (ok tt, put (put s new (some c)) old none)

abbrev pub lock_name : Text
lock_name = codes ".storage.lock"

-- An entry is written as its operation.
unfoldable pub disk : Storage Disk
disk = record {
  File = Text;
  acquire_lock = λ s. (ok tt, put s lock_name (some []));
  release_lock = λ s. s;
  open_file = λ n s. (opened n (s n), s);
  create_file = λ n s. created s n (s n);
  file_len = λ n s. (size (s n), s);
  read_lines = λ n s. (ok [], s);
  append = λ n data_ s. appended s n data_ (s n);
  remove_file_if_exists = λ n s. (ok tt, put s n none);
  durable_rename = λ old new s. renamed s old new (s old);
  now = λ s. 0;
  to_json = λ e. ok e.operation;
  from_json = λ line. ok (record {
    timestamp = 0;
    operation = line;
    actor = [];
    target = [];
    status = success;
    details = [];
  });
}

unfoldable pub files : FilesView disk
unfolding disk
files = record { file = λ s n. s n; name_of = λ n. n; is_lock_name = λ n. text_eq n lock_name }

pub locks : LocksFaithfully files
unfolding disk files
locks = record {
  lock_keeps = λ s. record { files = λ n other. ground (arith, other) };
  release_keeps = λ s. record { files = λ n other. refl };
}

pub stores : StoresFaithfully files
unfolding disk files
stores = record {
  open_keeps = λ n s. record { files = λ m. refl };
  open_missing = λ n s e. ground arith;
  open_ok = λ n s f e. ground arith;
  len_keeps = λ f s. record { files = λ m. refl };
  len_ok = λ f s k c e there. ground arith;
  create_ok = λ n s f e. ground (arith, text_eq_refl n);
  create_taken = λ n s failed. record { files = λ m. ground arith };
  append_ok = λ f data_ c s u e there. ground (arith, text_eq_refl f);
  rename_ok = λ old new s u e differ. ground (arith, text_eq_refl old);
}
