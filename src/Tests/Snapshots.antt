-- ===== src/Tests/Snapshots.antt =====
-- Runs of the snapshot engine on a directory.
use win_profile.Base.{
  ℕ, ◌≡◌, inl, inr, refl, subst, Bool, true, false, not, ◌&&◌, Bool-cases, All, [], ◌∷◌, none, some,
  Result, ok, err, Text, codes, text_eq, text_eq_refl, if◌then◌else◌, arith,
}
use win_profile.Audit.Journal.{StorageError, not_found}
use win_profile.Audit.Snapshot.Create.{create_registry_snapshot}
use win_profile.Audit.Snapshot.{io_error, Metadata, Snapshots}
use win_profile.Audit.Snapshot.NoNew.{Files, KeepsFiles}
use win_profile.Audit.Snapshot.Undone.{Leaves, create_registry_snapshot-Leaves}
use win_profile.Audit.Snapshot.Inventory.{list_snapshots}
use win_profile.Audit.Snapshot.Inventory.Genuine.{
  IsGenuine, IsNewestFirst, list_snapshots-IsGenuine,
}

-- The state says which names have a file.
abbrev Names : Type 0
Names = Text → Bool

abbrev put : Text → Names → Names
put p s m = if text_eq m p then true else s m

abbrev take_away : Text → Names → Names
take_away p s m = if text_eq m p then false else s m

abbrev kept : Metadata Text
kept = record {
  id = codes "1";
  timestamp = 5;
  sid = codes "S-1";
  profile_path = codes "C:\\p";
  registry_key_path = codes "HKLM\\k";
  snapshot_file_name = codes "a.hiv";
  sha256 = codes "d";
  file_volume_serial = 1;
  file_index = 2;
  reason = codes "r";
  protected_artifact = none;
}

unfoldable opened_file : Bool → Text → Result StorageError Text
opened_file true n = ok n
opened_file false n = err not_found

abbrev lock_name : Text
lock_name = codes ".storage.lock"

-- The metadata cannot be flushed.
abbrev directory : Snapshots Names
directory = record {
  File = Text;
  Created = Text;
  Key = ℕ;
  process_id = 1;
  storage_text = λ e. codes "storage";
  error_text = λ e. codes "error";
  acquire_lock = λ s. (ok tt, put lock_name s);
  release_lock = λ s. s;
  new_privileges = λ s. (ok tt, s);
  restore_privileges = λ s. (ok tt, s);
  now = λ s. (record { timestamp = 7; text = codes "t"; sequence = 0 }, s);
  child_path = λ n. ok n;
  open_file = λ n s. (opened_file (s n) n, s);
  open_key = λ k s. (ok 1, s);
  save_key = λ key p s. (ok tt, put p s);
  file_identity = λ f p s. (ok record { volume_serial = 1; file_index = 2 }, s);
  sha256_file = λ f s. (ok (codes "d"), s);
  create_file = λ n s. (ok n, put n s);
  to_writer_pretty = λ c m s. (ok tt, s);
  flush = λ c s. (err (codes "full"), s);
  sync_all = λ c s. (ok tt, s);
  commit = λ c s. s;
  rollback = λ c s. (ok tt, take_away c s);
  delete_open_file = λ f p s. (ok tt, take_away f s);
  remove_file_if_exists = λ n s. (ok true, take_away n s);
  entries = λ s. (ok (none ∷ some (codes "a.hiv.json") ∷ some (codes "a.hiv") ∷ []), s);
  from_reader = λ f s. (ok kept, s);
}

-- What the directory shows besides the lock's file.
abbrev shown : Text → Names → Bool
shown m s = not (text_eq m lock_name) && s m

lock-NoNew : (s : Names) (m : Text) → shown m s ≡ false → shown m (put lock_name s) ≡ false
lock-NoNew s m free = elim (Bool-cases (text_eq m lock_name)) [
  | inl e ↦ ground (arith, e)
  | inr e ↦ ground (arith, e, free)
]

take_away-NoNew :
    (p : Text) (s : Names) (m : Text) → shown m s ≡ false → shown m (take_away p s) ≡ false
take_away-NoNew p s m free = elim (Bool-cases (text_eq m p)) [
  | inl e ↦ ground (arith, e)
  | inr e ↦ ground (arith, e, free)
]

take_away-gone : (p : Text) (s : Names) → shown p (take_away p s) ≡ false
take_away-gone p s = ground (arith, text_eq_refl p)

put-others :
    (p : Text) (s : Names) (m : Text)
    → text_eq m p ≡ false
    → shown m s ≡ false
    → shown m (put p s) ≡ false
put-others p s m away free = ground (arith, away, free)

opened_file-name : (b : Bool) (n f : Text) → opened_file b n ≡ ok f → f ≡ n
unfolding opened_file
opened_file-name true n f h = ground arith
opened_file-name false n f h = cc

abbrev names_of : Files directory
names_of = record {
  present = λ n s. s n;
  is_lock_name = λ n. text_eq n lock_name;
  IsOpen = λ f n. f ≡ n;
  IsCreated = λ c n. c ≡ n;
}

directory-KeepsFiles : KeepsFiles names_of
directory-KeepsFiles = record {
  locked = λ s m away free. lock-NoNew s m free;
  unlocked = λ s m away free. free;
  enabled = λ s m away free. free;
  restored = λ s m away free. free;
  stamped = λ s m away free. free;
  opened = λ n s m away free. free;
  opened_as = λ n s f h. opened_file-name (s n) n f h;
  key_opened = λ k s m away free. free;
  saved = λ key n p s named m away free.
      let same : n ≡ p = ground arith in
      subst (λ q. shown m (put q s) ≡ false) same (put-others n s m away free);
  identified = λ f p s m away free. free;
  hashed = λ f s m away free. free;
  created = λ n s c made.
      ((let same : c ≡ n = ground arith in same), λ m away free. put-others n s m away free);
  not_created = λ n s e failed m away free. absurd (ground arith);
  written = λ c m s k away free. free;
  flushed = λ c s m away free. free;
  synced = λ c s m away free. free;
  rolled_back = λ c s m away free. take_away-NoNew c s m free;
  rollback_gone =
      λ c n s same done. subst (λ k. shown k (take_away c s) ≡ false) same (take_away-gone c s);
  deleted = λ f p s m away free. take_away-NoNew f s m free;
  delete_gone =
      λ f n p s same done. subst (λ k. shown k (take_away f s) ≡ false) same (take_away-gone f s);
  removed = λ n s m away free. take_away-NoNew n s m free;
  remove_gone = λ n s b done. take_away-gone n s;
}

abbrev no_names : Names
no_names n = false

snapshot_runs :
    (create_registry_snapshot directory
      (codes "k")
      (codes "S:1")
      (codes "C:\\p")
      (codes "r")
      no_names).0
    ≡ err (io_error (codes "full"))
unfolding create_registry_snapshot opened_file
snapshot_runs = refl

create_registry_snapshot-Leaves_example : Leaves names_of directory-KeepsFiles no_names (
    create_registry_snapshot directory
      (codes "k")
      (codes "S:1")
      (codes "C:\\p")
      (codes "r")
      no_names)
create_registry_snapshot-Leaves_example =
    create_registry_snapshot-Leaves names_of directory-KeepsFiles (codes "k") (codes "S:1")
      (codes "C:\\p") (codes "r") no_names

abbrev all_names : Names
all_names n = true

list_runs : (list_snapshots directory all_names).0 ≡ ok (kept ∷ [])
unfolding list_snapshots opened_file
list_runs = refl

list_snapshots-IsGenuine_example : All (IsGenuine directory) (kept ∷ []) × IsNewestFirst (kept ∷ [])
list_snapshots-IsGenuine_example =
    list_snapshots-IsGenuine directory all_names (kept ∷ []) list_runs
