-- ===== src/Tests/Transfers.antt =====
-- Runs of a migration: its validation, its copy and its rollback.
use win_profile.Base.{
  ℕ, ◌≡◌, ◌∙◌, refl, sym, ap, subst, true, false, List, [], ◌∷◌, ◌++◌, Option, none, some, Result,
  ok, err, Program, codes, text_eq, length, map, ascii_lower, if◌then◌else◌,
}
use win_profile.Profiles.Models.{MigrationPlan}
use win_profile.Profiles.DirectorySize.{join_path}
use win_profile.Platform.Registry.Api.{win32_error}
use win_profile.Migration.Errors.{SecureFsError, not_found, MigrationError}
use win_profile.Migration.Transaction.{MigrationReceipt, pop}
use win_profile.Migration.Transaction.Undo.{pop-last}
use win_profile.Migration.Copy.{
  Reads, end, chunk, Source, listed, nil, file, Target, copy_file_verified, copy_tree_verified,
  copy_items,
}
use win_profile.Migration.Copy.Grows.{entry_of}
use win_profile.Migration.Copy.Entries.{KeepsEntries}
use win_profile.Migration.Validation.{Places, ValidatedMigration}
use win_profile.Migration.Engine.Execute.{settle, execute_migration_with_cancel}
use win_profile.Migration.Engine.{
  Host, open_relative_directory_if_present, copy_found, copy_roots, finish_copy, warn_of_secrets,
  secrets_exist, copy_into, operation,
}
use win_profile.Migration.Engine.Kept.{KeepsJournal, IsClean}
use win_profile.Migration.Engine.Clean.{execute_migration_with_cancel-IsClean}
use win_profile.Migration.Engine.Selected.{receipt_of}
use win_profile.Migration.Engine.Receipt.{IsReceipted, execute_migration_with_cancel-receipt}

-- The entries that are there, and the bytes of the file that was created last.
record Disk : Type 0 where
  entries : List ℕ
  bytes : List ℕ

abbrev reads_of : List ℕ → Reads
reads_of bytes = chunk bytes end

unfoldable remove_last : Option (List ℕ × ℕ) → Program Disk SecureFsError (Unit {0})
remove_last none s = (err (not_found (codes "entry")), s)
remove_last (some (es, e)) s = (ok tt, record s { entries = es })

abbrev target : Target Disk
target = record {
  Directory = Unit {0};
  Output = Unit {0};
  Created = ℕ;
  hash = λ bytes. bytes;
  open_or_create_directory = λ d name s.
      (ok (tt, some (length s.entries)), record s { entries = s.entries ++ length s.entries ∷ [] });
  create_directory = λ d name s.
      (ok (tt, length s.entries), record s { entries = s.entries ++ length s.entries ∷ [] });
  create_file = λ d name s. (
    ok (tt, length s.entries),
    record { entries = s.entries ++ length s.entries ∷ []; bytes = [] },
  );
  write_all = λ output bytes s. (ok tt, record s { bytes = s.bytes ++ bytes });
  flush = λ output s. (ok tt, s);
  sync_all = λ output s. (ok tt, s);
  seek_start = λ output s. (ok tt, s);
  read_back = λ output s. (reads_of s.bytes, s);
  file_length = λ output s. (ok (length s.bytes), s);
  remove = λ e s. remove_last (pop s.entries) s;
  on_progress = λ p s. s;
  is_cancelled = λ s. (false, s);
}

abbrev present : Disk → List ℕ
present s = s.entries

target-KeepsEntries : KeepsEntries target present
unfolding remove_last
target-KeepsEntries = record {
  wrote = λ output bytes s. refl;
  flushed = λ output s. refl;
  synced = λ output s. refl;
  sought = λ output s. refl;
  measured = λ output s. refl;
  reread = λ output s. refl;
  asked = λ s. refl;
  progressed = λ p s. refl;
  created_file = λ d name s. refl;
  created_directory = λ d name s. refl;
  opened_directory = λ d name s. refl;
  removed = λ e es s same done.
      subst (λ o. (remove_last o s).1.entries ≡ es)
        (sym (ap pop same ∙ pop-last target.remove es e)) refl;
}

abbrev documents : Source
documents = listed (file (codes "a") (ok (reads_of (1 ∷ 2 ∷ []))) nil)

abbrev denied : Source
denied = listed (
    file (codes "a") (ok (reads_of (1 ∷ 2 ∷ [])))
      (file (codes "b") (err (not_found (codes "b"))) nil))

-- A profile with one folder.
abbrev host : Source → Host Disk target.Directory
host folder = record {
  find_child =
      λ source name. if text_eq name (codes "Documents") then ok folder else err (not_found name);
  overlaps = λ source d. false;
  as_bytes = λ t. t;
  secure_text = λ e. codes "error";
  error_text = λ e. codes "error";
  acquire_operation_guard = λ s. (ok tt, s);
  release_operation_guard = λ s. s;
  log = λ e s. (ok tt, s);
}

host-KeepsJournal : (folder : Source) → KeepsJournal target (host folder) present
host-KeepsJournal folder = record {
  logged = λ e s. refl;
  acquired = λ s. refl;
  guard_released = λ s. refl;
}

abbrev plan : MigrationPlan
plan = record {
  source_sid = codes "S-1-5-21-1001.bak";
  source_path = codes "C:\\Users\\a";
  target_path = codes "D:\\old\\a";
  include_roaming_appdata = false;
  include_personal_folders = true;
}

abbrev places : Source → Places Disk
places folder = record {
  Source = Source;
  Directory = Unit {0};
  lower = map ascii_lower;
  registry_text = λ e. codes "error";
  open_user_key = λ sid s. (err (win32_error 2), s);
  open_source = λ path s. (ok folder, s);
  open_directory = λ path s. (ok tt, s);
  is_within = λ parent source. false;
  child_exists = λ parent name s. (ok false, s);
}

abbrev validated : Source → ValidatedMigration Source (Unit {0})
validated folder = record {
  source_path = codes "C:\\Users\\a";
  target_path = codes "D:\\old\\a";
  source_directory = folder;
  target_parent = tt;
  target_leaf = codes "a";
}

abbrev empty_disk : Disk
empty_disk = record { entries = []; bytes = [] }

abbrev validate :
    Source → MigrationPlan → Program Disk MigrationError (ValidatedMigration Source (Unit {0}))
validate folder p s = (ok (validated folder), s)

abbrev counted : MigrationReceipt
counted =
    receipt_of target (host documents) (
      entry_of target.hash (join_path (codes "Documents") (codes "a")) (reads_of (1 ∷ 2 ∷ [])) ∷ [])

execute_runs :
    execute_migration_with_cancel target (host documents) (validate documents) plan empty_disk
    ≡ some (ok counted, record { entries = 0 ∷ 1 ∷ 2 ∷ []; bytes = 1 ∷ 2 ∷ [] })
unfolding execute_migration_with_cancel settle operation copy_into copy_roots
    open_relative_directory_if_present copy_found finish_copy secrets_exist warn_of_secrets
    copy_tree_verified copy_items copy_file_verified
execute_runs = refl

execute_migration_with_cancel-receipt_example :
    IsReceipted target (host documents) (validate documents) plan counted
execute_migration_with_cancel-receipt_example =
    execute_migration_with_cancel-receipt target (host documents) (validate documents) plan
      empty_disk (record { entries = 0 ∷ 1 ∷ 2 ∷ []; bytes = 1 ∷ 2 ∷ [] }) counted execute_runs

-- The second file cannot be opened.
execute_migration_with_cancel-IsClean_example :
    (r : Result MigrationError MigrationReceipt) × (t : Disk) × (execute_migration_with_cancel
        target
        (host denied)
        (validate denied)
        plan
        empty_disk
      ≡ some (r, t))
    × IsClean target (host denied) present r t
execute_migration_with_cancel-IsClean_example =
    execute_migration_with_cancel-IsClean target (host denied) present target-KeepsEntries
      (host-KeepsJournal denied) (validate denied) plan empty_disk (λ s. refl) refl
