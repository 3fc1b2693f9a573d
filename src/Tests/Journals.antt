-- ===== src/Tests/Journals.antt =====
-- Runs of the journal on the disk.
use win_profile.Base.{
  ℕ, ◌≡◌, ◌≢◌, refl, true, false, List, [], ◌∷◌, ◌++◌, none, some, Result, ok, err, Text, codes,
  arith, trim, trim_end_matches, trim_start_matches, decimal,
}
use win_profile.Audit.Event.{success, Event, AuditEntry}
use win_profile.Profiles.DirectorySize.{saturating_add}
use win_profile.Audit.Journal.{
  AuditLogger, Memory, log, log_encoded, log_line, entry_of, load_lines, remember, with_lock,
  write_entry, rotate_if_needed, current_bytes, current_length, open_optional, open_log_for_append,
  push_recent, archive_name, move_archives, move_archive, move_log, validate_optional_file,
}
use win_profile.Audit.Journal.Files.{SameButLock}
use win_profile.Audit.Journal.Bounds.{IsWritten}
use win_profile.Audit.Journal.Durable.{log-IsWritten, log-poisoned}
use win_profile.Audit.Journal.Recent.{last_n, log-last_n}
use win_profile.Tests.Disk.{Disk, disk, files, locks, stores}

abbrev logger : AuditLogger
logger = record {
  log_file_name = codes "log";
  max_memory_entries = 2;
  max_log_bytes = 8;
  max_archives = 2;
}

abbrev happened : Event
happened = record {
  operation = codes "abc";
  actor = [];
  target = [];
  status = success;
  details = [];
}

-- The log has 6 bytes, so that an entry of 4 rotates it.
abbrev full : Disk
full n = elim n [
  | [] ↦ none
  | _ ∷ rest ↦ elim rest [
    | [] ↦ none
    | _ ∷ more ↦ elim more [
      | [] ↦ none
      | _ ∷ last ↦ elim last [ [] ↦ some (codes "abcdef") | _ ∷ _ ↦ none ]
    ]
  ]
]

abbrev shown : ℕ → AuditEntry
shown n = record {
  timestamp = n;
  operation = codes "x";
  actor = [];
  target = [];
  status = success;
  details = [];
}

abbrev history : List AuditEntry
history = shown 1 ∷ shown 2 ∷ shown 3 ∷ []

abbrev memory : Memory
memory = record { entries = shown 2 ∷ shown 3 ∷ []; poisoned = false }

log_runs : (log disk logger happened (full, memory)).0 ≡ ok tt
unfolding disk log log_encoded log_line remember with_lock write_entry rotate_if_needed
    current_bytes current_length open_optional open_log_for_append archive_name move_archives
    move_archive move_log validate_optional_file saturating_add push_recent decimal
log_runs = refl

log-IsWritten_example :
    (line : List ℕ) × (disk.to_json (entry_of happened (disk.now full)) ≡ ok line)
    × IsWritten files stores logger line (log disk logger happened (full, memory)).1.0
log-IsWritten_example =
    log-IsWritten files locks stores logger happened full memory tt (unfold files in refl)
      (ground arith) log_runs

log-poisoned_example :
    ((log disk logger happened (full, record memory { poisoned = true })).0 ≢ ok tt)
    × (SameButLock files full
          (log disk logger happened (full, record memory { poisoned = true })).1.0
        × ((log disk logger happened (full, record memory { poisoned = true })).1.1
            ≡ record memory { poisoned = true }))
log-poisoned_example =
    log-poisoned files locks logger happened full (record memory { poisoned = true }) refl

log-last_n_example :
    (log disk logger happened (full, memory)).1.1.entries
    ≡ last_n 2 (
        history ++ (elim (log disk logger happened (full, memory)).0 [
          | ok _ ↦ entry_of happened (disk.now full) ∷ []
          | err _ ↦ []
        ]))
log-last_n_example = log-last_n disk logger happened full memory history refl

abbrev lines : List (Result Text Text)
lines = ok (codes "a") ∷ ok (codes " ") ∷ ok (codes "b") ∷ ok (codes "c") ∷ []

abbrev read : Text → AuditEntry
read line = record {
  timestamp = 0;
  operation = line;
  actor = [];
  target = [];
  status = success;
  details = [];
}

load_lines_runs :
    load_lines disk 2 0 (last_n 2 []) lines ≡ ok (read (codes "b") ∷ read (codes "c") ∷ [])
unfolding disk load_lines push_recent trim trim_end_matches trim_start_matches
load_lines_runs = refl
