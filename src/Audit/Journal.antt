-- ===== src/Audit/Journal.antt =====
-- The journal of crates/audit-journal/src/journal.rs: a bounded log file with archives, and the
-- recent entries in memory. The storage, the clock and the JSON encoding are parameters.
pub mod Files
pub mod Recent
pub mod Bounds
pub mod Durable
use win_profile.Base.{
  ℕ, zero, suc, ◌+◌, Bool, true, false, not, ◌&&◌, List, [], ◌∷◌, ◌++◌, Option, none, some, Result,
  ok, err, Program, pure, raise, lift, continue, ◌>>=◌, ◌>>◌, with_error, map_err, raise_if, Text,
  codes, decimal, trim, is_empty, length, reverse, ltb, leb, ◌==◌, if◌then◌else◌,
}
use win_profile.Audit.Event.{AuditStatus, Event, AuditEntry}
use win_profile.Profiles.DirectorySize.{saturating_add}

-- `StorageError`, as far as the journal tells its cases apart.
pub data StorageError : Type 0 where
  not_found : StorageError
  collision : StorageError
  other_error : Text → StorageError

-- `AuditError`
pub data AuditError : Type 0 where
  io : Text → AuditError
  serialization : Text → AuditError
  buffer_poisoned : AuditError
  invalid_entry : ℕ → Text → AuditError
  invalid_configuration : Text → AuditError
  entry_too_large : ℕ → ℕ → AuditError
  storage_error : StorageError → AuditError

-- The calls of `StorageRoot` and `File` over a state `S`, the clock and serde. `append` is the
-- seek to the end, the write of a line, the flush and `sync_data`.
pub record Storage (S : Type 0) : Type 1 where
  pub File : Type 0
  pub acquire_lock : Program S StorageError (Unit {0})
  pub release_lock : S → S
  pub open_file : Text → Program S StorageError File
  pub create_file : Text → Program S StorageError File
  pub file_len : File → Program S Text ℕ
  pub read_lines : File → Program S Text (List (Result Text Text))
  pub append : File → List ℕ → Program S Text (Unit {0})
  pub remove_file_if_exists : Text → Program S StorageError (Unit {0})
  pub durable_rename : Text → Text → Program S StorageError (Unit {0})
  pub now : S → ℕ
  pub to_json : AuditEntry → Result Text (List ℕ)
  pub from_json : Text → Result Text AuditEntry

-- The fields of `AuditLogger` that do not change.
pub record AuditLogger : Type 0 where
  pub log_file_name : Text
  pub max_memory_entries : ℕ
  pub max_log_bytes : ℕ
  pub max_archives : ℕ

-- The shared buffer, oldest entry first, and whether its mutex is poisoned.
pub record Memory : Type 0 where
  pub entries : List AuditEntry
  pub poisoned : Bool

abbrev pub line_end : ℕ
line_end = 10

unfoldable pub archive_name : Text → ℕ → Text
unfolding decimal
archive_name file_name index = file_name ++ (codes "." ++ decimal index)

pop_front : List AuditEntry → List AuditEntry
pop_front [] = []
pop_front (e ∷ es) = es

-- The bounded buffer's update.
unfoldable pub push_recent : ℕ → List AuditEntry → AuditEntry → List AuditEntry
unfolding pop_front
push_recent max_memory entries entry =
    let kept =
      if ltb 0 max_memory && leb max_memory (length entries) then pop_front entries else entries in
    if ltb 0 max_memory then kept ++ entry ∷ [] else kept

abbrev pub entry_of : Event → ℕ → AuditEntry
entry_of e now = record {
  timestamp = now;
  operation = e.operation;
  actor = e.actor;
  target = e.target;
  status = e.status;
  details = e.details;
}

-- The two checks that `with_limits` and `build` make.
unfoldable pub validate_limits : ℕ → ℕ → Result AuditError (Unit {0})
validate_limits max_log_bytes max_archives =
    if max_log_bytes == 0
    then err (invalid_configuration (codes "maximum log size must be greater than zero"))
    else if max_archives == 0
    then err (invalid_configuration (codes "at least one archive must be retained"))
    else ok tt

module _ {S : Type 0} (T : Storage S) where
  open T use {File}

  abbrev pub Stored : Type 0 → Type 0
  Stored A = Program S AuditError A

  -- The lines of a file, numbered, into the bounded buffer.
  unfoldable pub load_lines :
      ℕ → ℕ → List AuditEntry → List (Result Text Text) → Result AuditError (List AuditEntry)
  unfolding push_recent trim
  load_lines max_memory index entries [] = ok entries
  load_lines max_memory index entries (err e ∷ lines) = err (io e)
  load_lines max_memory index entries (ok line ∷ lines) =
      if is_empty (trim line)
      then load_lines max_memory (index + 1) entries lines
      else (elim (T.from_json line) [
        | err reason ↦ err (invalid_entry (index + 1) reason)
        | ok entry ↦ load_lines max_memory (index + 1) (push_recent max_memory entries entry) lines
      ])

  -- `match storage.open_file(..)`: a missing file is `none`.
  unfoldable pub open_optional : Text → Stored (Option File)
  open_optional name s =
      let (opened, s') = T.open_file name s in
      (
        elim opened [
          | ok file ↦ ok (some file)
          | err not_found ↦ ok none
          | err collision ↦ err (storage_error collision)
          | err (other_error e) ↦ err (storage_error (other_error e))
        ],
        s',
      )

  unfoldable pub load_from : ℕ → Option File → Stored (List AuditEntry)
  unfolding load_lines
  load_from max_memory none = pure []
  load_from max_memory (some file) = do
    lines ← with_error io (T.read_lines file)
    lift (load_lines max_memory 0 [] lines)

  unfoldable pub load_recent_entries : Text → ℕ → Stored (List AuditEntry)
  load_recent_entries file_name max_memory = do
    file ← open_optional file_name
    load_from max_memory file

  -- What runs under the storage lock, which is released at the end.
  unfoldable pub with_lock :
      {A : Type 0} → Result StorageError (Unit {0}) × S → Stored A → Result AuditError A × S
  with_lock (err e, s) m = (err (storage_error e), s)
  with_lock (ok _, s) m = let (r, t) = m s in (r, T.release_lock t)

  unfoldable pub build : AuditLogger → Stored Memory
  unfolding validate_limits with_lock
  build logger = do
    lift (validate_limits logger.max_log_bytes logger.max_archives)
    entries ← (λ s.
        with_lock (T.acquire_lock s)
          (load_recent_entries logger.log_file_name logger.max_memory_entries))
    pure (record { entries = entries; poisoned = false })

  is_there : Option File → Bool
  is_there none = false
  is_there (some file) = true

  unfoldable pub validate_optional_file : Text → Stored Bool
  unfolding is_there
  validate_optional_file name = do file ← open_optional name; pure (is_there file)

  unfoldable pub move_archive : AuditLogger → ℕ → Stored (Unit {0})
  move_archive logger index = do
    exists ← validate_optional_file (archive_name logger.log_file_name index)
    (if not exists
        then pure tt
        else if index == logger.max_archives
        then with_error storage_error
            (T.remove_file_if_exists (archive_name logger.log_file_name index))
        else with_error storage_error (
            T.durable_rename (archive_name logger.log_file_name index)
              (archive_name logger.log_file_name (index + 1))))

  -- The archives from `n` down to 1.
  unfoldable pub move_archives : AuditLogger → ℕ → Stored (Unit {0})
  move_archives logger zero = pure tt
  move_archives logger (suc n) = do move_archive logger (suc n); move_archives logger n

  unfoldable pub move_log : AuditLogger → Stored (Unit {0})
  move_log logger = do
    exists ← validate_optional_file logger.log_file_name
    (if exists
        then with_error storage_error
            (T.durable_rename logger.log_file_name (archive_name logger.log_file_name 1))
        else pure tt)

  unfoldable pub current_length : Option File → Stored ℕ
  current_length none = pure 0
  current_length (some file) = with_error io (T.file_len file)

  -- A missing log has 0 bytes.
  unfoldable pub current_bytes : Text → Stored ℕ
  current_bytes name = do file ← open_optional name; current_length file

  unfoldable pub rotate_if_needed : AuditLogger → ℕ → Stored (Unit {0})
  unfolding saturating_add
  rotate_if_needed logger additional_bytes = do
    bytes ← current_bytes logger.log_file_name
    (if leb (saturating_add bytes additional_bytes) logger.max_log_bytes
        then pure tt
        else (do move_archives logger logger.max_archives; move_log logger))

  -- `create_file`, and `open_file` if the name is taken.
  unfoldable pub open_log_for_append : AuditLogger → Stored File
  open_log_for_append logger s =
      let (created, s') = T.create_file logger.log_file_name s in
      elim created [
        | ok file ↦ (ok file, s')
        | err collision ↦ with_error storage_error (T.open_file logger.log_file_name) s'
        | err not_found ↦ (err (storage_error not_found), s')
        | err (other_error e) ↦ (err (storage_error (other_error e)), s')
      ]

  -- The durable part of `log`, under the storage lock.
  unfoldable pub write_entry : AuditLogger → Bool → List ℕ → Stored (Unit {0})
  write_entry logger poisoned json_line = do
    raise_if poisoned buffer_poisoned
    rotate_if_needed logger (length json_line + 1)
    file ← open_log_for_append logger
    with_error io (T.append file (json_line ++ line_end ∷ []))

  -- The buffer changes only after the entry is durable.
  unfoldable pub remember :
      AuditLogger
      → AuditEntry
      → Memory
      → Result AuditError (Unit {0}) × S
      → Result AuditError (Unit {0}) × (S × Memory)
  unfolding push_recent
  remember logger entry memory (ok _, s) = (
    ok tt,
    (s, record memory { entries = push_recent logger.max_memory_entries memory.entries entry }),
  )
  remember logger entry memory (err e, s) = (err e, (s, memory))

  unfoldable pub log_line :
      AuditLogger → AuditEntry → List ℕ → Program (S × Memory) AuditError (Unit {0})
  unfolding remember with_lock
  log_line logger entry json_line (s, memory) =
      if ltb logger.max_log_bytes (length json_line + 1)
      then (err (entry_too_large (length json_line + 1) logger.max_log_bytes), (s, memory))
      else remember logger entry memory
          (with_lock (T.acquire_lock s) (write_entry logger memory.poisoned json_line))

  unfoldable pub log_encoded :
      AuditLogger → AuditEntry → Result Text (List ℕ) → Program (S × Memory) AuditError (Unit {0})
  unfolding log_line
  log_encoded logger entry (err e) w = (err (serialization e), w)
  log_encoded logger entry (ok json_line) w = log_line logger entry json_line w

  -- `AuditLogger::log`
  unfoldable pub log : AuditLogger → Event → Program (S × Memory) AuditError (Unit {0})
  unfolding log_encoded
  log logger event w =
      let entry = entry_of event (T.now w.0) in log_encoded logger entry (T.to_json entry) w

-- Newest first.
unfoldable pub get_entries : Memory → Result AuditError (List AuditEntry)
get_entries memory = if memory.poisoned then err buffer_poisoned else ok (reverse memory.entries)

unfoldable pub clear_memory : Memory → Result AuditError (Unit {0}) × Memory
clear_memory memory =
    if memory.poisoned
    then (err buffer_poisoned, memory)
    else (ok tt, record { entries = []; poisoned = false })
