-- ===== src/Audit/Journal/Durable.antt =====
-- What `AuditLogger::log` leaves in the files.
use win_profile.Base.{
  ℕ, ◌+◌, ◌≤◌, ◌<◌, ◌≡◌, ◌≢◌, refl, ◌∙◌, Bool, true, false, List, Result, ok, err, Text, length,
  ltb, if◌then◌else◌, arith,
}
use win_profile.Audit.Event.{AuditEntry, Event}
use win_profile.Profiles.DirectorySize.{u64_max}
use win_profile.Audit.Journal.{
  AuditError, StorageError, AuditLogger, Memory, Storage, write_entry, with_lock, remember,
  log_line, log_encoded, log, entry_of,
}
use win_profile.Audit.Journal.Files.{FilesView, SameButLock, LocksFaithfully, StoresFaithfully}
use win_profile.Audit.Journal.Bounds.{IsWritten, write_entry-IsWritten}

module _ {S : Type 0} {T : Storage S} (W : FilesView T) (L : LocksFaithfully W)
    (F : StoresFaithfully W) where
  open W use {file, name_of, is_lock_name}

  IsWritten-keeps :
      (logger : AuditLogger) (line : List ℕ) (s t : S)
      → is_lock_name logger.log_file_name ≡ false
      → SameButLock W s t
      → IsWritten W F logger line s
      → IsWritten W F logger line t
  IsWritten-keeps logger line s t own h w = record {
    before = w.before;
    content = h.files logger.log_file_name own ∙ w.content;
    bounded = w.bounded;
  }

  remember-IsWritten :
      (logger : AuditLogger) (memory : Memory) (entry : AuditEntry) (line : List ℕ)
      (r : Result AuditError (Unit {0}) × S) (u : Unit {0})
      → (r.0 ≡ ok tt → IsWritten W F logger line r.1)
      → (remember T logger entry memory r).0 ≡ ok u
      → IsWritten W F logger line (remember T logger entry memory r).1.0
  unfolding remember
  remember-IsWritten logger memory entry line (ok x, s) u h e = h refl
  remember-IsWritten logger memory entry line (err x, s) u h e = ground arith

  with_lock-IsWritten :
      (logger : AuditLogger) (poisoned : Bool) (line : List ℕ)
      (r : Result StorageError (Unit {0}) × S)
      → is_lock_name logger.log_file_name ≡ false
      → logger.max_log_bytes < u64_max
      → length line + 1 ≤ logger.max_log_bytes
      → (with_lock T r (write_entry T logger poisoned line)).0 ≡ ok tt
      → IsWritten W F logger line (with_lock T r (write_entry T logger poisoned line)).1
  unfolding with_lock
  with_lock-IsWritten logger poisoned line (err x, s) own small fits e = ground arith
  with_lock-IsWritten logger poisoned line (ok x, s) own small fits e =
      IsWritten-keeps logger line _ _ own (L.release_keeps _)
        ((write_entry-IsWritten W F logger poisoned line s small fits).holds tt e)

  if-holds :
      (b : Bool) (P : S → Type 0) (x y : Result AuditError (Unit {0}) × (S × Memory)) (u : Unit {0})
      → x.0 ≢ ok u
      → (b ≡ false → y.0 ≡ ok u → P y.1.0)
      → (if b then x else y).0 ≡ ok u
      → P (if b then x else y).1.0
  if-holds true P x y u refused h e = ground arith
  if-holds false P x y u refused h e = h refl e

  log_encoded-IsWritten :
      (logger : AuditLogger) (entry : AuditEntry) (s : S) (memory : Memory)
      (r : Result Text (List ℕ)) (u : Unit {0})
      → is_lock_name logger.log_file_name ≡ false
      → logger.max_log_bytes < u64_max
      → (log_encoded T logger entry r (s, memory)).0 ≡ ok u
      → (line : List ℕ) × (r ≡ ok line)
        × IsWritten W F logger line (log_encoded T logger entry r (s, memory)).1.0
  unfolding log_encoded log_line
  log_encoded-IsWritten logger entry s memory (err x) u own small e = ground arith
  log_encoded-IsWritten logger entry s memory (ok line) u own small e = (
    line,
    refl,
    if-holds (ltb logger.max_log_bytes (length line + 1)) (IsWritten W F logger line) _ _ u
        (λ done. ground arith)
        (λ fits. remember-IsWritten logger memory entry line _ u (
          with_lock-IsWritten logger memory.poisoned line (T.acquire_lock s) own small
            (ground arith)))
        e,
  )

  -- When `log` returns without an error, the journal's file ends in the entry's JSON line and has
  -- no more bytes than the limit. Conditions: the journal's name is not the lock's, the limit is
  -- below the largest `u64`, and the storage behaves as documented.
  pub log-IsWritten :
      (logger : AuditLogger) (e : Event) (s : S) (memory : Memory) (u : Unit {0})
      → is_lock_name logger.log_file_name ≡ false
      → logger.max_log_bytes < u64_max
      → (log T logger e (s, memory)).0 ≡ ok u
      → (line : List ℕ) × (T.to_json (entry_of e (T.now s)) ≡ ok line)
        × IsWritten W F logger line (log T logger e (s, memory)).1.0
  unfolding log
  log-IsWritten logger e s memory u own small done =
      log_encoded-IsWritten logger (entry_of e (T.now s)) s memory
        (T.to_json (entry_of e (T.now s))) u own small done

module _ {S : Type 0} {T : Storage S} (W : FilesView T) (L : LocksFaithfully W) where
  -- With a poisoned buffer `log` fails and changes no entry and no file but that of the storage's
  -- lock, provided that taking and releasing the lock change no other file.
  pub log-poisoned :
      (logger : AuditLogger) (e : Event) (s : S) (memory : Memory)
      → memory.poisoned ≡ true
      → let (r, (t, after)) = log T logger e (s, memory) in
        (r ≢ ok tt) × (SameButLock W s t × (after ≡ memory))
  unfolding log log_encoded log_line with_lock remember write_entry
  log-poisoned logger e s memory poisoned =
      let same = L.lock_keeps s in
      (
        ground arith,
        (
          record {
            files = λ n other.
                ground
                  (arith, same.files n other, (L.release_keeps (T.acquire_lock s).1).files n other);
          },
          ground arith,
        ),
      )
