-- ===== src/Audit/Legacy/Bootstrap.antt =====
-- The entries to the legacy transition of crates/audit-journal/src/legacy.rs: the inspection of the
-- production storage, the bootstrap directory, the recovery under its lock, and the completion.
pub mod Unchanged
use win_profile.Base.{
  ℕ, Bool, true, false, Option, none, some, Result, ok, err, Program, pure, ◌>>=◌, ◌>>◌, Text,
  codes, ◌++◌,
}
use win_profile.Audit.Journal.{StorageError, not_found, collision, other_error}
use win_profile.Audit.Legacy.{MigrationPhase, done, label, MigrationStateRecord}
use win_profile.Audit.Legacy.Calls.{LegacyStorageError, storage, Calls}
use win_profile.Audit.Legacy.Transition.{
  product_directory, with_phase, Legacy, stored, write_state, execute_recovery,
}
use win_profile.Audit.Legacy.Pending.{load_pending_from_bootstrap}

abbrev pub bootstrap_directory : Text
bootstrap_directory = codes "WinProfile.Bootstrap"

-- `ProductionStorageState`: a recovery has its reason and the detected identity.
pub data ProductionStorageState (D : Type 0) : Type 0 where
  ready : D → ProductionStorageState D
  needs_consent : Text → ℕ → ProductionStorageState D
  needs_resume : Text → ℕ → ProductionStorageState D

-- The calls on the bootstrap directory and the root; a lock is held until it is released.
pub record Roots (S D : Type 0) : Type 0 where
  pub open_existing_child : Text → Program S StorageError D
  pub open_or_create_root : Program S StorageError D
  pub acquire_bootstrap_lock : Program S StorageError (Unit {0})
  pub release_bootstrap_lock : S → S

module _ {S : Type 0} (C : Calls S) (B : Roots S C.Directory) where
  open C use {Directory}

  unfoldable pub validated : Directory → Legacy C Directory
  validated directory = do stored C (C.validate_production_root directory); pure directory

  -- A bootstrap directory that could not be created: another process may have been faster.
  unfoldable pub created_bootstrap :
      Result StorageError Directory × S → Result LegacyStorageError Directory × S
  unfolding validated
  created_bootstrap (ok directory, s) = (ok directory, s)
  created_bootstrap (err collision, s) =
      (stored C (B.open_existing_child bootstrap_directory) >>= validated) s
  created_bootstrap (err not_found, s) = (err (storage not_found), s)
  created_bootstrap (err (other_error e), s) = (err (storage (other_error e)), s)

  unfoldable pub opened_bootstrap :
      Result StorageError Directory × S → Result LegacyStorageError Directory × S
  unfolding validated created_bootstrap
  opened_bootstrap (ok directory, s) = validated directory s
  opened_bootstrap (err not_found, s) =
      created_bootstrap (C.create_protected_child bootstrap_directory s)
  opened_bootstrap (err collision, s) = (err (storage collision), s)
  opened_bootstrap (err (other_error e), s) = (err (storage (other_error e)), s)

  unfoldable pub open_or_create_bootstrap : Legacy C Directory
  unfolding opened_bootstrap
  open_or_create_bootstrap s = opened_bootstrap (B.open_existing_child bootstrap_directory s)

  unfoldable pub pending_under :
      Result StorageError Directory × S
      → Result LegacyStorageError (Option MigrationStateRecord) × S
  unfolding validated
  pending_under (err not_found, s) = (ok none, s)
  pending_under (err collision, s) = (err (storage collision), s)
  pending_under (err (other_error e), s) = (err (storage (other_error e)), s)
  pending_under (ok directory, s) =
      (stored C (C.validate_production_root directory) >> load_pending_from_bootstrap C) s

  unfoldable pub load_pending_state : Legacy C (Option MigrationStateRecord)
  unfolding pending_under
  load_pending_state s = pending_under (B.open_existing_child bootstrap_directory s)

  -- The root's state where no migration is pending.
  unfoldable pub inspect_root :
      Result StorageError Directory × S
      → Result LegacyStorageError (ProductionStorageState Directory) × S
  inspect_root (ok root, s) = (ok (ready root), s)
  inspect_root (err not_found, s) = (do root ← stored C B.open_or_create_root; pure (ready root)) s
  inspect_root (err collision, s) =
      (do
        identity ← stored C (C.open_object_identity product_directory)
        pure (needs_consent (C.storage_text collision) identity))
        s
  inspect_root (err (other_error e), s) =
      (do
        identity ← stored C (C.open_object_identity product_directory)
        pure (needs_consent (C.storage_text (other_error e)) identity))
        s

  unfoldable pub inspect_pending :
      Option MigrationStateRecord → Legacy C (ProductionStorageState Directory)
  unfolding inspect_root label
  inspect_pending none s = inspect_root (C.open_existing_root s)
  inspect_pending (some pending) s = (
    ok (
        needs_resume
          (codes "interrupted legacy storage migration "
            ++ (pending.migration_id ++ (codes " at " ++ label pending.phase)))
          pending.source_identity),
    s,
  )

  unfoldable pub inspect_under : Legacy C (ProductionStorageState Directory)
  unfolding load_pending_state inspect_pending
  inspect_under = do pending ← load_pending_state; inspect_pending pending

  -- A failure drops the lock; a record that is returned keeps it.
  unfoldable pub keep_lock :
      Result LegacyStorageError MigrationStateRecord × S
      → Result LegacyStorageError MigrationStateRecord × S
  keep_lock (ok state, s) = (ok state, s)
  keep_lock (err e, s) = (err e, B.release_bootstrap_lock s)

  unfoldable pub recover : ℕ → Legacy C MigrationStateRecord
  unfolding open_or_create_bootstrap keep_lock execute_recovery
  recover detected_identity = do
    bootstrap ← open_or_create_bootstrap
    stored C B.acquire_bootstrap_lock
    (λ s. keep_lock (
        (do existing ← load_pending_from_bootstrap C; execute_recovery C existing detected_identity)
          s))

  -- Consumes the pending storage, which releases the lock.
  unfoldable pub complete : MigrationStateRecord → Legacy C (Unit {0})
  complete state s =
      let (r, t) = write_state C (with_phase done state) s in (r, B.release_bootstrap_lock t)
