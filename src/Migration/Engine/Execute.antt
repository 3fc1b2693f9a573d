-- ===== src/Migration/Engine/Execute.antt =====
-- The run of a migration, and its rollback, of crates/core-profiles/src/migration.rs.
use win_profile.Base.{◌++◌, Option, none, some, Result, ok, err, Program, with_error, codes}
use win_profile.Audit.Event.{warning, failed, rolled_back}
use win_profile.Profiles.Models.{MigrationPlan}
use win_profile.Migration.Errors.{SecureFsError, MigrationError, rollback_failed, audit}
use win_profile.Migration.Transaction.{
  CopyTransaction, MigrationReceipt, completed_files, copied_bytes, rollback,
}
use win_profile.Migration.Copy.{Source, Target, MigrationProgress, rolling_back}
use win_profile.Migration.Validation.{ValidatedMigration}
use win_profile.Migration.Engine.{event, empty_transaction, operation, Host}

module _ {S : Type 0} (T : Target S) (H : Host S T.Directory) where
  open T use {Directory, Created}

  -- What follows the rollback of a failed (operation T H).
  unfoldable pub after_rollback :
      MigrationPlan
      → MigrationError
      → Result SecureFsError (Unit {0})
      → Program S MigrationError MigrationReceipt
  after_rollback plan error (ok _) s =
      let (logged, t) =
        H.log (event plan (codes "MigrationRolledBack") rolled_back (H.error_text error)) s in
      (elim logged [ ok _ ↦ err error | err audit_error ↦ err (audit audit_error) ], t)
  after_rollback plan error (err rollback_error) s =
      let text = H.error_text error in
      let rollback_text = H.secure_text rollback_error in
      let (logged, t) =
        H.log
          (event plan (codes "MigrationRollbackFailed") failed
            (H.error_text (rollback_failed text rollback_text)))
          s in
      (
        elim logged [
          | ok _ ↦ err (rollback_failed text rollback_text)
          | err audit_error ↦ err (
              rollback_failed text
                (rollback_text ++ (codes "; audit logging also failed: " ++ audit_error)))
        ],
        t,
      )

  abbrev pub rolling_back_progress : CopyTransaction Created → MigrationProgress
  rolling_back_progress t = record {
    phase = rolling_back;
    relative_path = t.last_relative_path;
    completed_files = completed_files t;
    copied_bytes = copied_bytes t;
  }

  -- `none` is a rollback that runs out of fuel.
  unfoldable pub settle :
      MigrationPlan
      → Result MigrationError MigrationReceipt × (S × CopyTransaction Created)
      → Option (Result MigrationError MigrationReceipt × S)
  unfolding after_rollback rollback completed_files copied_bytes
  settle plan (ok r, w) = some (ok r, w.0)
  settle plan (err error, w) =
      elim (rollback T.remove w.1 (T.on_progress (rolling_back_progress w.1) w.0)) [
        | none ↦ none
        | some done ↦ some (after_rollback plan error done.0.0 done.1)
      ]

  unfoldable pub transact :
      MigrationPlan
      → ValidatedMigration Source Directory
      → S
      → Option (Result MigrationError MigrationReceipt × S)
  unfolding settle operation
  transact plan validated s = settle plan (operation T H plan validated (s, empty_transaction))

  unfoldable pub started :
      MigrationPlan → ValidatedMigration Source Directory → Program S MigrationError (Unit {0})
  started plan validated = with_error audit (
      H.log (
        event plan (codes "MigrationStarted") warning (
          codes "Verified-copy migration started: "
          ++ (validated.source_path ++ (codes " -> " ++ validated.target_path)))))

  abbrev pub released :
      Option (Result MigrationError MigrationReceipt × S)
      → Option (Result MigrationError MigrationReceipt × S)
  released none = none
  released (some (r, s)) = some (r, H.release_operation_guard s)

  -- The guard is held from the start to every return. `validate` is `validate_for_execution`.
  unfoldable pub execute_migration_with_cancel :
      (MigrationPlan → Program S MigrationError (ValidatedMigration Source Directory))
      → MigrationPlan
      → S
      → Option (Result MigrationError MigrationReceipt × S)
  unfolding started transact
  execute_migration_with_cancel validate plan s =
      let (acquired, s1) = H.acquire_operation_guard s in
      elim acquired [
        | err e ↦ some (err (audit e), s1)
        | ok _ ↦
            let (validated, s2) = validate plan s1 in
            elim validated [
              | err e ↦ some (err e, H.release_operation_guard s2)
              | ok v ↦
                  let (logged, s3) = started plan v s2 in
                  elim logged [
                    | err e ↦ some (err e, H.release_operation_guard s3)
                    | ok _ ↦ released (transact plan v s3)
                  ]
            ]
      ]
