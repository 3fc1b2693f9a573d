-- ===== src/Migration/Engine/Receipt.antt =====
-- What the receipt of a migration counts.
use win_profile.Base.{
  ◌≡◌, refl, sym, ◌∙◌, Bool, true, false, List, [], ◌++◌, Option, none, some, Result, ok, err,
  Program, lift, raise_if, Text, codes, is_empty, arith,
}
use win_profile.Base.Hoare.{Post, Hoare, Hoare-bind, Hoare-raise_if, Maintains}
use win_profile.Profiles.Models.{MigrationPlan}
use win_profile.Migration.Errors.{
  SecureFsError, MigrationError, rollback_failed, invalid_plan, audit, map_secure_error,
}
use win_profile.Migration.Transaction.{ManifestEntry, CopyTransaction, MigrationReceipt, rollback}
use win_profile.Migration.Copy.{
  Source, Target, on_state, change, report, created_entry, enumerating,
}
use win_profile.Migration.Copy.Stable.{Maintains-report}
use win_profile.Migration.Copy.Grows.{HasManifest, IsStable-HasManifest}
use win_profile.Migration.Validation.{ValidatedMigration}
use win_profile.Migration.Engine.Execute.{
  after_rollback, rolling_back_progress, settle, transact, started, released,
  execute_migration_with_cancel,
}
use win_profile.Migration.Engine.{
  Host, empty_transaction, roots_of, copy_roots, plain_progress, finish_copy, warn_of_secrets,
  secrets_exist, copy_into, operation,
}
use win_profile.Migration.Engine.Selected.{
  selected_files, receipt_of, Grows-copy_roots, Any, Hoare-Maintains, Hoare-Grows,
  finish_copy-receipt,
}

module _ {S : Type 0} (T : Target S) (H : Host S T.Directory) where
  Maintains-warn :
      (plan : MigrationPlan) (es : List ManifestEntry) (b : Bool)
      → Maintains (HasManifest T es) (warn_of_secrets T H plan b)
  unfolding warn_of_secrets
  Maintains-warn plan es false = record { from = λ w p. p }
  Maintains-warn plan es true = record { from = λ w p. p }

  copy_into-receipt :
      (plan : MigrationPlan) (source : Source) (target : T.Directory)
      → Hoare
          (HasManifest T [])
          (copy_into T H plan source target)
          (λ r _. r ≡ (receipt_of T H) (selected_files T H source (roots_of plan)))
          (Any T H)
  unfolding copy_into
  copy_into-receipt plan source target =
      let none_yet = HasManifest T [] in
      Hoare-bind (Any T H) none_yet (λ _. none_yet) _
        (raise_if (H.overlaps source target)
          (invalid_plan (codes "opened source and destination directory handles overlap")))
        _ (Hoare-raise_if (Any T H) none_yet (H.overlaps source target) _ (λ w p. tt))
        (λ _.
          Hoare-bind (Any T H) none_yet (λ _. none_yet) _ (lift (secrets_exist T H source)) _
            (Hoare-Maintains T H _ [] (record { from = λ w p. p }))
            (λ secrets.
              Hoare-bind (Any T H) none_yet (λ _. none_yet) _ (warn_of_secrets T H plan secrets) _
                (Hoare-Maintains T H _ [] (Maintains-warn plan [] secrets))
                (λ _.
                  Hoare-bind (Any T H) none_yet (λ _. none_yet) _
                    (raise_if (is_empty (roots_of plan))
                      (invalid_plan (codes "at least one migration scope must be selected")))
                    _ (Hoare-raise_if (Any T H) none_yet (is_empty (roots_of plan)) _ (λ w p. tt))
                    (λ _.
                      Hoare-bind (Any T H) none_yet (λ _. none_yet) _
                        (report T (λ t. plain_progress T H enumerating 0 0)) _
                        (Hoare-Maintains T H _ [] (
                          Maintains-report T none_yet (IsStable-HasManifest T [])
                            (λ t. plain_progress T H enumerating 0 0)))
                        (λ _.
                          Hoare-bind (Any T H) none_yet
                            (λ _. HasManifest T (selected_files T H source (roots_of plan))) _
                            (copy_roots T H source target (roots_of plan))
                            (λ _. finish_copy T H plan)
                            (Hoare-Grows T H _ _
                              (Grows-copy_roots T H source target (roots_of plan)))
                            (λ _.
                              finish_copy-receipt T H plan
                                (selected_files T H source (roots_of plan))))))))

  operation-receipt :
      (plan : MigrationPlan) (v : ValidatedMigration Source T.Directory)
      → Hoare
          (HasManifest T [])
          (operation T H plan v)
          (λ r _. r ≡ (receipt_of T H) (selected_files T H v.source_directory (roots_of plan)))
          (Any T H)
  unfolding operation
  operation-receipt plan v =
      let none_yet = HasManifest T [] in
      Hoare-bind (Any T H) none_yet (λ _. none_yet) _
        (on_state T map_secure_error (T.create_directory v.target_parent v.target_leaf)) _
        (Hoare-Maintains T H _ [] (record { from = λ w p. p }))
        (λ created.
          Hoare-bind (Any T H) none_yet (λ _. none_yet) _ (change T (created_entry T created.1)) _
            (Hoare-Maintains T H _ [] (record { from = λ w p. p }))
            (λ _. copy_into-receipt plan v.source_directory created.0))

  -- A run that gives a receipt gives this one.
  abbrev GivesOnly : MigrationReceipt → Option (Result MigrationError MigrationReceipt × S) → Type 0
  GivesOnly expected end = (r : MigrationReceipt) (t : S) → end ≡ some (ok r, t) → r ≡ expected

  -- A run that fails gives none.
  abbrev Fails : Result MigrationError MigrationReceipt × S → Type 0
  Fails end = (e : MigrationError) × (end.0 ≡ err e)

  after_rollback-Fails :
      (plan : MigrationPlan) (error : MigrationError) (r : Result SecureFsError (Unit {0})) (s : S)
      → Fails (after_rollback T H plan error r s)
  unfolding after_rollback
  after_rollback-Fails plan error (ok u) s = reported (H.log _ s)
    where
      reported :
          (r : Result Text (Unit {0}) × S)
          → Fails (elim r.0 [ ok _ ↦ err error | err audit_error ↦ err (audit audit_error) ], r.1)
      reported (ok u, t) = (error, refl)
      reported (err x, t) = (audit x, refl)
  after_rollback-Fails plan error (err x) s = reported (H.log _ s)
    where
      reported :
          (r : Result Text (Unit {0}) × S)
          → Fails (
            elim r.0 [
              | ok _ ↦ err (rollback_failed (H.error_text error) (H.secure_text x))
              | err audit_error ↦ err (
                  rollback_failed
                    (H.error_text error)
                    (H.secure_text x ++ (codes "; audit logging also failed: " ++ audit_error)))
            ],
            r.1,
          )
      reported (ok u, t) = (_, refl)
      reported (err y, t) = (_, refl)

  released-GivesOnly :
      (expected : MigrationReceipt) (end : Result MigrationError MigrationReceipt × S)
      → Fails end
      → GivesOnly expected (released T H (some end))
  released-GivesOnly expected (ok r, s) (x, h) r1 t e = ground arith
  released-GivesOnly expected (err y, s) (x, h) r1 t e = ground arith

  settle-GivesOnly :
      (plan : MigrationPlan) (expected : MigrationReceipt)
      (run : Result MigrationError MigrationReceipt × (S × CopyTransaction T.Created))
      → Post (λ r _. r ≡ expected) (Any T H) run
      → GivesOnly expected (released T H (settle T H plan run))
  unfolding settle
  settle-GivesOnly plan expected (ok r, w) p =
      λ r1 t e. let same : r ≡ r1 = ground arith in sym same ∙ p
  settle-GivesOnly plan expected (err x, w) p =
      rolled_back_with (rollback T.remove w.1 (T.on_progress (rolling_back_progress T H w.1) w.0))
    where
      rolled_back_with :
          (done : Option ((Result SecureFsError (Unit {0}) × CopyTransaction T.Created) × S))
          → GivesOnly expected (
              released T H (elim done [
                | none ↦ none
                | some done ↦ some (after_rollback T H plan x done.0.0 done.1)
              ]))
      rolled_back_with none = λ r1 t e. ground arith
      rolled_back_with (some done) =
          released-GivesOnly expected (after_rollback T H plan x done.0.0 done.1)
            (after_rollback-Fails plan x done.0.0 done.1)

  -- The plan that was validated, and a receipt that is the one of its files.
  abbrev pub IsReceipted :
      (MigrationPlan → Program S MigrationError (ValidatedMigration Source T.Directory))
      → MigrationPlan
      → MigrationReceipt
      → Type 0
  IsReceipted validate plan r =
      (v : ValidatedMigration Source T.Directory) × (s : S) × ((validate plan s).0 ≡ ok v)
      × (r ≡ (receipt_of T H) (selected_files T H v.source_directory (roots_of plan)))

  -- The receipt of a migration is the one of exactly the files below the folders that the plan
  -- selects of the source that was validated, each with the length and the digest of the bytes
  -- that were read of it, in the order of the folders.
  pub execute_migration_with_cancel-receipt :
      (validate : MigrationPlan → Program S MigrationError (ValidatedMigration Source T.Directory))
      (plan : MigrationPlan) (s t : S) (r : MigrationReceipt)
      → execute_migration_with_cancel T H validate plan s ≡ some (ok r, t)
      → IsReceipted validate plan r
  unfolding execute_migration_with_cancel transact started
  execute_migration_with_cancel-receipt validate plan s t r = acquired (H.acquire_operation_guard s)
    where
      logged :
          (v : ValidatedMigration Source T.Directory) (w : S)
          → (validate plan w).0 ≡ ok v
          → (g : Result MigrationError (Unit {0}) × S)
          → (elim g.0 [
            | err e ↦ some (err e, H.release_operation_guard g.1)
            | ok _ ↦ released T H (transact T H plan v g.1)
          ])
            ≡ some (ok r, t)
          → IsReceipted validate plan r
      logged v w h (err e, x) q = ground arith
      logged v w h (ok u, x) q = (
        v,
        w,
        h,
        settle-GivesOnly plan
            (receipt_of T H (selected_files T H v.source_directory (roots_of plan)))
            (operation T H plan v (x, empty_transaction))
            ((operation-receipt plan v).run (x, empty_transaction) refl) r t q,
      )

      validated :
          (w : S) (g : Result MigrationError (ValidatedMigration Source T.Directory) × S)
          → (validate plan w).0 ≡ g.0
          → (elim g.0 [
            | err e ↦ some (err e, H.release_operation_guard g.1)
            | ok v ↦
                let (logged, s3) = started T H plan v g.1 in
                elim logged [
                  | err e ↦ some (err e, H.release_operation_guard s3)
                  | ok _ ↦ released T H (transact T H plan v s3)
                ]
          ])
            ≡ some (ok r, t)
          → IsReceipted validate plan r
      validated w (err e, x) h q = ground arith
      validated w (ok v, x) h q = logged v w h (started T H plan v x) q

      acquired :
          (g : Result Text (Unit {0}) × S)
          → (elim g.0 [
            | err e ↦ some (err (audit e), g.1)
            | ok _ ↦
                let (validated, s2) = validate plan g.1 in
                elim validated [
                  | err e ↦ some (err e, H.release_operation_guard s2)
                  | ok v ↦
                      let (logged, s3) = started T H plan v s2 in
                      elim logged [
                        | err e ↦ some (err e, H.release_operation_guard s3)
                        | ok _ ↦ released T H (transact T H plan v s3)
                      ]
                ]
          ])
            ≡ some (ok r, t)
          → IsReceipted validate plan r
      acquired (err e, x) q = ground arith
      acquired (ok u, x) q = validated x (validate plan x) refl q
