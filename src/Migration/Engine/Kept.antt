-- ===== src/Migration/Engine/Kept.antt =====
-- The parts of a migration, by the entries of its transaction.
use win_profile.Base.{
  ◌≡◌, ◌⊎◌, ◌∙◌, Bool, true, false, List, [], ◌∷◌, split, Option, none, some, Result, ok, err, pure,
  lift, ◌>>=◌, ◌>>◌, raise_if, Text, codes, is_empty,
}
use win_profile.Base.Hoare.{Maintains-bind, Maintains-raise_if}
use win_profile.Audit.Event.{Event, success}
use win_profile.Profiles.Models.{MigrationPlan}
use win_profile.Migration.Errors.{MigrationError, rollback_failed, invalid_plan, audit}
use win_profile.Migration.Transaction.{MigrationReceipt, receipt}
use win_profile.Migration.Copy.{
  Source, Target, on_state, change, report, created_entry, check_cancelled, copy_tree_verified,
  finalizing, enumerating,
}
use win_profile.Migration.Copy.Stable.{Maintains-check_cancelled, Maintains-report}
use win_profile.Migration.Copy.Entries.{
  KeepsEntries, Unmoved, Balanced, IsStable-Balanced, Kept, Kept-created, Kept-tree, Kept-opened,
}
use win_profile.Migration.Validation.{ValidatedMigration}
use win_profile.Migration.Engine.{
  Host, event, roots_of, open_relative_directory_if_present, ensure_components,
  ensure_relative_directory, copy_found, copy_roots, plain_progress, success_details, finish_copy,
  warn_of_secrets, secrets_exist, copy_into, operation,
}

module _ {S : Type 0} (T : Target S) (H : Host S T.Directory) (present : S → List T.Created) where
  -- The journal and its guard do not touch the target.
  pub record KeepsJournal : Type 0 where
    pub logged : (e : Event) → Unmoved T present (H.log e)
    pub acquired : Unmoved T present H.acquire_operation_guard
    pub guard_released : (s : S) → present (H.release_operation_guard s) ≡ present s

  -- How a migration may end: with an error other than that of a rollback, nothing is left.
  abbrev pub IsClean : Result MigrationError MigrationReceipt → S → Type 0
  IsClean (ok r) s = Unit {0}
  IsClean (err e) s =
      ((operation_error : Text) × (rollback_error : Text) × (e
          ≡ rollback_failed operation_error rollback_error))
      ⊎ (present s ≡ [])

  module _ (K : KeepsEntries T present) (J : KeepsJournal) where
    pub Kept-log : (e : Event) → Kept T present K (on_state T audit (H.log e))
    Kept-log e = record { from = λ w p. J.logged e w.0 ∙ p }

    pub Kept-ensure :
        (d : T.Directory) (names : List Text) → Kept T present K (ensure_components T H d names)
    unfolding ensure_components
    Kept-ensure d [] = record { from = λ w p. p }
    Kept-ensure d (name ∷ names) =
        Kept-opened T present K d name (λ c. ensure_components T H c names)
          (λ c. Kept-ensure c names)

    pub Kept-copy_found :
        (target : T.Directory) (root : Text) (found : Option Source)
        → Kept T present K (copy_found T H target root found)
    unfolding copy_found ensure_relative_directory
    Kept-copy_found target root none = record { from = λ w p. p }
    Kept-copy_found target root (some source) =
        Maintains-bind (Balanced T present) (ensure_components T H target (split b'\\' root))
          (λ d. copy_tree_verified T source d root) (Kept-ensure target (split b'\\' root))
          (λ d. Kept-tree T present K source d root)

    pub Kept-check : Kept T present K (check_cancelled T)
    Kept-check = Maintains-check_cancelled T (Balanced T present) (IsStable-Balanced T present K)

    pub Kept-copy_roots :
        (source : Source) (target : T.Directory) (roots : List Text)
        → Kept T present K (copy_roots T H source target roots)
    unfolding copy_roots
    Kept-copy_roots source target [] = record { from = λ w p. p }
    Kept-copy_roots source target (root ∷ roots) =
        Maintains-bind (Balanced T present) (check_cancelled T) _ Kept-check (λ _.
          Maintains-bind (Balanced T present)
            (lift (open_relative_directory_if_present T H source root))
            (λ found. copy_found T H target root found >> copy_roots T H source target roots)
            (record { from = λ w p. p })
            (λ found.
              Maintains-bind (Balanced T present) (copy_found T H target root found)
                (λ _. copy_roots T H source target roots) (Kept-copy_found target root found)
                (λ _. Kept-copy_roots source target roots)))

    pub Kept-finish_copy : (plan : MigrationPlan) → Kept T present K (finish_copy T H plan)
    unfolding finish_copy
    Kept-finish_copy plan =
        Maintains-bind (Balanced T present) (check_cancelled T) _ Kept-check (λ _.
          Maintains-bind (Balanced T present) (λ w. (ok (receipt H.as_bytes T.hash w.1), w)) _
            (record { from = λ w p. p })
            (λ r. Maintains-bind (Balanced T present) (check_cancelled T) _ Kept-check (λ _.
              Maintains-bind (Balanced T present)
                (report T (λ t. plain_progress T H finalizing r.copied_files r.copied_bytes)) _
                (Maintains-report T (Balanced T present) (IsStable-Balanced T present K)
                  (λ t. plain_progress T H finalizing r.copied_files r.copied_bytes))
                (λ _. Maintains-bind (Balanced T present) (check_cancelled T) _ Kept-check (λ _.
                  Maintains-bind (Balanced T present)
                    (on_state T audit (
                      H.log
                        (event plan (codes "MigrationSuccess") success (success_details T H r))))
                    (λ _. pure r)
                    (Kept-log
                      (event plan (codes "MigrationSuccess") success (success_details T H r)))
                    (λ _. record { from = λ w p. p }))))))

    pub Kept-warn_of_secrets :
        (plan : MigrationPlan) (b : Bool) → Kept T present K (warn_of_secrets T H plan b)
    unfolding warn_of_secrets
    Kept-warn_of_secrets plan false = record { from = λ w p. p }
    Kept-warn_of_secrets plan true = record { from = λ w p. J.logged _ w.0 ∙ p }

    pub Kept-copy_into :
        (plan : MigrationPlan) (source : Source) (target : T.Directory)
        → Kept T present K (copy_into T H plan source target)
    unfolding copy_into
    Kept-copy_into plan source target =
        Maintains-bind (Balanced T present)
          (raise_if (H.overlaps source target)
            (invalid_plan (codes "opened source and destination directory handles overlap")))
          _ (Maintains-raise_if (Balanced T present) (H.overlaps source target) _)
          (λ _.
            Maintains-bind (Balanced T present) (lift (secrets_exist T H source)) _
              (record { from = λ w p. p })
              (λ secrets.
                Maintains-bind (Balanced T present) (warn_of_secrets T H plan secrets) _
                  (Kept-warn_of_secrets plan secrets)
                  (λ _.
                    Maintains-bind (Balanced T present)
                      (raise_if (is_empty (roots_of plan))
                        (invalid_plan (codes "at least one migration scope must be selected")))
                      _ (Maintains-raise_if (Balanced T present) (is_empty (roots_of plan)) _)
                      (λ _.
                        Maintains-bind (Balanced T present)
                          (report T (λ t. plain_progress T H enumerating 0 0)) _
                          (Maintains-report T (Balanced T present) (IsStable-Balanced T present K)
                            (λ t. plain_progress T H enumerating 0 0))
                          (λ _.
                            Maintains-bind (Balanced T present)
                              (copy_roots T H source target (roots_of plan))
                              (λ _. finish_copy T H plan)
                              (Kept-copy_roots source target (roots_of plan))
                              (λ _. Kept-finish_copy plan))))))

    pub Kept-operation :
        (plan : MigrationPlan) (v : ValidatedMigration Source T.Directory)
        → Kept T present K (operation T H plan v)
    unfolding operation
    Kept-operation plan v =
        Kept-created T present K (T.create_directory v.target_parent v.target_leaf)
          (λ created. change T (created_entry T created.1) >>= λ _.
            copy_into T H plan v.source_directory created.0)
          (K.created_directory v.target_parent v.target_leaf)
          (λ c w e.
            (Kept-copy_into plan v.source_directory c.0).from (w.0, created_entry T c.1 w.1) e)
