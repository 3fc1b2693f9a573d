-- ===== src/Migration/Engine/Clean.antt =====
-- The end of a migration, by the entries that it leaves.
use win_profile.Base.{
  ◌≡◌, inl, inr, refl, sym, ◌∙◌, subst, List, [], ◌∷◌, ◌++◌, reverse, reverse-reverse, Option, none,
  some, Result, ok, err, Program, Text, codes, arith,
}
use win_profile.Profiles.Models.{MigrationPlan}
use win_profile.Migration.Errors.{SecureFsError, MigrationError, rollback_failed, audit}
use win_profile.Migration.Transaction.{CopyTransaction, MigrationReceipt, first_of, outcome}
use win_profile.Migration.Transaction.Undo.{removed, rollback-removed}
use win_profile.Migration.Copy.{Source, Target}
use win_profile.Migration.Copy.Entries.{KeepsEntries, Unmoved, Balanced}
use win_profile.Migration.Validation.{ValidatedMigration}
use win_profile.Migration.Engine.Execute.{
  after_rollback, rolling_back_progress, settle, transact, started, released,
  execute_migration_with_cancel,
}
use win_profile.Migration.Engine.{Host, empty_transaction, operation}
use win_profile.Migration.Engine.Kept.{KeepsJournal, IsClean, Kept-operation}

module _ {S : Type 0} (T : Target S) (H : Host S T.Directory) (present : S → List T.Created) where
  module _ (K : KeepsEntries T present) (J : KeepsJournal T H present) where
    removed_some :
        (ds : List T.Created) (x : SecureFsError) (s : S)
        → (removed T.remove ds (some x) s).0 ≡ some x
    unfolding first_of
    removed_some [] x s = refl
    removed_some (d ∷ ds) x s = first_stays (T.remove d s) (λ t. removed_some ds x t)
      where
        first_stays :
            (r : Result SecureFsError (Unit {0}) × S)
            → ((t : S) → (removed T.remove ds (some x) t).0 ≡ some x)
            → (removed T.remove ds (first_of (some x) r.0) r.1).0 ≡ some x
        first_stays (ok u, t) g = g t
        first_stays (err e, t) g = g t

    removed-clean :
        (ds : List T.Created) (s : S)
        → present s ≡ reverse ds
        → (removed T.remove ds none s).0 ≡ none
        → present (removed T.remove ds none s).1 ≡ []
    unfolding first_of
    removed-clean [] s p h = p
    removed-clean (d ∷ ds) s p h =
        next (T.remove d s) (K.removed d (reverse ds) s p) (λ t q g. removed-clean ds t q g) h
      where
        next :
            (r : Result SecureFsError (Unit {0}) × S)
            → (r.0 ≡ ok tt → present r.1 ≡ reverse ds)
            → ((t : S)
                → present t ≡ reverse ds
                → (removed T.remove ds none t).0 ≡ none
                → present (removed T.remove ds none t).1 ≡ [])
            → (removed T.remove ds (first_of none r.0) r.1).0 ≡ none
            → present (removed T.remove ds (first_of none r.0) r.1).1 ≡ []
        next (ok u, t) g k h = k t (g refl) h
        next (err e, t) g k h = let same = removed_some ds e t in ground arith

    after_rollback-IsClean :
        (plan : MigrationPlan) (error : MigrationError) (first : Option SecureFsError) (s : S)
        → (first ≡ none → present s ≡ [])
        → IsClean T H present
            (after_rollback T H plan error (outcome first) s).0
            (after_rollback T H plan error (outcome first) s).1
    unfolding after_rollback
    after_rollback-IsClean plan error none s h = reported (H.log _ s) (J.logged _ s)
      where
        reported :
            (r : Result Text (Unit {0}) × S)
            → present r.1 ≡ present s
            → IsClean T H present
                (elim r.0 [ ok _ ↦ err error | err audit_error ↦ err (audit audit_error) ])
                r.1
        reported (ok u, t) e = inr (e ∙ h refl)
        reported (err x, t) e = inr (e ∙ h refl)
    after_rollback-IsClean plan error (some x) s h = reported (H.log _ s)
      where
        reported :
            (r : Result Text (Unit {0}) × S)
            → IsClean T H present
                (elim r.0 [
                  | ok _ ↦ err (rollback_failed (H.error_text error) (H.secure_text x))
                  | err audit_error ↦ err (
                      rollback_failed
                        (H.error_text error)
                        (H.secure_text x ++ (codes "; audit logging also failed: " ++ audit_error)))
                ])
                r.1
        reported (ok u, t) = inl (_, _, refl)
        reported (err y, t) = inl (_, _, refl)

    -- Where a migration ends: it always ends, and ends clean.
    abbrev Ends : Option (Result MigrationError MigrationReceipt × S) → Type 0
    Ends end =
        (r : Result MigrationError MigrationReceipt) × (t : S) × (end ≡ some (r, t))
        × IsClean T H present r t

    settle-Ends :
        (plan : MigrationPlan)
        (r : Result MigrationError MigrationReceipt × (S × CopyTransaction T.Created))
        → Balanced T present r.1
        → Ends (settle T H plan r)
    unfolding settle
    settle-Ends plan (ok r, w) b = (ok r, w.0, refl, tt)
    settle-Ends plan (err e, (s, t)) b =
        let s1 = T.on_progress (rolling_back_progress T H t) s in
        let ds = reverse t.created_entries in
        let gone = removed T.remove ds none s1 in
        let same : present s1 ≡ reverse ds =
          K.progressed _ s ∙ (b ∙ sym (reverse-reverse t.created_entries)) in
        (
          _,
          _,
          rw (settle, rollback-removed T.remove t s1),
          after_rollback-IsClean plan e gone.0 gone.1 (removed-clean ds s1 same),
        )

    same_end :
        (x y : Result MigrationError MigrationReceipt × S)
        → some x ≡ some y
        → IsClean T H present y.0 y.1
        → IsClean T H present x.0 x.1
    same_end x y e c =
        subst (λ z. IsClean T H present z.0 z.1) (let same : x ≡ y = ground arith in sym same) c

    released-Ends :
        (end : Option (Result MigrationError MigrationReceipt × S))
        → Ends end
        → Ends (released T H end)
    released-Ends none (r, t, e, c) = ground arith
    released-Ends (some (r, s)) (r1, t, e, c) =
        (r, H.release_operation_guard s, refl, released_clean r (same_end (r, s) (r1, t) e c))
      where
        released_clean :
            (r : Result MigrationError MigrationReceipt)
            → IsClean T H present r s
            → IsClean T H present r (H.release_operation_guard s)
        released_clean (ok r) c = tt
        released_clean (err e) (inl c) = inl c
        released_clean (err e) (inr c) = inr (J.guard_released s ∙ c)

    -- A migration that starts without entries ends, and unless its rollback is what failed, a
    -- migration that fails leaves none of the entries that it made, provided that the calls on the
    -- target, the journal and the validation treat the entries as documented.
    pub execute_migration_with_cancel-IsClean :
        (validate : MigrationPlan
          → Program S MigrationError (ValidatedMigration Source T.Directory))
        (plan : MigrationPlan) (s : S)
        → Unmoved T present (validate plan)
        → present s ≡ []
        → (r : Result MigrationError MigrationReceipt) × (t : S) × (execute_migration_with_cancel T
              H validate plan s
            ≡ some (r, t))
          × IsClean T H present r t
    unfolding execute_migration_with_cancel transact started
    execute_migration_with_cancel-IsClean validate plan s still p =
        acquired (H.acquire_operation_guard s) (J.acquired s ∙ p)
      where
        logged :
            (v : ValidatedMigration Source T.Directory) (r : Result MigrationError (Unit {0}) × S)
            → present r.1 ≡ []
            → Ends (elim r.0 [
              | err e ↦ some (err e, H.release_operation_guard r.1)
              | ok _ ↦ released T H (transact T H plan v r.1)
            ])
        logged v (err e, t) q =
            (err e, H.release_operation_guard t, refl, inr (J.guard_released t ∙ q))
        logged v (ok u, t) q = released-Ends _ (
            settle-Ends plan (operation T H plan v (t, empty_transaction))
              ((Kept-operation T H present K J plan v).from (t, empty_transaction) q))

        validated :
            (r : Result MigrationError (ValidatedMigration Source T.Directory) × S)
            → present r.1 ≡ []
            → Ends (elim r.0 [
              | err e ↦ some (err e, H.release_operation_guard r.1)
              | ok v ↦
                  let (logged, s3) = started T H plan v r.1 in
                  elim logged [
                    | err e ↦ some (err e, H.release_operation_guard s3)
                    | ok _ ↦ released T H (transact T H plan v s3)
                  ]
            ])
        validated (err e, t) q =
            (err e, H.release_operation_guard t, refl, inr (J.guard_released t ∙ q))
        validated (ok v, t) q = logged v (started T H plan v t) (J.logged _ t ∙ q)

        acquired :
            (r : Result Text (Unit {0}) × S)
            → present r.1 ≡ []
            → Ends (elim r.0 [
              | err e ↦ some (err (audit e), r.1)
              | ok _ ↦
                  let (validated, s2) = validate plan r.1 in
                  elim validated [
                    | err e ↦ some (err e, H.release_operation_guard s2)
                    | ok v ↦
                        let (logged, s3) = started T H plan v s2 in
                        elim logged [
                          | err e ↦ some (err e, H.release_operation_guard s3)
                          | ok _ ↦ released T H (transact T H plan v s3)
                        ]
                  ]
            ])
        acquired (err e, t) q = (err (audit e), t, refl, inr q)
        acquired (ok u, t) q = validated (validate plan t) (still t ∙ q)
