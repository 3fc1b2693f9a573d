-- ===== src/Repair/Rollback.antt =====
-- The rollback of crates/core-profiles/src/repair.rs: the renames are reversed, every snapshot is
-- restored whatever the others did, and the outcome is logged.
pub mod Attempts
pub mod Names
pub mod Restored
pub mod Forward
use win_profile.Base.{
  ℕ, Bool, true, false, List, [], ◌∷◌, ◌++◌, Option, none, some, Result, ok, err, Program, Text,
  codes, decimal, join, length, map_err, is_empty, if◌then◌else◌,
}
use win_profile.Audit.Event.{AuditStatus, failed, rolled_back, Event}
use win_profile.Platform.Registry.Api.{RegistryError, Win32Registry}
use win_profile.Platform.Registry.Display.{display}
use win_profile.Platform.Registry.Keys.{subkey_exists, rename_subkey}
use win_profile.Profiles.Models.{RepairPlan}
use win_profile.Repair.Env.{
  RepairError, rollback_error, Services, RegistryMutation, RepairSnapshot, audit_actor,
}
use win_profile.Repair.Checks.{Repair, bak_name}

-- The text of a failure is kept.
abbrev pub note_failure : List Text → Result Text (Unit {0}) → List Text
note_failure errors (ok _) = errors
note_failure errors (err e) = errors ++ e ∷ []

module _ {S : Type 0} {T : Type 0} (restore : T → Program S Text (Unit {0})) where
  unfoldable pub attempt_all : List T → List Text → S → List Text × S
  attempt_all [] errors s = (errors, s)
  attempt_all (item ∷ items) errors s =
      let (r, s') = restore item s in attempt_all items (note_failure errors r) s'

  unfoldable pub attempt_all_then_audit :
      (List Text → Program S Text (Unit {0})) → List T → List Text → S → List Text × S
  unfolding attempt_all
  attempt_all_then_audit audit items errors s =
      let (failures, s') = attempt_all items errors s in
      let (r, s'') = audit failures s' in (note_failure failures r, s'')

unfoldable pub rollback_summary : ℕ → List Text → AuditStatus × Text
unfolding decimal join
rollback_summary n errors =
    if is_empty errors
    then (rolled_back, codes "Rollback completed for " ++ (decimal n ++ codes " snapshot(s)"))
    else (
      failed,
      codes "Rollback attempted all "
          ++ (decimal n
              ++ (codes " snapshot(s); "
                  ++ (decimal (length errors)
                      ++ (codes " error(s): " ++ join (codes "; ") errors)))),
    )

module _ (R : Win32Registry) (V : Services R.State) where
  open R use {State, Hkey}

  unfoldable pub after_rename :
      Text → List Text → Result RegistryError (Unit {0}) × State → List Text × State
  unfolding display
  after_rename label errors (ok _, s) = (errors, s)
  after_rename label errors (err e, s) = (errors ++ (label ++ display e) ∷ [], s)

  -- `match subkey_exists(..) { Ok(true) => rename, Ok(false) => {}, Err(..) => errors.push(..) }`
  unfoldable pub after_inspection :
      Hkey
      → Text
      → Text
      → Text
      → Text
      → List Text
      → Result RegistryError Bool × State
      → List Text × State
  unfolding display
  after_inspection parent from to restore_label inspect_label errors (ok true, s) =
      after_rename restore_label errors (rename_subkey R parent from to s)
  after_inspection parent from to restore_label inspect_label errors (ok false, s) = (errors, s)
  after_inspection parent from to restore_label inspect_label errors (err e, s) =
      (errors ++ (inspect_label ++ display e) ∷ [], s)

  unfoldable pub undo_rename :
      Hkey → Text → Text → Text → Text → List Text → State → List Text × State
  unfolding after_inspection
  undo_rename parent from to restore_label inspect_label errors s =
      after_inspection parent from to restore_label inspect_label errors
        (subkey_exists R parent from s)

  -- The renames that the mutation records, undone in reverse order.
  unfoldable pub rollback_names : RepairPlan → Hkey → RegistryMutation → State → List Text × State
  rollback_names plan parent m s =
      let (errors, s') =
        if m.bak_moved
        then undo_rename parent plan.canonical_sid (bak_name plan) (codes "restore .bak name: ")
            (codes "inspect canonical key: ") [] s
        else ([], s) in
      elim m.canonical_backup [
        | none ↦ (errors, s')
        | some name ↦
            undo_rename parent name plan.canonical_sid (codes "restore canonical name: ")
              (codes "inspect canonical backup: ") errors s'
      ]

  unfoldable pub restore_one : RepairSnapshot V.Snapshot → Program State Text (Unit {0})
  restore_one snapshot s =
      let path = snapshot.expected_registry_key_path in
      let (r, s') = V.restore_registry_snapshot snapshot.metadata path s in
      (map_err (λ e. codes "restore " ++ (path ++ (codes ": " ++ e))) r, s')

  unfoldable pub audit_summary : RepairPlan → ℕ → List Text → Program State Text (Unit {0})
  unfolding rollback_summary
  audit_summary plan n errors s =
      let (status, details) = rollback_summary n errors in
      let (r, s') =
        V.log
          (record {
            operation = codes "RepairRollbackSummary";
            actor = audit_actor;
            target = plan.canonical_sid;
            status = status;
            details = details;
          })
          s in
      (map_err (λ e. codes "rollback summary audit: " ++ e) r, s')

  unfoldable pub rollback :
      RepairPlan
      → Hkey
      → RegistryMutation
      → List (RepairSnapshot V.Snapshot)
      → Repair R V (Unit {0})
  unfolding restore_one audit_summary
  rollback plan parent m snapshots s =
      let (errors, s') = rollback_names plan parent m s in
      let (all_errors, t) =
        attempt_all_then_audit restore_one (audit_summary plan (length snapshots)) snapshots errors
          s' in
      (
        if is_empty all_errors
            then ok tt
            else err (
                rollback_error
                  (codes "one or more rollback steps failed: " ++ join (codes "; ") all_errors)),
        t,
      )
