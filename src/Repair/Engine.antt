-- ===== src/Repair/Engine.antt =====
-- `ProfileRepairEngine::execute_plan` of crates/core-profiles/src/repair.rs.
pub mod Keeps
pub mod Frame
pub mod Accepted
pub mod Verified
pub mod Repaired
use win_profile.Base.{
  ℕ, Bool, true, false, not, List, [], ◌∷◌, ◌++◌, Option, none, some, Result, ok, err, Program,
  pure, raise, continue, ◌>>=◌, ◌>>◌, with_error, raise_if, Text, codes, decimal, length,
  if◌then◌else◌,
}
use win_profile.Audit.Event.{AuditStatus, success, warning, failed, rolled_back, Event}
use win_profile.Platform.Registry.Api.{RegistryError, local_machine, Win32Registry, key_all_access}
use win_profile.Platform.Registry.Keys.{open_key}
use win_profile.Profiles.Models.{RepairPlan, reg_key_profile_list}
use win_profile.Repair.Env.{
  RepairError, audit_error, automatic_unlock_unsupported, transaction_failed, Services,
  RegistryMutation, RepairSnapshot, audit_actor,
}
use win_profile.Repair.Checks.{
  Repair, registry, validate_selected_actions, validate_lock_contract, validate_plan,
}
use win_profile.Repair.Steps.{create_required_snapshots, execute_steps}
use win_profile.Repair.Rollback.{rollback}

abbrev pub no_mutation : RegistryMutation
no_mutation = record { bak_moved = false; canonical_backup = none }

abbrev pub event : RepairPlan → Text → AuditStatus → Text → Event
event plan operation status details = record {
  operation = operation;
  actor = audit_actor;
  target = plan.canonical_sid;
  status = status;
  details = details;
}

unfoldable pub or_none : Option Text → Text
or_none none = codes "none"
or_none (some name) = name

abbrev pub success_event : RepairPlan → RegistryMutation → Event
success_event plan m =
    event plan (codes "RepairSuccess") success
      (codes "Repair verified; preserved prior canonical key: " ++ or_none m.canonical_backup)

module _ (R : Win32Registry) (V : Services R.State) where
  open R use {State, Hkey}

  -- `self.audit_logger.log(..)?`
  abbrev pub log : Event → Repair R V (Unit {0})
  log e = with_error audit_error (V.log e)

  -- A failed rollback is logged, and the failure of that too is reported.
  unfoldable pub report_failed_rollback :
      RepairPlan → RepairError → RepairError → Repair R V (Unit {0})
  report_failed_rollback plan error rollback_failure s =
      let reason =
        codes "original error: "
        ++ (V.error_text error ++ (codes "; rollback error: " ++ V.error_text rollback_failure)) in
      let (logged, s') = V.log (event plan (codes "RepairRollbackFailed") failed reason) s in
      elim logged [
        | ok _ ↦ (err (transaction_failed (codes "Rollback") reason), s')
        | err e ↦ (
          err (transaction_failed (codes "Rollback") (reason ++ (codes "; audit error: " ++ e))),
          s',
        )
      ]

  -- What follows a failed step.
  unfoldable pub recover :
      RepairPlan
      → Hkey
      → RegistryMutation
      → List (RepairSnapshot V.Snapshot)
      → RepairError
      → Repair R V (Unit {0})
  unfolding report_failed_rollback
  recover plan parent m snapshots error s =
      let (undone, s') = rollback R V plan parent m snapshots s in
      elim undone [
        | err failure ↦ report_failed_rollback plan error failure s'
        | ok _ ↦
            (log (
                  event plan (codes "RepairFailed") rolled_back
                    (codes "Repair failed and rollback completed: " ++ V.error_text error))
                >> raise error)
              s'
      ]

  -- What follows the verified steps: if the success cannot be logged, all is rolled back.
  unfoldable pub conclude :
      RepairPlan
      → Hkey
      → RegistryMutation
      → List (RepairSnapshot V.Snapshot)
      → Repair R V (Unit {0})
  conclude plan parent m snapshots s =
      let (logged, s') = V.log (success_event plan m) s in
      elim logged [
        | ok _ ↦ (ok tt, s')
        | err e ↦ (rollback R V plan parent m snapshots >> raise (audit_error e)) s'
      ]

  -- The conclusion or the recovery, by how the steps ended.
  unfoldable pub settle :
      RepairPlan
      → Hkey
      → List (RepairSnapshot V.Snapshot)
      → Result RepairError (Unit {0}) × (State × RegistryMutation)
      → Result RepairError (Unit {0}) × State
  settle plan parent snapshots (ok _, (s, m)) = conclude plan parent m snapshots s
  settle plan parent snapshots (err error, (s, m)) = recover plan parent m snapshots error s

  unfoldable pub transact :
      RepairPlan → Hkey → List (RepairSnapshot V.Snapshot) → Repair R V (Unit {0})
  unfolding settle
  transact plan parent snapshots s =
      settle plan parent snapshots (execute_steps R V plan parent (s, no_mutation))

  -- Everything that is checked before an effect.
  unfoldable pub preflight : RepairPlan → Bool → Repair R V Text
  preflight plan is_loaded = do
    raise_if plan.unlock_hive automatic_unlock_unsupported
    validate_selected_actions plan
    validate_lock_contract R V plan
    validation ← validate_plan R V plan is_loaded
    validate_lock_contract R V plan
    pure validation

  unfoldable pub change_registry : RepairPlan → Repair R V (Unit {0})
  change_registry plan = do
    snapshots ← create_required_snapshots R V plan
    log (
        event plan (codes "RepairStarted") warning (
          codes "Validated repair with "
          ++ (decimal (length snapshots) ++ codes " durable snapshot(s)")))
    parent ← registry R V (open_key R local_machine reg_key_profile_list key_all_access)
    transact plan parent snapshots

  unfoldable pub run_plan : RepairPlan → Bool → Repair R V (Unit {0})
  run_plan plan is_loaded = do
    validation ← preflight plan is_loaded
    (if plan.dry_run
        then log (event plan (codes "RepairDryRun") success validation)
        else change_registry plan)

  -- The guard is held to the end of the call.
  unfoldable pub held :
      {A : Type 0} → Result Text (Unit {0}) × State → Repair R V A → Result RepairError A × State
  held (err e, s) m = (err (audit_error e), s)
  held (ok _, s) m = let (r, t) = m s in (r, V.release_operation_guard t)

  unfoldable pub execute_plan : RepairPlan → Bool → Repair R V (Unit {0})
  unfolding run_plan held
  execute_plan plan is_loaded = if plan.dry_run then run_plan plan is_loaded else λ s.
      held (V.acquire_operation_guard s) (run_plan plan is_loaded)
