-- ===== src/Audit/Legacy.antt =====
-- The detachment of legacy storage of crates/audit-journal/src/legacy.rs: its phases and its record
-- here, the calls that it makes in Calls, the transition in Transition, the records on disk in Pending.
pub mod Calls
pub mod Transition
pub mod Monotone
pub mod Recovery
pub mod Pending
pub mod Bootstrap
use win_profile.Base.{
  ℕ, Bool, true, false, ◌&&◌, Option, none, some, Text, codes, ◌++◌, decimal, text_eq, ◌==◌,
}

pub data MigrationPhase : Type 0 where
  prepared detached root_ready audit_pending done : MigrationPhase

-- `phase as u8`
unfoldable pub phase_number : MigrationPhase → ℕ
phase_number prepared = 0
phase_number detached = 1
phase_number root_ready = 2
phase_number audit_pending = 3
phase_number done = 4

unfoldable pub next : MigrationPhase → Option MigrationPhase
next prepared = some detached
next detached = some root_ready
next root_ready = some audit_pending
next audit_pending = some done
next done = none

unfoldable pub label : MigrationPhase → Text
label prepared = codes "prepared"
label detached = codes "detached"
label root_ready = codes "root-ready"
label audit_pending = codes "audit-pending"
label done = codes "done"

abbrev pub phase_eq : MigrationPhase → MigrationPhase → Bool
phase_eq prepared prepared = true
phase_eq detached detached = true
phase_eq root_ready root_ready = true
phase_eq audit_pending audit_pending = true
phase_eq done done = true
phase_eq _ _ = false

-- `RecoveryPlan`
pub data RecoveryPlan : Type 0 where
  detach_and_activate activate mark_audit_pending retry_terminal_audit complete_migration :
      RecoveryPlan

unfoldable pub recovery_plan : MigrationPhase → RecoveryPlan
recovery_plan prepared = detach_and_activate
recovery_plan detached = activate
recovery_plan root_ready = mark_audit_pending
recovery_plan audit_pending = retry_terminal_audit
recovery_plan done = complete_migration

-- `MigrationStateRecord`; an identity is a number.
pub record MigrationStateRecord : Type 0 where
  pub schema : ℕ
  pub migration_id : Text
  pub phase : MigrationPhase
  pub source_identity : ℕ
  pub next_identity : ℕ
  pub legacy_name : Text
  pub next_name : Text

-- `==`, as derived.
unfoldable pub record_eq : MigrationStateRecord → MigrationStateRecord → Bool
record_eq a b =
    a.schema == b.schema
    && text_eq a.migration_id b.migration_id
    && phase_eq a.phase b.phase
    && a.source_identity == b.source_identity
    && a.next_identity == b.next_identity
    && text_eq a.legacy_name b.legacy_name
    && text_eq a.next_name b.next_name

unfoldable pub state_file_name : MigrationStateRecord → Text
unfolding label phase_number decimal
state_file_name state =
    codes "migration-"
    ++ (state.migration_id
        ++ (codes "-"
            ++ (decimal (phase_number state.phase)
                ++ (codes "-" ++ (label state.phase ++ codes ".json")))))
