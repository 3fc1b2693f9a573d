-- ===== src/Tests/Migrations.antt =====
-- Runs of the legacy transition on calls that succeed.
use win_profile.Base.{
  ℕ, ◌+◌, ◌≤◌, ◌≡◌, ◌≢◌, ◌⊎◌, refl, List, [], ◌∷◌, none, some, ok, err, codes, length, All, arith,
  decimal, ends_with, strip_suffix,
}
use win_profile.Audit.Journal.{not_found}
use win_profile.Audit.Legacy.{
  prepared, detached, root_ready, audit_pending, phase_number, label, MigrationStateRecord,
  state_file_name, recovery_plan, next,
}
use win_profile.Audit.Legacy.Calls.{Calls}
use win_profile.Audit.Legacy.Transition.{
  product_directory, with_phase, prepared_record, existing_state, write_state, after_persist,
  persist_prepared_state, activate_prepared, start_operation, finish_privileged_namespace,
  privileged, start_namespace, detach_again, activate_again, resume_detached, resume_prepared,
  resume_operation, resume_namespace, mark_pending, execute_recovery, publish_state,
}
use win_profile.Audit.Legacy.Recovery.{
  execute_recovery-fresh, execute_recovery-resumed, start_namespace-exchanged,
}
use win_profile.Audit.Legacy.Pending.{
  add_record, insert_by_phase, sort_by_phase, is_next, follows, check_windows, check_sorted,
  check_group, unfinished, choose_pending, load_record, load_groups, load_pending_from_bootstrap,
}
use win_profile.Audit.Legacy.Pending.Runs.{
  Agrees, IsUnfinished, check_group-IsRun, HasPhases, load_pending_from_bootstrap-IsUnfinished,
}
use win_profile.Audit.Legacy.Bootstrap.{Roots, inspect_under, recover}
use win_profile.Audit.Legacy.Bootstrap.Unchanged.{ReadsOnly, inspect_under-unchanged}

abbrev state : MigrationStateRecord
state = record {
  schema = 1;
  migration_id = codes "r";
  phase = prepared;
  source_identity = 7;
  next_identity = 9;
  legacy_name = codes "WinProfile.Legacy.Untrusted.r";
  next_name = codes "WinProfile.Next.r";
}

-- The state counts the calls that change something.
unfoldable calls : Calls ℕ
calls = record {
  Object = ℕ;
  Directory = Unit {0};
  Temp = Unit {0};
  File = Unit {0};
  error_text = λ e. [];
  storage_text = λ e. [];
  enable_privileges = λ s. (ok tt, s);
  restore_privileges = λ s. (ok tt, s);
  open_object_for_detach = λ n s. (ok 7, s);
  object_identity = λ o. o;
  rename_object = λ o n s. (ok tt, s + 1);
  open_object_identity = λ n s. (ok 7, s);
  create_protected_child = λ n s. (ok tt, s + 1);
  open_existing_child_for_rename = λ n s. (ok tt, s);
  directory_identity = λ d s. (ok 9, s);
  rename_directory = λ d n s. (ok tt, s + 1);
  validate_production_root = λ d s. (ok tt, s);
  remove = λ d s. (ok tt, s + 1);
  open_existing_root = λ s. (ok tt, s);
  random_id = λ s. (ok (codes "r"), s);
  entries = λ s. (ok (some (codes "migration-r-0-prepared.json") ∷ none ∷ []), s);
  read_bytes = λ n s. (ok (ok []), s);
  from_json = λ b. ok state;
  read_state = λ n s. (err not_found, s);
  drop_state_file = λ temp s. s;
  create_state_file = λ n s. (ok tt, s + 1);
  to_json = λ r. ok [];
  write_synced = λ t b s. (ok tt, s + 1);
  publish = λ t n s. (ok tt, s + 1);
  sync_all = λ f s. (ok tt, s);
}

fresh_runs : (execute_recovery calls none 7 0).0 ≡ ok (with_phase audit_pending state)
unfolding calls execute_recovery start_namespace privileged start_operation prepared_record
    persist_prepared_state after_persist write_state existing_state publish_state activate_prepared
    finish_privileged_namespace mark_pending recovery_plan state_file_name label phase_number
    decimal
fresh_runs = refl

execute_recovery-fresh_example :
    ((with_phase audit_pending state).phase ≡ audit_pending)
    × ((with_phase audit_pending state).source_identity ≡ 7)
execute_recovery-fresh_example =
    execute_recovery-fresh calls 7 0 (with_phase audit_pending state) fresh_runs

resumed_runs : (execute_recovery calls (some state) 7 0).0 ≡ ok (with_phase audit_pending state)
unfolding calls execute_recovery resume_namespace privileged resume_operation resume_prepared
    resume_detached detach_again activate_again write_state existing_state publish_state
    finish_privileged_namespace mark_pending recovery_plan state_file_name label phase_number
    decimal
resumed_runs = refl

execute_recovery-resumed_example :
    (with_phase audit_pending state ≡ with_phase audit_pending state)
    × (phase_number state.phase ≤ 3)
execute_recovery-resumed_example =
    execute_recovery-resumed calls state 7 0 (with_phase audit_pending state) resumed_runs

exchanged :
    (source : calls.Object)
    → (calls.open_object_for_detach product_directory (calls.enable_privileges 0).1).0 ≡ ok source
    → calls.object_identity source ≢ 8
unfolding calls
exchanged source e = ground arith

start_namespace-exchanged_example :
    ((start_namespace calls 8 0).1 ≡ (calls.enable_privileges 0).1)
    ⊎ ((start_namespace calls 8 0).1
        ≡ (calls.restore_privileges
            (calls.open_object_for_detach product_directory (calls.enable_privileges 0).1).1).1)
start_namespace-exchanged_example = start_namespace-exchanged calls 8 0 exchanged

abbrev shuffled : List MigrationStateRecord
shuffled = with_phase root_ready state ∷ with_phase prepared state ∷ with_phase detached state ∷ []

shuffled_runs : check_group shuffled ≡ ok (with_phase root_ready state)
unfolding check_group sort_by_phase insert_by_phase check_sorted check_windows follows is_next next
    phase_number
shuffled_runs = refl

check_group-IsRun_example :
    All (Agrees (with_phase root_ready state)) (sort_by_phase shuffled)
    × (length shuffled ≡ phase_number (with_phase root_ready state).phase + 1)
    × HasPhases 0 (sort_by_phase shuffled)
check_group-IsRun_example = check_group-IsRun shuffled (with_phase root_ready state) shuffled_runs

loaded : (load_pending_from_bootstrap calls 0).0 ≡ ok (some state)
unfolding calls load_pending_from_bootstrap load_groups load_record add_record ends_with
    strip_suffix state_file_name label phase_number decimal unfinished check_group sort_by_phase
    insert_by_phase check_sorted check_windows choose_pending
loaded = refl

load_pending_from_bootstrap-IsUnfinished_example : IsUnfinished state
load_pending_from_bootstrap-IsUnfinished_example =
    load_pending_from_bootstrap-IsUnfinished calls 0 state loaded

unfoldable roots : Roots ℕ calls.Directory
unfolding calls
roots = record {
  open_existing_child = λ n s. (ok tt, s);
  open_or_create_root = λ s. (ok tt, s + 1);
  acquire_bootstrap_lock = λ s. (ok tt, s + 1);
  release_bootstrap_lock = λ s. s + 1;
}

reads_only : ReadsOnly calls roots
unfolding calls roots
reads_only = record {
  open_child = λ n s. refl;
  validate = λ d s. refl;
  list = λ s. refl;
  read = λ n s. refl;
  open_root = λ s. refl;
  open_identity = λ n s. refl;
}

inspect_under-unchanged_example :
    ((inspect_under calls roots 0).1 ≡ 0)
    ⊎ (((calls.open_existing_root 0).0 ≡ err not_found)
        × ((inspect_under calls roots 0).1 ≡ (roots.open_or_create_root 0).1))
inspect_under-unchanged_example = inspect_under-unchanged calls roots reads_only 0

recover_runs : (recover calls roots 7 0).0 ≡ ok (with_phase audit_pending state)
unfolding calls roots recover load_pending_from_bootstrap resume_prepared detach_again write_state
    resume_detached activate_again
recover_runs = refl
