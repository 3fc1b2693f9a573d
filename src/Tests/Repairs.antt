-- ===== src/Tests/Repairs.antt =====
-- Runs of the repair engine on the small machine.
use win_profile.Base.{
  ℕ, ◌≡◌, refl, ◌⊎◌, true, false, List, [], ◌∷◌, ◌++◌, some, ok, err, Program, Text, codes, arith,
  All, is_ok, ◌==◌, if◌then◌else◌, trim, ascii_lower, decimal, ends_with, join, split, strip_suffix,
  to_ascii_lowercase, trim_end_matches, trim_start_matches,
}
use win_profile.Platform.Registry.Display.{display}
use win_profile.Platform.Registry.Keys.{
  open_key, subkey_exists, open_key_raw, open_subkey, rename_subkey,
}
use win_profile.Platform.Registry.Values.{
  query_value_string, decode_registry_string, fill, from_le_bytes, query_string_buffer,
  query_value_u32, set_value_u32, u32_to_le_bytes, units_of_bytes,
}
use win_profile.Platform.Wide.{from_wide_null, to_wide_null}
use win_profile.Profiles.DirectorySize.{join_path}
use win_profile.Repair.Checks.{
  validate_selected_actions, validate_lock_contract, validate_plan, validate_session, is_valid_sid,
  session_is_live, live_loaded, normalize_profile_path, validate_keys, preflight_text,
  validate_bak_key, validate_canonical_key,
}
use win_profile.Repair.Engine.{
  execute_plan, preflight, change_registry, conclude, held, or_none, recover,
  report_failed_rollback, run_plan, settle, transact, no_mutation,
}
use win_profile.Repair.Rollback.{
  after_inspection, after_rename, attempt_all, attempt_all_then_audit, audit_summary, restore_one,
  rollback, rollback_names, rollback_summary, undo_rename,
}
use win_profile.Repair.Steps.{
  create_required_snapshots, execute_steps, move_bak, preserve_canonical, rename_steps,
  reset_values, snapshot_paths, verify, verify_names, verify_path, verify_reset,
}
use win_profile.Tests.Machine.{services, start, children, machine, view, plan, list_handle}
use win_profile.Platform.Registry.Api.{local_machine}
use win_profile.Platform.Registry.View.{SameContents, SameContents-refl, SameNames, is_plain}
use win_profile.Profiles.Models.{reg_key_profile_list}
use win_profile.Repair.Env.{RepairSnapshot}
use win_profile.Repair.Engine.Repaired.{execute_plan-repaired}
use win_profile.Repair.Engine.Verified.{IsRepaired}
use win_profile.Repair.Engine.Frame.{execute_plan-frame}
use win_profile.Repair.Engine.Accepted.{IsAccepted, preflight-IsAccepted}
use win_profile.Repair.Rollback.Forward.{rollback_names-execute_steps}
use win_profile.Repair.Rollback.Attempts.{
  outcomes, failures, rollback_complete, attempt_all_then_audit_lem,
}
use win_profile.Tests.Laws.{reads, renames, contents_frame, names_frame}

execute_plan_runs : (execute_plan machine services plan false start).0 ≡ ok tt
unfolding execute_plan services preflight validate_selected_actions validate_lock_contract trim
    validate_plan validate_session is_valid_sid session_is_live live_loaded open_key subkey_exists
    start query_value_string normalize_profile_path validate_keys ascii_lower decimal ends_with join
    split strip_suffix to_ascii_lowercase trim_end_matches trim_start_matches display open_key_raw
    open_subkey rename_subkey decode_registry_string fill from_le_bytes query_string_buffer
    query_value_u32 set_value_u32 u32_to_le_bytes units_of_bytes from_wide_null to_wide_null
    join_path preflight_text validate_bak_key validate_canonical_key change_registry conclude held
    or_none recover report_failed_rollback run_plan settle transact after_inspection after_rename
    attempt_all attempt_all_then_audit audit_summary restore_one rollback rollback_names
    rollback_summary undo_rename create_required_snapshots execute_steps move_bak preserve_canonical
    rename_steps reset_values snapshot_paths verify verify_names verify_path verify_reset children
    machine
execute_plan_runs = refl

list_stays :
    (s : machine.State) (k : view.Key)
    → view.child s (view.key_of (machine.predefined local_machine)) reg_key_profile_list ≡ some k
    → k ≡ view.key_of list_handle
unfolding view machine children list_handle to_wide_null
list_stays s k e = ground arith

release_keeps : (t : machine.State) → SameContents view t (services.release_operation_guard t)
unfolding services
release_keeps t = SameContents-refl view t

acquire_keeps : (t : machine.State) → SameContents view t (services.acquire_operation_guard t).1
unfolding services
acquire_keeps t = SameContents-refl view t

execute_plan-repaired_example :
    IsRepaired view reads services contents_frame plan
      (view.key_of list_handle)
      (execute_plan machine services plan false start).1
execute_plan-repaired_example =
    execute_plan-repaired view reads services contents_frame (view.key_of list_handle) list_stays
      plan false start tt release_keeps refl execute_plan_runs

execute_plan-frame_example :
    SameContents view start (execute_plan machine services plan true start).1
    ⊎ ((plan.dry_run ≡ false)
        × ((note : Text) × ((preflight machine services plan true
                (services.acquire_operation_guard start).1).0
              ≡ ok note)))
execute_plan-frame_example =
    execute_plan-frame machine services (SameContents view) contents_frame plan true start
      acquire_keeps release_keeps

unfoldable preflight_note : Text
unfolding preflight_text
preflight_note = preflight_text plan false

preflight_runs : (preflight machine services plan false start).0 ≡ ok preflight_note
unfolding preflight_note execute_plan services preflight validate_selected_actions
    validate_lock_contract trim validate_plan validate_session is_valid_sid session_is_live
    live_loaded open_key subkey_exists start query_value_string normalize_profile_path validate_keys
    ascii_lower decimal ends_with join split strip_suffix to_ascii_lowercase trim_end_matches
    trim_start_matches display open_key_raw open_subkey rename_subkey decode_registry_string fill
    from_le_bytes query_string_buffer query_value_u32 set_value_u32 u32_to_le_bytes units_of_bytes
    from_wide_null to_wide_null join_path preflight_text validate_bak_key validate_canonical_key
    change_registry conclude held or_none recover report_failed_rollback run_plan settle transact
    after_inspection after_rename attempt_all attempt_all_then_audit audit_summary restore_one
    rollback rollback_names rollback_summary undo_rename create_required_snapshots execute_steps
    move_bak preserve_canonical rename_steps reset_values snapshot_paths verify verify_names
    verify_path verify_reset children machine
preflight_runs = refl

preflight-IsAccepted_example : IsAccepted plan false
preflight-IsAccepted_example =
    preflight-IsAccepted machine services plan false start preflight_note preflight_runs

names_come_back :
    (rollback_names machine services plan list_handle
      (execute_steps machine services plan list_handle (start, no_mutation)).1.1
      (execute_steps machine services plan list_handle (start, no_mutation)).1.0).0
    ≡ []
unfolding list_handle execute_plan services preflight validate_selected_actions
    validate_lock_contract trim validate_plan validate_session is_valid_sid session_is_live
    live_loaded open_key subkey_exists start query_value_string normalize_profile_path validate_keys
    ascii_lower decimal ends_with join split strip_suffix to_ascii_lowercase trim_end_matches
    trim_start_matches display open_key_raw open_subkey rename_subkey decode_registry_string fill
    from_le_bytes query_string_buffer query_value_u32 set_value_u32 u32_to_le_bytes units_of_bytes
    from_wide_null to_wide_null join_path preflight_text validate_bak_key validate_canonical_key
    change_registry conclude held or_none recover report_failed_rollback run_plan settle transact
    after_inspection after_rename attempt_all attempt_all_then_audit audit_summary restore_one
    rollback rollback_names rollback_summary undo_rename create_required_snapshots execute_steps
    move_bak preserve_canonical rename_steps reset_values snapshot_paths verify verify_names
    verify_path verify_reset children machine
names_come_back = refl

set_keeps_names :
    (h : machine.Hkey) (n : List ℕ) (ty : ℕ) (data_ : List ℕ) (t : machine.State)
    → SameNames view (view.key_of list_handle) t (machine.reg_set_value_ex h n ty data_ t).1
unfolding machine view children list_handle
set_keeps_names h n ty data_ t = record { names = λ m plain. refl }

rollback_names-execute_steps_example :
    SameNames view
      (view.key_of list_handle)
      start
      (rollback_names machine services plan list_handle
        (execute_steps machine services plan list_handle (start, no_mutation)).1.1
        (execute_steps machine services plan list_handle (start, no_mutation)).1.0).1
rollback_names-execute_steps_example =
    rollback_names-execute_steps view reads renames services list_handle names_frame plan start
      (unfold is_plain in refl) (unfold services in λ t. refl) set_keeps_names names_come_back

unfoldable one_snapshot : List (RepairSnapshot services.Snapshot)
unfolding services
one_snapshot = record { metadata = tt; expected_registry_key_path = codes "HKLM\\X" } ∷ []

rollback_runs :
    (rollback machine services plan list_handle no_mutation one_snapshot start).0 ≡ ok tt
unfolding one_snapshot list_handle execute_plan services preflight validate_selected_actions
    validate_lock_contract trim validate_plan validate_session is_valid_sid session_is_live
    live_loaded open_key subkey_exists start query_value_string normalize_profile_path validate_keys
    ascii_lower decimal ends_with join split strip_suffix to_ascii_lowercase trim_end_matches
    trim_start_matches display open_key_raw open_subkey rename_subkey decode_registry_string fill
    from_le_bytes query_string_buffer query_value_u32 set_value_u32 u32_to_le_bytes units_of_bytes
    from_wide_null to_wide_null join_path preflight_text validate_bak_key validate_canonical_key
    change_registry conclude held or_none recover report_failed_rollback run_plan settle transact
    after_inspection after_rename attempt_all attempt_all_then_audit audit_summary restore_one
    rollback rollback_names rollback_summary undo_rename create_required_snapshots execute_steps
    move_bak preserve_canonical rename_steps reset_values snapshot_paths verify verify_names
    verify_path verify_reset children machine
rollback_runs = refl

rollback_complete_example :
    ((rollback_names machine services plan list_handle no_mutation start).0 ≡ [])
    × All
        (λ r. is_ok r ≡ true)
        (outcomes
          (restore_one machine services)
          one_snapshot
          (rollback_names machine services plan list_handle no_mutation start).1).0
rollback_complete_example =
    rollback_complete machine services plan list_handle no_mutation one_snapshot start tt
      rollback_runs

-- A restore that fails on 2, and an audit that fails.
abbrev restore_number : ℕ → Program (List ℕ) Text (Unit {0})
restore_number n s = if n == 2 then (err (codes "two"), s) else (ok tt, n ∷ s)

abbrev audit_number : List Text → Program (List ℕ) Text (Unit {0})
audit_number errors s = (err (codes "audit"), s)

attempt_all_then_audit_lem_example :
    attempt_all_then_audit restore_number audit_number (1 ∷ 2 ∷ 3 ∷ []) [] [] ≡ (
      []
          ++ failures (
              (outcomes restore_number (1 ∷ 2 ∷ 3 ∷ []) []).0
              ++ (audit_number
                  ([] ++ failures (outcomes restore_number (1 ∷ 2 ∷ 3 ∷ []) []).0)
                  (outcomes restore_number (1 ∷ 2 ∷ 3 ∷ []) []).1).0
                ∷ []),
      (audit_number
          ([] ++ failures (outcomes restore_number (1 ∷ 2 ∷ 3 ∷ []) []).0)
          (outcomes restore_number (1 ∷ 2 ∷ 3 ∷ []) []).1).1,
    )
attempt_all_then_audit_lem_example =
    attempt_all_then_audit_lem restore_number audit_number (1 ∷ 2 ∷ 3 ∷ []) [] []
