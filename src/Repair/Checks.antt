-- ===== src/Repair/Checks.antt =====
-- The checks of crates/core-profiles/src/repair.rs that precede every change: the selected
-- actions, the lock contract, the SID, the live session and the registry keys.
use win_profile.Base.{
  ℕ, Bool, true, false, not, ◌&&◌, ◌||◌, ◌++◌, Result, ok, err, Program, pure, ◌>>=◌, ◌>>◌,
  with_error, raise_if, Text, codes, text_eq, trim, trim_end_matches, to_ascii_lowercase,
  starts_with, split, is_ascii_digit, is_empty, all, drop, ◌==◌, if◌then◌else◌,
}
use win_profile.Platform.Registry.Api.{
  RegistryError, win32_error, local_machine, users, Win32Registry, error_file_not_found, key_read,
}
use win_profile.Platform.Registry.Keys.{open_key, open_subkey, subkey_exists}
use win_profile.Platform.Registry.Values.{query_value_string}
use win_profile.Profiles.DirectorySize.{join_path}
use win_profile.Profiles.Models.{
  RepairPlan, bak_extension, ntuser_dat, reg_key_profile_list, val_profile_image_path,
}
use win_profile.Repair.Env.{
  RepairError, session_active, no_action_selected, invalid_sid, missing_registry_key,
  registry_error, lock_inspection_failed, manual_close_required, transaction_failed, Services,
}

is_digits : Text → Bool
is_digits part = not (is_empty part) && all is_ascii_digit part

unfoldable pub is_valid_sid : Text → Bool
unfolding is_digits split
is_valid_sid value = starts_with value (codes "S-1-") && all is_digits (drop 1 (split b'-' value))

is_separator : ℕ → Bool
is_separator c = c == b'\\' || c == b'/'

unfoldable pub normalize_profile_path : Text → Text
unfolding is_separator trim trim_end_matches to_ascii_lowercase
normalize_profile_path value = to_ascii_lowercase (trim_end_matches is_separator (trim value))

-- `format!("{canonical}{BAK_EXTENSION}")`
abbrev pub bak_name : RepairPlan → Text
bak_name plan = plan.canonical_sid ++ bak_extension

unfoldable pub validate_selected_actions :
    {S : Type 0} → RepairPlan → Program S RepairError (Unit {0})
validate_selected_actions plan =
    raise_if (not plan.fix_bak && not plan.reset_state) no_action_selected

flag_text : Bool → Text
flag_text true = codes "true"
flag_text false = codes "false"

-- The note of a plan that passed.
unfoldable pub preflight_text : RepairPlan → Bool → Text
unfolding flag_text
preflight_text plan canonical_exists =
    codes "Preflight passed: fix_bak="
    ++ (flag_text plan.fix_bak
        ++ (codes ", reset_state="
            ++ (flag_text plan.reset_state
                ++ (codes ", unlock_hive="
                    ++ (flag_text plan.unlock_hive
                        ++ (codes ", canonical_exists=" ++ flag_text canonical_exists))))))

-- Whether the user's hive is mounted now.
unfoldable pub live_loaded : {H : Type 0} → Result RegistryError H → Result RepairError Bool
live_loaded (ok _) = ok true
live_loaded (err (win32_error code)) =
    if code == error_file_not_found then ok false else err (registry_error (win32_error code))
live_loaded (err error) = err (registry_error error)

module _ (R : Win32Registry) (V : Services R.State) where
  open R use {State, Hkey}

  abbrev pub Repair : Type 0 → Type 0
  Repair A = Program State RepairError A

  -- `f(..)?` on the registry.
  abbrev pub registry : {A : Type 0} → Program State RegistryError A → Repair A
  registry m = with_error registry_error m

  unfoldable pub validate_lock_contract : RepairPlan → Repair (Unit {0})
  validate_lock_contract plan = do
    raise_if (is_empty (trim plan.profile_path) || not (V.is_absolute plan.profile_path)) (
        transaction_failed (codes "LockInspection")
          (codes "profile path must be absolute before NTUSER.DAT lock inspection"))
    blockers ←
        with_error lock_inspection_failed (V.inspect (join_path plan.profile_path ntuser_dat))
    raise_if (not (is_empty blockers)) (manual_close_required blockers)

  -- The `.bak` key must be there and name a profile path.
  unfoldable pub validate_bak_key : RepairPlan → Hkey → Repair (Unit {0})
  validate_bak_key plan parent = do
    found ← registry (subkey_exists R parent (bak_name plan))
    raise_if (not found) (missing_registry_key (bak_name plan))
    bak ← registry (open_subkey R parent (bak_name plan) key_read)
    profile_path ← registry (query_value_string R V.expand bak val_profile_image_path)
    raise_if (is_empty (trim profile_path)) (
        transaction_failed (codes "Preflight") (codes "the .bak key has an empty ProfileImagePath"))

  unfoldable pub validate_canonical_key : RepairPlan → Hkey → Repair (Unit {0})
  validate_canonical_key plan parent = do
    found ← registry (subkey_exists R parent plan.canonical_sid)
    raise_if (not found) (missing_registry_key plan.canonical_sid)

  -- The keys that the selected actions need.
  unfoldable pub validate_keys : RepairPlan → Hkey → Repair (Unit {0})
  validate_keys plan parent =
      if plan.fix_bak
      then validate_bak_key plan parent
      else if plan.reset_state
      then validate_canonical_key plan parent
      else pure tt

  mismatch : RepairPlan → Text → RepairError
  mismatch plan selected = transaction_failed (codes "Preflight") (
      codes "selected registry path '"
      ++ (selected ++ (codes "' does not match plan path '" ++ (plan.profile_path ++ codes "'"))))

  unfoldable pub session_is_live : RepairPlan → Repair Bool
  session_is_live plan s =
      let (opened, s') = open_key R users plan.canonical_sid key_read s in (live_loaded opened, s')

  -- The session as the caller and as the registry see it.
  unfoldable pub validate_session : RepairPlan → Bool → Repair (Unit {0})
  validate_session plan is_loaded = do
    raise_if (not (is_valid_sid plan.canonical_sid)) (invalid_sid plan.canonical_sid)
    raise_if (not (text_eq plan.sid plan.canonical_sid) && not (text_eq plan.sid (bak_name plan)))
        (invalid_sid plan.sid)
    live ← session_is_live plan
    raise_if (is_loaded || live) session_active

  unfoldable pub validate_plan : RepairPlan → Bool → Repair Text
  unfolding mismatch
  validate_plan plan is_loaded = do
    validate_selected_actions plan
    validate_session plan is_loaded
    parent ← registry (open_key R local_machine reg_key_profile_list key_read)
    found ← registry (subkey_exists R parent plan.sid)
    raise_if (not found) (missing_registry_key plan.sid)
    selected ← registry (open_subkey R parent plan.sid key_read)
    path ← registry (query_value_string R V.expand selected val_profile_image_path)
    raise_if
        (not (text_eq (normalize_profile_path path) (normalize_profile_path plan.profile_path)))
        (mismatch plan path)
    validate_keys plan parent
    canonical_exists ← registry (subkey_exists R parent plan.canonical_sid)
    pure (preflight_text plan canonical_exists)
