-- ===== src/Platform/Registry/Keys.antt =====
-- Keys of crates/platform-win32/src/registry.rs: opening, creating, renaming, listing, saving.
use win_profile.Base.{
  ℕ, zero, suc, ◌+◌, Bool, true, false, List, [], ◌∷◌, ◌++◌, Option, none, some, Result, ok, err,
  Program, Text, ◌==◌, ◌||◌, if◌then◌else◌,
}
use win_profile.Platform.Wide.{to_wide_null, from_wide_null}
use win_profile.Platform.Registry.Api.{
  RegistryError, win32_error, invalid_utf16, RegistryRoot, Win32Registry, error_success,
  error_file_not_found, error_no_more_items, reg_latest_format, key_read,
}

-- A call that gives a status alone.
status_result : ℕ → Result RegistryError (Unit {0})
status_result status = if status == error_success then ok tt else err (win32_error status)

-- `delete_value` and `delete_tree` take a missing object for done.
absent_result : ℕ → Result RegistryError (Unit {0})
absent_result status =
    if status == error_success || status == error_file_not_found
    then ok tt
    else err (win32_error status)

module _ (R : Win32Registry) where
  open R use {State, Hkey}

  abbrev pub RegProgram : Type 0 → Type 0
  RegProgram A = Program State RegistryError A

  -- `OwnedHKey::from_raw`
  from_raw : Hkey → Option Hkey
  from_raw raw = if R.is_null raw then none else some raw

  -- The handle that a call gave, if its status is success and the handle is not null.
  owned_result : ℕ → Hkey → Result RegistryError Hkey
  unfolding from_raw
  owned_result status raw =
      if status == error_success
      then (elim (from_raw raw) [ some h ↦ ok h | none ↦ err (win32_error status) ])
      else err (win32_error status)

  unfoldable pub open_key_raw : Hkey → Text → ℕ → RegProgram Hkey
  unfolding owned_result to_wide_null
  open_key_raw root subkey sam s =
      let (out, s') = R.reg_open_key_ex root (to_wide_null subkey) sam s in
      (owned_result out.0 out.1, s')

  unfoldable pub open_key : RegistryRoot → Text → ℕ → RegProgram Hkey
  unfolding open_key_raw
  open_key root subkey sam = open_key_raw (R.predefined root) subkey sam

  unfoldable pub open_subkey : Hkey → Text → ℕ → RegProgram Hkey
  unfolding open_key_raw
  open_subkey parent subkey sam = open_key_raw parent subkey sam

  unfoldable pub create_key : Hkey → Text → ℕ → RegProgram Hkey
  unfolding owned_result to_wide_null
  create_key parent subkey sam s =
      let (out, s') = R.reg_create_key_ex parent (to_wide_null subkey) sam s in
      (owned_result out.0 out.1, s')

  unfoldable pub delete_tree : Hkey → Text → RegProgram (Unit {0})
  unfolding absent_result to_wide_null
  delete_tree key subkey s =
      let (status, s') = R.reg_delete_tree key (to_wide_null subkey) s in (absent_result status, s')

  unfoldable pub delete_value : Hkey → Text → RegProgram (Unit {0})
  unfolding absent_result to_wide_null
  delete_value key name s =
      let (status, s') = R.reg_delete_value key (to_wide_null name) s in (absent_result status, s')

  unfoldable pub rename_subkey : Hkey → Text → Text → RegProgram (Unit {0})
  unfolding status_result to_wide_null
  rename_subkey key old new s =
      let (status, s') = R.reg_rename_key key (to_wide_null old) (to_wide_null new) s in
      (status_result status, s')

  -- Not found is an answer; every other error is passed on.
  existence : Result RegistryError Hkey → Result RegistryError Bool
  existence (ok h) = ok true
  existence (err (win32_error code)) =
      if code == error_file_not_found then ok false else err (win32_error code)
  existence (err e) = err e

  unfoldable pub subkey_exists : Hkey → Text → RegProgram Bool
  unfolding existence open_subkey
  subkey_exists key subkey s =
      let (opened, s') = open_subkey key subkey key_read s in (existence opened, s')

  -- The names of 256 units at most, from `index` on; `none` where the fuel runs out.
  unfoldable pub enum_subkeys_from :
      ℕ → Hkey → ℕ → List Text → State → Option (Result RegistryError (List Text) × State)
  enum_subkeys_from zero key index results s = none
  enum_subkeys_from (suc fuel) key index results s =
      let (out, s') = R.reg_enum_key_ex key index 256 s in
      if out.0 == error_success
      then (elim (from_wide_null invalid_utf16 out.1) [
        | err e ↦ some (err e, s')
        | ok name ↦ enum_subkeys_from fuel key (index + 1) (results ++ name ∷ []) s'
      ])
      else if out.0 == error_no_more_items
      then some (ok results, s')
      else some (err (win32_error out.0), s')

  unfoldable pub enum_subkeys : ℕ → Hkey → State → Option (Result RegistryError (List Text) × State)
  unfolding enum_subkeys_from
  enum_subkeys fuel key s = enum_subkeys_from fuel key 0 [] s

  unfoldable pub save_key : Hkey → Text → RegProgram (Unit {0})
  unfolding status_result to_wide_null
  save_key key file s =
      let (status, s') = R.reg_save_key_ex key (to_wide_null file) reg_latest_format s in
      (status_result status, s')

  unfoldable pub load_hive : RegistryRoot → Text → Text → RegProgram (Unit {0})
  unfolding status_result to_wide_null
  load_hive root subkey file s =
      let (status, s') =
        R.reg_load_key (R.predefined root) (to_wide_null subkey) (to_wide_null file) s in
      (status_result status, s')

  unfoldable pub unload_hive : RegistryRoot → Text → RegProgram (Unit {0})
  unfolding status_result to_wide_null
  unload_hive root subkey s =
      let (status, s') = R.reg_unload_key (R.predefined root) (to_wide_null subkey) s in
      (status_result status, s')
