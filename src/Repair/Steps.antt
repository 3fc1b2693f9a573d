-- ===== src/Repair/Steps.antt =====
-- The steps of crates/core-profiles/src/repair.rs that change the registry, and their verification.
use win_profile.Base.{
  ℕ, true, false, not, ◌||◌, List, [], ◌∷◌, ◌++◌, some, ok, Program, pure, ◌>>=◌, ◌>>◌, with_error,
  raise_if, Text, codes, decimal, trim, is_empty, ◌==◌, if◌then◌else◌,
}
use win_profile.Platform.Registry.Api.{
  RegistryError, local_machine, Win32Registry, key_read, key_all_access,
}
use win_profile.Platform.Registry.Keys.{open_key, open_subkey, subkey_exists, rename_subkey}
use win_profile.Platform.Registry.Values.{query_value_string, query_value_u32, set_value_u32}
use win_profile.Profiles.Models.{
  RepairPlan, bak_extension, reg_key_profile_list, val_profile_image_path, val_state, val_ref_count,
}
use win_profile.Repair.Env.{
  RepairError, missing_registry_key, snapshot_error, transaction_failed, Services, RegistryMutation,
  RepairSnapshot, backup_suffix,
}
use win_profile.Repair.Checks.{Repair, registry, bak_name}

abbrev pub canonical_path : RepairPlan → Text
canonical_path plan = reg_key_profile_list ++ (codes "\\" ++ plan.canonical_sid)

module _ (R : Win32Registry) (V : Services R.State) where
  open R use {State, Hkey}

  -- The keys that a repair may change, the `.bak` key first.
  unfoldable pub snapshot_paths : RepairPlan → Repair R V (List Text)
  snapshot_paths plan =
      if plan.fix_bak
      then (do
        parent ← registry R V (open_key R local_machine reg_key_profile_list key_read)
        found ← registry R V (subkey_exists R parent plan.canonical_sid)
        pure (
            (canonical_path plan ++ bak_extension)
            ∷ (if found then canonical_path plan ∷ [] else [])))
      else pure (if plan.reset_state then canonical_path plan ∷ [] else [])

  take_snapshots :
      RepairPlan
      → List Text
      → List (RepairSnapshot V.Snapshot)
      → Repair R V (List (RepairSnapshot V.Snapshot))
  take_snapshots plan [] done = pure done
  take_snapshots plan (p ∷ paths) done = do
    metadata ← with_error snapshot_error (
        V.create_registry_snapshot p plan.canonical_sid plan.profile_path
          (codes "Mandatory pre-repair snapshot"))
    take_snapshots plan paths (
        done
        ++ record { metadata = metadata; expected_registry_key_path = codes "HKLM\\" ++ p } ∷ [])

  unfoldable pub create_required_snapshots :
      RepairPlan → Repair R V (List (RepairSnapshot V.Snapshot))
  unfolding take_snapshots
  create_required_snapshots plan = do paths ← snapshot_paths plan; take_snapshots plan paths []

  -- A step with the record of the mutations done so far, which an error keeps.
  abbrev pub Step : Type 0 → Type 0
  Step A = Program (State × RegistryMutation) RepairError A

  abbrev pub reg_step : {A : Type 0} → Program State RegistryError A → Step A
  reg_step m w = let (r, s) = registry R V m w.0 in (r, (s, w.1))

  abbrev pub note : (RegistryMutation → RegistryMutation) → Step (Unit {0})
  note f w = (ok tt, (w.0, f w.1))

  abbrev pub backup_name : RepairPlan → Text → Text
  backup_name plan stamp =
      plan.canonical_sid ++ (codes "." ++ (backup_suffix ++ (codes "-" ++ stamp)))

  -- An existing canonical key is kept under a name with the time.
  unfoldable pub preserve_canonical : RepairPlan → Hkey → Step (Unit {0})
  preserve_canonical plan parent = do
    exists ← reg_step (subkey_exists R parent plan.canonical_sid)
    (if exists
        then (do
          name ← (λ w. (ok (backup_name plan (V.timestamp w.0)), w))
          taken ← reg_step (subkey_exists R parent name)
          raise_if taken (
              transaction_failed (codes "RegistryRename")
                (codes "backup key already exists: " ++ name))
          reg_step (rename_subkey R parent plan.canonical_sid name)
          note (λ m. record m { canonical_backup = some name }))
        else pure tt)

  unfoldable pub move_bak : RepairPlan → Hkey → Step (Unit {0})
  move_bak plan parent = do
    reg_step (rename_subkey R parent (bak_name plan) plan.canonical_sid)
    note (λ m. record m { bak_moved = true })

  unfoldable pub reset_values : RepairPlan → Hkey → Step (Unit {0})
  reset_values plan parent = do
    canonical ← reg_step (open_subkey R parent plan.canonical_sid key_all_access)
    reg_step (set_value_u32 R canonical val_state 0)
    reg_step (set_value_u32 R canonical val_ref_count 0)

  still_there : RepairError
  still_there = transaction_failed (codes "Verification") (codes "the .bak key still exists")

  empty_path : RepairError
  empty_path = transaction_failed (codes "Verification") (codes "ProfileImagePath is empty")

  not_reset : ℕ → ℕ → RepairError
  not_reset state ref_count =
      transaction_failed (codes "Verification")
        (codes "State=" ++ (decimal state ++ (codes ", RefCount=" ++ decimal ref_count)))

  unfoldable pub verify_names : RepairPlan → Hkey → Repair R V (Unit {0})
  unfolding still_there
  verify_names plan parent = do
    found ← registry R V (subkey_exists R parent plan.canonical_sid)
    raise_if (not found) (missing_registry_key plan.canonical_sid)
    left ←
        (if plan.fix_bak then registry R V (subkey_exists R parent (bak_name plan)) else pure false)
    raise_if left still_there

  unfoldable pub verify_reset : RepairPlan → Hkey → Repair R V (Unit {0})
  unfolding not_reset
  verify_reset plan canonical =
      if plan.reset_state
      then (do
        state ← registry R V (query_value_u32 R canonical val_state)
        ref_count ← registry R V (query_value_u32 R canonical val_ref_count)
        raise_if (not (state == 0) || not (ref_count == 0)) (not_reset state ref_count))
      else pure tt

  unfoldable pub verify_path : Hkey → Repair R V (Unit {0})
  unfolding empty_path
  verify_path canonical = do
    path ← registry R V (query_value_string R V.expand canonical val_profile_image_path)
    raise_if (is_empty (trim path)) empty_path

  -- Every postcondition is read again.
  unfoldable pub verify : RepairPlan → Hkey → Repair R V (Unit {0})
  verify plan parent = do
    verify_names plan parent
    canonical ← registry R V (open_subkey R parent plan.canonical_sid key_read)
    verify_path canonical
    verify_reset plan canonical

  -- The renames of a `.bak` repair.
  unfoldable pub rename_steps : RepairPlan → Hkey → Step (Unit {0})
  rename_steps plan parent =
      if plan.fix_bak then (do preserve_canonical plan parent; move_bak plan parent) else pure tt

  unfoldable pub execute_steps : RepairPlan → Hkey → Step (Unit {0})
  execute_steps plan parent = do
    rename_steps plan parent
    (if plan.reset_state then reset_values plan parent else pure tt)
    (λ w. let (r, s) = verify plan parent w.0 in (r, (s, w.1)))
