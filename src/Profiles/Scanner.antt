-- ===== src/Profiles/Scanner.antt =====
-- `ProfileScanner` of crates/core-profiles/src/scanner.rs: one profile for each key of the
-- profile list, with the anomalies that its registry values and its directory show.
pub mod Facts
use win_profile.Base.{
  ℕ, ◌+◌, Bool, true, false, not, ◌&&◌, List, [], ◌∷◌, ◌++◌, Option, none, some, map, Result, ok,
  err, Text, codes, decimal, trim, contains_text, ends_with, strip_suffix, is_empty, ◌==◌,
  if◌then◌else◌,
}
use Prim.Native.Nat.{bit_and}
use win_profile.Platform.Registry.Api.{
  RegistryError, win32_error, value_not_found, RegistryRoot, local_machine, users, Win32Registry,
  error_file_not_found, key_read,
}
use win_profile.Platform.Registry.Display.{display}
use win_profile.Platform.Registry.Keys.{open_key, enum_subkeys}
use win_profile.Platform.Registry.Values.{query_value_string, query_value_u32}
use win_profile.Profiles.DirectorySize.{Entry, directory_size, join_path}
use win_profile.Profiles.Models.{
  ProfileAnomaly, bak_suffix, temp_session, path_collision, dirty_state_mask, locked_ntuser_dat,
  missing_directory, registry_read_failure, sid_resolution_failure, filesystem_scan_failure,
  lock_inspection_failure, UserProfile, healthy, compute_health, bak_extension, ntuser_dat,
  usrclass_dat_rel_path, reg_key_profile_list, val_profile_image_path, val_state, val_ref_count,
  val_guid, state_temp_profile, system_sid_prefixes,
}

-- A process that holds a file, as the Restart Manager lists it.
pub record LockingProcess : Type 0 where
  pub process_id : ℕ
  pub app_name : Text

-- What the scanner asks of the machine besides the registry: environment expansion, the accounts,
-- the file system below a path and the Restart Manager's answer for a file.
pub record Probes (S : Type 0) : Type 0 where
  pub expand : Text → Result RegistryError Text
  pub lookup_account : Text → S → Result Text (Text × Text)
  pub is_dir : Text → S → Bool
  pub is_file : Text → S → Bool
  pub not_a_directory : Text
  pub entry_at : Text → S → Entry
  pub locking_processes : Text → S → Result Text (List LockingProcess)

pub data ScannerError : Type 0 where
  registry_error : RegistryError → ScannerError
  profile_key_unreadable : Text → RegistryError → ScannerError

-- `format!("{value_name}: {error}")` as an anomaly.
abbrev pub read_failure : Text → Text → ProfileAnomaly
read_failure name detail = registry_read_failure (name ++ (codes ": " ++ detail))

unfoldable pub required_string :
    Text → Result RegistryError Text → List ProfileAnomaly → Text × List ProfileAnomaly
required_string name (ok value) anomalies =
    if is_empty (trim value)
    then ([], anomalies ++ read_failure name (codes "empty value") ∷ [])
    else (value, anomalies)
required_string name (err error) anomalies =
    ([], anomalies ++ read_failure name (display error) ∷ [])

unfoldable pub optional_string :
    Text → Result RegistryError Text → List ProfileAnomaly → Option Text × List ProfileAnomaly
optional_string name (ok value) anomalies = (some value, anomalies)
optional_string name (err (value_not_found _)) anomalies = (none, anomalies)
optional_string name (err error) anomalies =
    (none, anomalies ++ read_failure name (display error) ∷ [])

unfoldable pub optional_u32 :
    Text → Result RegistryError ℕ → List ProfileAnomaly → ℕ × List ProfileAnomaly
optional_u32 name (ok value) anomalies = (value, anomalies)
optional_u32 name (err (value_not_found _)) anomalies = (0, anomalies)
optional_u32 name (err error) anomalies = (0, anomalies ++ read_failure name (display error) ∷ [])

-- The account of a SID, or the SID itself as a user name.
unfoldable pub resolve_account :
    Text → Result Text (Text × Text) → List ProfileAnomaly → (Text × Text) × List ProfileAnomaly
resolve_account sid (ok account) anomalies = (account, anomalies)
resolve_account sid (err error) anomalies =
    (([], sid), anomalies ++ sid_resolution_failure error ∷ [])

-- Whether the user's hive is mounted.
unfoldable pub loaded_of :
    {H : Type 0} → Text → Result RegistryError H → List ProfileAnomaly → Bool × List ProfileAnomaly
loaded_of sid (ok _) anomalies = (true, anomalies)
loaded_of sid (err error) anomalies =
    let failure : ProfileAnomaly =
      registry_read_failure (codes "HKEY_USERS\\" ++ (sid ++ (codes ": " ++ display error))) in
    elim error [
      | win32_error code ↦
          (false, if code == error_file_not_found then anomalies else anomalies ++ failure ∷ [])
      | _ ↦ (false, anomalies ++ failure ∷ [])
    ]

-- The anomalies of the key's name and of its `State` value.
unfoldable pub state_anomalies : Bool → ℕ → List ProfileAnomaly → List ProfileAnomaly
state_anomalies is_bak mask anomalies =
    let temp = bit_and mask state_temp_profile in
    let a1 = if is_bak then anomalies ++ bak_suffix ∷ [] else anomalies in
    let a2 = if not (temp == 0) then a1 ++ temp_session ∷ [] else a1 in
    if not (mask == 0) && temp == 0 then a2 ++ dirty_state_mask mask ∷ [] else a2

unfoldable pub directory_anomalies : Text → Bool → List ProfileAnomaly → List ProfileAnomaly
directory_anomalies p exists anomalies =
    if exists then anomalies else anomalies ++ missing_directory p ∷ []

unfoldable pub process_label : LockingProcess → Text
process_label q = q.app_name ++ (codes " (PID: " ++ (decimal q.process_id ++ codes ")"))

unfoldable pub inspect_locks :
    Result Text (List LockingProcess) → List ProfileAnomaly → List ProfileAnomaly
unfolding process_label
inspect_locks (ok processes) anomalies =
    if is_empty processes
    then anomalies
    else anomalies ++ locked_ntuser_dat (map process_label processes) ∷ []
inspect_locks (err error) anomalies = anomalies ++ lock_inspection_failure error ∷ []

unfoldable pub size_of : Result Text ℕ → List ProfileAnomaly → ℕ × List ProfileAnomaly
size_of (ok size) anomalies = (size, anomalies)
size_of (err error) anomalies = (0, anomalies ++ filesystem_scan_failure error ∷ [])

unfoldable pub canonical_name : Text → Text
unfolding strip_suffix
canonical_name name = elim (strip_suffix name bak_extension) [ none ↦ name | some s ↦ s ]

-- The values of a profile's key, with the anomalies that reading them showed.
pub record ProfileValues : Type 0 where
  pub path : Text
  pub mask : ℕ
  pub refs : ℕ
  pub guid : Option Text
  pub account : Text × Text
  pub loaded : Bool
  pub anomalies : List ProfileAnomaly

module _ (R : Win32Registry) (P : Probes R.State) where
  open R use {State}

  -- The values of an opened key, in the order in which they are read.
  unfoldable pub read_values : Text → R.Hkey → State → ProfileValues × State
  read_values canonical key s0 =
      let (image, s1) = query_value_string R P.expand key val_profile_image_path s0 in
      let (path, a1) = required_string val_profile_image_path image [] in
      let (state, s2) = query_value_u32 R key val_state s1 in
      let (mask, a2) = optional_u32 val_state state a1 in
      let (count, s3) = query_value_u32 R key val_ref_count s2 in
      let (refs, a3) = optional_u32 val_ref_count count a2 in
      let (id, s4) = query_value_string R P.expand key val_guid s3 in
      let (guid, a4) = optional_string val_guid id a3 in
      let (account, a5) = resolve_account canonical (P.lookup_account canonical s4) a4 in
      let (hive, s5) = open_key R users canonical key_read s4 in
      let (loaded, a6) = loaded_of canonical hive a5 in
      (
        record {
          path = path;
          mask = mask;
          refs = refs;
          guid = guid;
          account = account;
          loaded = loaded;
          anomalies = a6;
        },
        s5,
      )

  -- The anomalies of the key's name, the state and the directory, and the finished profile.
  unfoldable pub finish_profile : Text → Text → ProfileValues → State → UserProfile
  finish_profile name canonical v s =
      let is_bak = ends_with name bak_extension in
      let exists = P.is_dir v.path s in
      let a7 = directory_anomalies v.path exists (state_anomalies is_bak v.mask v.anomalies) in
      let ntuser_path = join_path v.path ntuser_dat in
      let ntuser = P.is_file ntuser_path s in
      let a8 =
        if exists && ntuser && not v.loaded
        then inspect_locks (P.locking_processes ntuser_path s) a7
        else a7 in
      let sized =
        if exists
        then size_of (directory_size P.not_a_directory v.path (P.entry_at v.path s)) a8
        else (0, a8) in
      compute_health (record {
        sid = name;
        canonical_sid = canonical;
        username = v.account.1;
        domain = v.account.0;
        profile_path = v.path;
        loaded = v.loaded;
        is_bak = is_bak;
        state_mask = v.mask;
        ref_count = v.refs;
        guid = v.guid;
        ntuser_exists = ntuser;
        usrclass_exists = P.is_file (join_path v.path usrclass_dat_rel_path) s;
        disk_size_bytes = sized.0;
        anomalies = sized.1;
        health = healthy;
      })

  -- What a round does with the key that it opened.
  unfoldable pub read_opened :
      Text
      → Text
      → Result RegistryError R.Hkey
      → State
      → Result ScannerError (Option UserProfile) × State
  read_opened name canonical (err source) s = (err (profile_key_unreadable name source), s)
  read_opened name canonical (ok key) s =
      let (v, t) = read_values canonical key s in (ok (some (finish_profile name canonical v t)), t)

  -- One round of the loop of `scan_all_profiles`; a system account is passed over.
  unfoldable pub scan_key : Text → State → Result ScannerError (Option UserProfile) × State
  scan_key name s =
      let canonical = canonical_name name in
      if contains_text canonical system_sid_prefixes
      then (ok none, s)
      else (let (opened, s') =
            open_key R local_machine (reg_key_profile_list ++ (codes "\\" ++ name)) key_read s in
          read_opened name canonical opened s')

  unfoldable pub scan_keys :
      List Text → List UserProfile → State → Result ScannerError (List UserProfile) × State
  scan_keys [] profiles s = (ok profiles, s)
  scan_keys (name ∷ names) profiles s =
      let (r, s') = scan_key name s in
      elim r [
        | err e ↦ (err e, s')
        | ok none ↦ scan_keys names profiles s'
        | ok (some p) ↦ scan_keys names (profiles ++ p ∷ []) s'
      ]
