-- ===== src/Tests/Machine.antt =====
-- A registry with one changing key, `ProfileList`, and services that always succeed.
use win_profile.Base.{
  ℕ, true, false, ◌&&◌, List, [], ◌∷◌, ◌++◌, Option, none, some, ok, Text, codes, text_eq, length,
  leb, ◌==◌, if◌then◌else◌,
}
use win_profile.Platform.Wide.{Wide, to_wide_null}
use win_profile.Platform.Registry.Api.{
  RegistryRoot, local_machine, users, Win32Registry, QueryOutput, error_success,
  error_file_not_found, reg_sz,
}
use win_profile.Platform.Registry.View.{View}
use win_profile.Profiles.Models.{RepairPlan, reg_key_profile_list, val_profile_image_path}
use win_profile.Repair.Env.{Services}

-- The subkeys of `ProfileList`, and the values of every key.
pub record Hive : Type 0 where
  pub names : Wide → Option ℕ
  pub values : ℕ → Wide → Option (ℕ × List ℕ)

abbrev pub list_key : ℕ
list_key = 10

unfoldable pub children : Hive → ℕ → Wide → Option ℕ
unfolding to_wide_null
children s k w =
    if k == list_key
    then s.names w
    else if k == 1 && text_eq w (to_wide_null reg_key_profile_list)
    then some list_key
    else if k == 1 && text_eq w (to_wide_null (reg_key_profile_list ++ codes "\\S-1-5-21-7.bak"))
    then some 11
    else none

abbrev pub opened : Option ℕ → ℕ × ℕ
opened none = (error_file_not_found, 0)
opened (some k) = (error_success, k)

abbrev pub queried : Option ℕ → Option (ℕ × List ℕ) → QueryOutput
queried capacity none = record {
  status = error_file_not_found;
  value_type = 0;
  data_size = 0;
  bytes = [];
}
queried none (some (type, bytes)) = record {
  status = error_success;
  value_type = type;
  data_size = length bytes;
  bytes = [];
}
queried (some capacity) (some (type, bytes)) = record {
  status = if leb (length bytes) capacity then error_success else 234;
  value_type = type;
  data_size = length bytes;
  bytes = bytes;
}

abbrev pub moved : Hive → Wide → Wide → Option ℕ → Hive
moved s old new k = record s {
  names = λ w. if text_eq w new then k else if text_eq w old then none else s.names w;
}

abbrev pub rename : Hive → Wide → Wide → Option ℕ → Option ℕ → ℕ × Hive
rename s old new none there = (error_file_not_found, s)
rename s old new (some k) (some j) = (183, s)
rename s old new (some k) none = (error_success, moved s old new (some k))

abbrev pub set_value : Hive → ℕ → Wide → ℕ × List ℕ → Hive
set_value s k n v = record s {
  values = λ j w. if j == k && text_eq w n then some v else s.values j w;
}

abbrev pub root : RegistryRoot → ℕ
root local_machine = 1
root users = 2
root _ = 3

unfoldable pub machine : Win32Registry
unfolding children
machine = record {
  State = Hive;
  Hkey = ℕ;
  is_null = λ h. h == 0;
  predefined = root;
  reg_open_key_ex = λ h w sam s. (opened (children s h w), s);
  reg_create_key_ex = λ h w sam s. (opened (children s h w), s);
  reg_query_value_ex = λ h w capacity s. (queried capacity (s.values h w), s);
  reg_set_value_ex = λ h w type bytes s. (error_success, set_value s h w (type, bytes));
  reg_delete_value = λ h w s. (error_success, s);
  reg_delete_tree = λ h w s. (error_success, s);
  reg_rename_key =
      λ h old new s. if h == list_key then rename s old new (s.names old) (s.names new) else (5, s);
  reg_enum_key_ex = λ h i n s. ((259, []), s);
  reg_save_key_ex = λ h w f s. (error_success, s);
  reg_load_key = λ h w f s. (error_success, s);
  reg_unload_key = λ h w s. (error_success, s);
}

unfoldable pub view : View machine
unfolding machine children to_wide_null
view = record {
  Key = ℕ;
  key_of = λ h. h;
  child = λ s k n. children s k (to_wide_null n);
  value = λ s k n. s.values k (to_wide_null n);
  same = λ m n. text_eq (to_wide_null m) (to_wide_null n);
}

unfoldable pub services : Services machine.State
unfolding machine
services = record {
  Snapshot = Unit {0};
  expand = λ t. ok t;
  is_absolute = λ p. true;
  error_text = λ e. codes "error";
  timestamp = λ s. codes "20260101";
  acquire_operation_guard = λ s. (ok tt, s);
  release_operation_guard = λ s. s;
  log = λ e s. (ok tt, s);
  inspect = λ p s. (ok [], s);
  create_registry_snapshot = λ a b c d s. (ok tt, s);
  restore_registry_snapshot = λ a b s. (ok tt, s);
}

-- `ProfileList` with the `.bak` key of one user.
abbrev pub plan : RepairPlan
plan = record {
  sid = codes "S-1-5-21-7.bak";
  canonical_sid = codes "S-1-5-21-7";
  profile_path = codes "C:\\Users\\ann";
  fix_bak = true;
  reset_state = true;
  unlock_hive = false;
  dry_run = false;
}

abbrev pub string_bytes : Text → List ℕ
string_bytes [] = 0 ∷ 0 ∷ []
string_bytes (c ∷ s) = c ∷ 0 ∷ string_bytes s

unfoldable pub start : machine.State
unfolding machine to_wide_null
start = record {
  names = λ w. if text_eq w (to_wide_null plan.sid) then some 11 else none;
  values = λ k w.
      if text_eq w (to_wide_null val_profile_image_path)
      then some (reg_sz, string_bytes plan.profile_path)
      else none;
}

unfoldable pub list_handle : machine.Hkey
unfolding machine
list_handle = list_key
