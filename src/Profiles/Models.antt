-- ===== src/Profiles/Models.antt =====
-- crates/core-profiles/src/models.rs and constants.rs: profiles, anomalies, health and plans.
pub mod Health
use win_profile.Base.{
  ℕ, Bool, true, false, ◌||◌, List, [], ◌∷◌, ◌++◌, Option, none, some, Text, codes, any, is_empty,
  if◌then◌else◌,
}

pub data ProfileAnomaly : Type 0 where
  bak_suffix : ProfileAnomaly
  temp_session : ProfileAnomaly
  orphan_sid : ProfileAnomaly
  path_collision : Text → ProfileAnomaly
  dirty_state_mask : ℕ → ProfileAnomaly
  locked_ntuser_dat : List Text → ProfileAnomaly
  missing_directory : Text → ProfileAnomaly
  registry_read_failure : Text → ProfileAnomaly
  sid_resolution_failure : Text → ProfileAnomaly
  filesystem_scan_failure : Text → ProfileAnomaly
  lock_inspection_failure : Text → ProfileAnomaly

-- `t` is `crate::i18n::t`, which translates a key.
unfoldable pub localized_description : (Text → Text) → ProfileAnomaly → Text
localized_description t bak_suffix = t (codes "profile.status.bak_suffix")
localized_description t temp_session = t (codes "profile.status.temp_session")
localized_description t orphan_sid = t (codes "profile.status.orphan_sid")
localized_description t (path_collision _) = t (codes "profile.status.path_collision")
localized_description t (dirty_state_mask _) = t (codes "profile.status.dirty_state")
localized_description t (locked_ntuser_dat _) = t (codes "profile.status.hive_locked")
localized_description t (missing_directory _) = t (codes "profile.status.missing_directory")
localized_description t (registry_read_failure _) = t (codes "profile.status.registry_read_failure")
localized_description t (sid_resolution_failure _) =
    t (codes "profile.status.sid_resolution_failure")
localized_description t (filesystem_scan_failure _) =
    t (codes "profile.status.filesystem_scan_failure")
localized_description t (lock_inspection_failure _) =
    t (codes "profile.status.lock_inspection_failure")

pub data ProfileHealth : Type 0 where
  healthy warning corrupted : ProfileHealth

-- `health == other`, as derived.
abbrev pub health_eq : ProfileHealth → ProfileHealth → Bool
health_eq healthy healthy = true
health_eq warning warning = true
health_eq corrupted corrupted = true
health_eq _ _ = false

pub record UserProfile : Type 0 where
  pub sid : Text
  pub canonical_sid : Text
  pub username : Text
  pub domain : Text
  pub profile_path : Text
  pub loaded : Bool
  pub is_bak : Bool
  pub state_mask : ℕ
  pub ref_count : ℕ
  pub guid : Option Text
  pub ntuser_exists : Bool
  pub usrclass_exists : Bool
  pub disk_size_bytes : ℕ
  pub anomalies : List ProfileAnomaly
  pub health : ProfileHealth

-- The anomalies that `compute_health` takes for corruption.
unfoldable pub is_corrupting : ProfileAnomaly → Bool
is_corrupting bak_suffix = true
is_corrupting temp_session = true
is_corrupting (path_collision _) = true
is_corrupting _ = false

unfoldable pub compute_health : UserProfile → UserProfile
unfolding is_corrupting
compute_health p =
    if p.is_bak || any is_corrupting p.anomalies
    then record p { health = corrupted }
    else if is_empty p.anomalies
    then record p { health = healthy }
    else record p { health = warning }

-- The timestamp is an instant.
pub record DiagnosticReport : Type 0 where
  pub timestamp : ℕ
  pub total_count : ℕ
  pub healthy_count : ℕ
  pub warning_count : ℕ
  pub corrupted_count : ℕ
  pub temporary_count : ℕ
  pub profiles : List UserProfile

pub record RepairPlan : Type 0 where
  pub sid : Text
  pub canonical_sid : Text
  pub profile_path : Text
  pub fix_bak : Bool
  pub reset_state : Bool
  pub unlock_hive : Bool
  pub dry_run : Bool

pub record MigrationPlan : Type 0 where
  pub source_sid : Text
  pub source_path : Text
  pub target_path : Text
  pub include_roaming_appdata : Bool
  pub include_personal_folders : Bool

-- The constants of constants.rs that the models use.
abbrev pub bak_extension : Text
bak_extension = codes ".bak"

abbrev pub ntuser_dat : Text
ntuser_dat = codes "NTUSER.DAT"

abbrev pub usrclass_dat_rel_path : Text
usrclass_dat_rel_path = codes "AppData\\Local\\Microsoft\\Windows\\UsrClass.dat"

abbrev pub appdata_roaming_rel_path : Text
appdata_roaming_rel_path = codes "AppData\\Roaming"

abbrev pub reg_key_profile_list : Text
reg_key_profile_list = codes "SOFTWARE\\Microsoft\\Windows NT\\CurrentVersion\\ProfileList"

abbrev pub val_profile_image_path : Text
val_profile_image_path = codes "ProfileImagePath"

abbrev pub val_state : Text
val_state = codes "State"

abbrev pub val_ref_count : Text
val_ref_count = codes "RefCount"

abbrev pub val_guid : Text
val_guid = codes "Guid"

abbrev pub state_temp_profile : ℕ
state_temp_profile = 0x0080

abbrev pub system_sid_prefixes : List Text
system_sid_prefixes = codes "S-1-5-18" ∷ codes "S-1-5-19" ∷ codes "S-1-5-20" ∷ []
