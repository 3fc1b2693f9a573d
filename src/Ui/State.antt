-- ===== src/Ui/State.antt =====
-- crates/app-ui/src/state.rs: what the interface shows of a profile, and which repairs it suggests.
pub mod Facts
use win_profile.Base.{
  ℕ, zero, suc, ◌+◌, ◌-◌, ◌/◌, ◌%◌, Bool, true, false, not, ◌||◌, List, [], ◌∷◌, ◌++◌, Option, none,
  some, Text, codes, any, map, is_empty, filter_map, find_map, join, ltb, ◌==◌, ◌&&◌, if◌then◌else◌,
}
use win_profile.Profiles.Models.{
  ProfileAnomaly, bak_suffix, temp_session, orphan_sid, path_collision, dirty_state_mask,
  locked_ntuser_dat, missing_directory, registry_read_failure, sid_resolution_failure,
  filesystem_scan_failure, lock_inspection_failure, localized_description, ProfileHealth, healthy,
  warning, corrupted, UserProfile,
}

pub record RepairSuggestions : Type 0 where
  pub fix_bak : Bool
  pub reset_state : Bool

unfoldable pub is_bak_suffix : ProfileAnomaly → Bool
is_bak_suffix bak_suffix = true
is_bak_suffix _ = false

unfoldable pub is_dirty_state : ProfileAnomaly → Bool
is_dirty_state (dirty_state_mask _) = true
is_dirty_state _ = false

unfoldable pub repair_suggestions : UserProfile → RepairSuggestions
unfolding is_bak_suffix is_dirty_state
repair_suggestions p = record {
  fix_bak = any is_bak_suffix p.anomalies;
  reset_state = any is_dirty_state p.anomalies;
}

processes_of : ProfileAnomaly → Option (List Text)
processes_of (locked_ntuser_dat processes) = some processes
processes_of _ = none

concat_texts : List (List Text) → List Text
concat_texts [] = []
concat_texts (ts ∷ rest) = ts ++ concat_texts rest

unfoldable pub locking_processes : UserProfile → List Text
unfolding processes_of concat_texts
locking_processes p = concat_texts (filter_map processes_of p.anomalies)

failure_of : ProfileAnomaly → Option Text
failure_of (lock_inspection_failure details) = some details
failure_of _ = none

unfoldable pub lock_inspection_failure_of : UserProfile → Option Text
unfolding failure_of
lock_inspection_failure_of p = find_map failure_of p.anomalies

pub record ProfileIssueEntry : Type 0 where
  pub code : Text
  pub summary : Text
  pub technical_details : Text

hex_digit : ℕ → ℕ
hex_digit d = if ltb d 10 then b'0' + d else b'A' + (d - 10)

-- `{n:0wX}`: `w` digits, and as many more as the number has; `fuel` bounds the digits.
hex_from : ℕ → ℕ → ℕ → Text → Text
unfolding hex_digit
hex_from zero w n acc = acc
hex_from (suc fuel) w n acc =
    let rest = hex_from fuel (w - 1) (n / 16) (hex_digit (n % 16) ∷ acc) in
    if w == 0 && n == 0 then acc else rest

-- Eight digits hold every `u32`.
hex : ℕ → ℕ → Text
unfolding hex_from
hex w n = codes "0x" ++ hex_from 8 w n []

unfoldable pub issue_code : ProfileAnomaly → Text
issue_code bak_suffix = codes "BAK_SUFFIX"
issue_code temp_session = codes "TEMP_SESSION"
issue_code orphan_sid = codes "ORPHAN_SID"
issue_code (path_collision _) = codes "PATH_COLLISION"
issue_code (dirty_state_mask _) = codes "DIRTY_STATE_MASK"
issue_code (locked_ntuser_dat _) = codes "LOCKED_NTUSER_DAT"
issue_code (missing_directory _) = codes "MISSING_DIRECTORY"
issue_code (registry_read_failure _) = codes "REGISTRY_READ_FAILURE"
issue_code (sid_resolution_failure _) = codes "SID_RESOLUTION_FAILURE"
issue_code (filesystem_scan_failure _) = codes "FILESYSTEM_SCAN_FAILURE"
issue_code (lock_inspection_failure _) = codes "LOCK_INSPECTION_FAILURE"

-- The raw details of an anomaly.
unfoldable pub issue_details : ProfileAnomaly → Text
unfolding hex join
issue_details bak_suffix = []
issue_details temp_session = []
issue_details orphan_sid = []
issue_details (path_collision details) = details
issue_details (dirty_state_mask mask) = hex 8 mask
issue_details (locked_ntuser_dat processes) = join (codes "\n") processes
issue_details (missing_directory details) = details
issue_details (registry_read_failure details) = details
issue_details (sid_resolution_failure details) = details
issue_details (filesystem_scan_failure details) = details
issue_details (lock_inspection_failure details) = details

module _ (t : Text → Text) where
  unfoldable pub anomaly_to_issue : ProfileAnomaly → ProfileIssueEntry
  unfolding issue_code issue_details localized_description
  anomaly_to_issue a = record {
    code = issue_code a;
    summary = localized_description t a;
    technical_details = issue_details a;
  }

-- The entry that the interface's generated type `ProfileEntry` holds.
pub record ProfileEntry : Type 0 where
  pub sid : Text
  pub canonical_sid : Text
  pub username : Text
  pub domain : Text
  pub profile_path : Text
  pub status_text : Text
  pub health_type : ℕ
  pub loaded : Bool
  pub is_bak : Bool
  pub suggest_fix_bak : Bool
  pub suggest_reset_state : Bool
  pub locking_processes : List Text
  pub has_locking_processes : Bool
  pub lock_inspection_failure : Text
  pub repair_blocked_by_lock_inspection : Bool
  pub state_raw : Text
  pub anomalies : Text
  pub issues : List ProfileIssueEntry

health_type_of : ProfileHealth → ℕ
health_type_of healthy = 0
health_type_of warning = 1
health_type_of corrupted = 2

or_empty : Option Text → Text
or_empty none = []
or_empty (some s) = s

module _ (t : Text → Text) where
  unfoldable pub user_profile_to_slint : UserProfile → ProfileEntry
  unfolding localized_description health_type_of or_empty anomaly_to_issue repair_suggestions
      locking_processes lock_inspection_failure_of hex join
  user_profile_to_slint p =
      let descriptions = join (codes "; ") (map (localized_description t) p.anomalies) in
      let suggestions = repair_suggestions p in
      let processes = locking_processes p in
      let has_processes = not (is_empty processes) in
      let failure = or_empty (lock_inspection_failure_of p) in
      record {
        sid = p.sid;
        canonical_sid = p.canonical_sid;
        username = p.username;
        domain = p.domain;
        profile_path = p.profile_path;
        status_text =
            if is_empty p.anomalies then t (codes "profile.status.healthy") else descriptions;
        health_type = health_type_of p.health;
        loaded = p.loaded;
        is_bak = p.is_bak;
        suggest_fix_bak = suggestions.fix_bak;
        suggest_reset_state = suggestions.reset_state;
        locking_processes = processes;
        has_locking_processes = has_processes;
        lock_inspection_failure = failure;
        repair_blocked_by_lock_inspection = has_processes || not (is_empty failure);
        state_raw = hex 4 p.state_mask;
        anomalies = descriptions;
        issues = map (anomaly_to_issue t) p.anomalies;
      }
