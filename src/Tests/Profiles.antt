-- ===== src/Tests/Profiles.antt =====
-- Runs of the scanner, the models and the registry's texts.
use win_profile.Base.{
  ℕ, ◌+◌, ◌≤◌, ◌≡◌, ◌⊎◌, ◌↔◌, refl, true, false, [], ◌∷◌, none, some, Result, ok, err, Text, codes,
  arith, ends_with, strip_suffix,
}
use win_profile.Platform.Wide.{Wide, to_wide_null, from_wide_null}
use win_profile.Platform.Wide.Decode.{from_wide_null-to_wide_null}
use win_profile.Platform.Registry.Api.{RegistryError}
use win_profile.Platform.Registry.Keys.{open_key}
use win_profile.Platform.Registry.Expand.{
  expand_environment_string_with, expand_environment_string_with_total, Fits, Fails,
}
use win_profile.Profiles.Models.{
  locked_ntuser_dat, path_collision, UserProfile, healthy, corrupted, compute_health, bak_extension,
}
use win_profile.Profiles.Models.Health.{HasCorrupting, compute_health_lem}
use win_profile.Profiles.Report.{
  build_diagnostic_report, has_consistent_health_counts, build_diagnostic_report-consistent,
}
use win_profile.Profiles.DirectorySize.{
  Entry, directory, file, reparse_point, entry, end, directory_size, join_path, saturating_add,
}
use win_profile.Profiles.DirectorySize.Sum.{file_bytes, clamp, directory_size_lem}
use win_profile.Profiles.Scanner.{Probes, scan_key, read_opened, canonical_name}
use win_profile.Ui.State.{repair_suggestions}
use win_profile.Ui.State.Facts.{is_dirty_mask, scan_key-suggestions}
use win_profile.Tests.Machine.{machine, start, children}

abbrev tree : Entry
tree = directory (
    entry (codes "link") reparse_point (
      entry (codes "sub") (directory (entry (codes "f") (file 7) end))
        (entry (codes "g") (file 5) end)))

tree_size : directory_size [] (codes "C:") tree ≡ ok 12
unfolding directory_size saturating_add join_path
tree_size = refl

directory_size_lem_example : 12 ≡ clamp (file_bytes tree)
directory_size_lem_example = directory_size_lem [] (codes "C:") tree 12 tree_size

abbrev profile : UserProfile
profile = record {
  sid = codes "S-1-5-21-7";
  canonical_sid = codes "S-1-5-21-7";
  username = codes "ann";
  domain = codes "pc";
  profile_path = codes "C:";
  loaded = false;
  is_bak = false;
  state_mask = 0;
  ref_count = 0;
  guid = none;
  ntuser_exists = true;
  usrclass_exists = true;
  disk_size_bytes = 12;
  anomalies = locked_ntuser_dat [] ∷ path_collision (codes "C:") ∷ [];
  health = healthy;
}

compute_health_lem_example :
    (((compute_health profile).health ≡ corrupted)
      ↔ ((profile.is_bak ≡ true) ⊎ HasCorrupting profile.anomalies))
    × (((compute_health profile).health ≡ healthy)
        ↔ ((profile.is_bak ≡ false) × (profile.anomalies ≡ [])))
compute_health_lem_example = compute_health_lem profile

build_diagnostic_report-consistent_example :
    (has_consistent_health_counts (build_diagnostic_report 3 (profile ∷ [])) ≡ true)
    × ((build_diagnostic_report 3 (profile ∷ [])).profiles ≡ (profile ∷ []))
    × ((build_diagnostic_report 3 (profile ∷ [])).temporary_count
        ≤ (build_diagnostic_report 3 (profile ∷ [])).total_count)
build_diagnostic_report-consistent_example = build_diagnostic_report-consistent 3 (profile ∷ [])

unfoldable probes : Probes machine.State
probes = record {
  expand = λ t. ok t;
  lookup_account = λ sid s. ok (codes "pc", codes "ann");
  is_dir = λ p s. true;
  is_file = λ p s. true;
  not_a_directory = [];
  entry_at = λ p s. tree;
  locking_processes = λ p s. ok [];
}

abbrev key_name : Text
key_name = codes "S-1-5-21-7.bak"

unfoldable scanned : UserProfile
scanned = elim (scan_key machine probes key_name start).0 [
  | ok (some p) ↦ p
  | ok none ↦ profile
  | err _ ↦ profile
]

scan_key_runs : (scan_key machine probes key_name start).0 ≡ ok (some scanned)
unfolding scanned scan_key machine children start probes to_wide_null canonical_name strip_suffix
    read_opened open_key
scan_key_runs = refl

scan_key-suggestions_example :
    ((repair_suggestions scanned).fix_bak ≡ ends_with key_name bak_extension)
    × ((repair_suggestions scanned).reset_state ≡ is_dirty_mask scanned.state_mask)
    × (scanned.is_bak ≡ ends_with key_name bak_extension)
    × (compute_health scanned ≡ scanned)
scan_key-suggestions_example =
    scan_key-suggestions machine probes key_name start scanned scan_key_runs

from_wide_null-to_wide_null_example :
    from_wide_null {E = ℕ} 0 (to_wide_null (97 ∷ 0x1f600 ∷ [])) ≡ ok (97 ∷ 0x1f600 ∷ [])
from_wide_null-to_wide_null_example =
    from_wide_null-to_wide_null 0 (97 ∷ 0x1f600 ∷ []) (ground arith, (ground arith, tt))

-- An expansion of three units.
abbrev expansion : ℕ → ℕ → (ℕ × Wide) × ℕ
expansion capacity s = ((3, 97 ∷ 98 ∷ 0 ∷ []), s + 1)

expansion_bounded : (capacity : ℕ) (t : ℕ) → (expansion capacity t).0.0 ≤ 3
expansion_bounded capacity t = ground arith

expand_environment_string_with_total_example :
    (r : Result RegistryError Text × ℕ) × (expand_environment_string_with expansion (λ s. s) 4 0
      ≡ some r)
    × (Fits expansion (λ s. s) r ⊎ Fails expansion (λ s. s) r)
expand_environment_string_with_total_example =
    expand_environment_string_with_total expansion (λ s. s) 3 0 expansion_bounded
