-- ===== src/Migration/Validation/Accepted.antt =====
-- What a plan satisfies that the validation accepts.
use win_profile.Base.{◌≡◌, false, not, ◌&&◌, ok, err, Text, codes}
use win_profile.Platform.Registry.Api.{win32_error, error_file_not_found}
use win_profile.Profiles.Models.{MigrationPlan}
use win_profile.Migration.Paths.{validate_windows_component, paths_overlap}
use win_profile.Migration.Validation.Drive.{IsDrivePath, IsIn}
use win_profile.Migration.Validation.{Places, ValidatedMigration, canonical_sid}

module _ {S : Type 0} (P : Places S) where
  -- No key of the user is loaded at some moment.
  abbrev pub IsOffline : Text → Type 0
  IsOffline sid = (s : S) × ((P.open_user_key sid s).0 ≡ err (win32_error error_file_not_found))

  abbrev pub IsAbsent : P.Directory → Text → Type 0
  IsAbsent parent leaf = (s : S) × ((P.child_exists parent leaf s).0 ≡ ok false)

  -- The handle was given when the source's path was opened.
  abbrev pub IsSource : Text → P.Source → Type 0
  IsSource path source = (s : S) × ((P.open_source path s).0 ≡ ok source)

  -- The destination's name stands in a directory whose path, opened, gave the handle.
  abbrev pub IsPlace : Text → P.Directory → Text → Type 0
  IsPlace target parent leaf =
      (path : Text) × IsIn target path leaf × (s : S) × ((P.open_directory path s).0 ≡ ok parent)

  abbrev IsAcceptedAs :
      MigrationPlan → Text → Text → ValidatedMigration P.Source P.Directory → Type 0
  IsAcceptedAs plan source target v =
      ((not plan.include_roaming_appdata && not plan.include_personal_folders) ≡ false)
      × IsDrivePath plan.source_path (codes "source") source
      × IsDrivePath plan.target_path (codes "destination") target
      × (paths_overlap P.lower source target ≡ false)
      × IsOffline (canonical_sid plan.source_sid)
      × IsSource source v.source_directory
      × IsPlace target v.target_parent v.target_leaf
      × (validate_windows_component v.target_leaf (codes "destination folder name") ≡ ok tt)
      × (P.is_within v.target_parent v.source_directory ≡ false)
      × IsAbsent v.target_parent v.target_leaf

  abbrev pub IsAccepted : MigrationPlan → ValidatedMigration P.Source P.Directory → Type 0
  IsAccepted plan v = IsAcceptedAs plan v.source_path v.target_path v

  -- What opening the places finds.
  abbrev Found : Text → Text → ValidatedMigration P.Source P.Directory → Type 0
  Found source target v =
      (v.source_path ≡ source)
      × (v.target_path ≡ target)
      × IsSource source v.source_directory
      × IsPlace target v.target_parent v.target_leaf
      × (validate_windows_component v.target_leaf (codes "destination folder name") ≡ ok tt)
      × (P.is_within v.target_parent v.source_directory ≡ false)
      × IsAbsent v.target_parent v.target_leaf
