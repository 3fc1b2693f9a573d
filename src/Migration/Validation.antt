-- ===== src/Migration/Validation.antt =====
-- The validation of a migration plan, of crates/core-profiles/src/migration.rs.
pub mod Drive
pub mod Accepted
use win_profile.Base.{
  ℕ, Bool, true, false, not, ◌&&◌, ◌||◌, List, [], ◌∷◌, ◌++◌, Option, none, some, Result, ok, err,
  and_then, Program, pure, raise, lift, ◌>>=◌, ◌>>◌, with_error, raise_if, Text, codes, trim,
  strip_suffix, split, join, take, drop, is_empty, any, ◌==◌, if◌then◌else◌,
}
use win_profile.Platform.Wide.{encode_wide}
use win_profile.Platform.Registry.Api.{RegistryError, win32_error, error_file_not_found}
use win_profile.Profiles.Models.{MigrationPlan, bak_extension}
use win_profile.Migration.Errors.{
  SecureFsError, not_found, already_exists, MigrationError, source_not_found, invalid_plan,
  source_loaded, destination_exists, security, map_secure_error,
}
use win_profile.Migration.Paths.{
  validate_raw_release_path, validate_windows_component, paths_overlap,
}

-- Every component behind the drive's root.
unfoldable pub validate_components : List Text → Text → Result MigrationError (Unit {0})
unfolding validate_windows_component
validate_components [] label = ok tt
validate_components (name ∷ names) label =
    and_then (validate_windows_component name label) (λ _. validate_components names label)

-- The components of a drive path that passed the raw check: none for the root.
unfoldable pub components_of : Text → List Text
unfolding split
components_of path = if is_empty (drop 3 path) then [] else split b'\\' (drop 3 path)

-- The path as it was given: a path that passes is normalized.
unfoldable pub release_absolute_path : Text → Text → Result MigrationError Text
unfolding components_of validate_components validate_raw_release_path encode_wide join
release_absolute_path path label =
    if is_empty path
    then err (invalid_plan (label ++ codes " path is empty"))
    else and_then (validate_raw_release_path (encode_wide path) label) (λ _.
      and_then (validate_components (components_of path) label)
        (λ _. ok (take 3 path ++ join (codes "\\") (components_of path))))

-- What `parent()` and `file_name()` give of a normalized drive path: none for the root.
unfoldable pub parent_and_leaf : List Text → Option (List Text × Text)
parent_and_leaf [] = none
parent_and_leaf (name ∷ []) = some ([], name)
parent_and_leaf (name ∷ next ∷ names) = elim (parent_and_leaf (next ∷ names)) [
  | none ↦ none
  | some parts ↦ some (name ∷ parts.0, parts.1)
]

-- The registry and the directories. `Source` is what an opened source directory shows, `lower` is
-- `str::to_lowercase`.
pub record Places (S : Type 0) : Type 1 where
  pub Source : Type 0
  pub Directory : Type 0
  pub lower : Text → Text
  pub registry_text : RegistryError → Text
  pub open_user_key : Text → Program S RegistryError (Unit {0})
  pub open_source : Text → Program S SecureFsError Source
  pub open_directory : Text → Program S SecureFsError Directory
  pub is_within : Directory → Source → Bool
  pub child_exists : Directory → Text → Program S SecureFsError Bool

pub record ValidatedMigration (Source Directory : Type 0) : Type 0 where
  pub source_path : Text
  pub target_path : Text
  pub source_directory : Source
  pub target_parent : Directory
  pub target_leaf : Text

unfoldable pub map_source_root_error : Text → SecureFsError → MigrationError
unfolding map_secure_error
map_source_root_error source (not_found path) = source_not_found source
map_source_root_error source (already_exists path) = map_secure_error (already_exists path)
map_source_root_error source (SecureFsError.reparse_point path) =
    map_secure_error (SecureFsError.reparse_point path)
map_source_root_error source (SecureFsError.other text) =
    map_secure_error (SecureFsError.other text)

unfoldable pub map_parent_error : Text → SecureFsError → MigrationError
unfolding map_secure_error
map_parent_error parent (not_found path) =
    invalid_plan (codes "destination parent does not exist: " ++ parent)
map_parent_error parent (already_exists path) = map_secure_error (already_exists path)
map_parent_error parent (SecureFsError.reparse_point path) =
    map_secure_error (SecureFsError.reparse_point path)
map_parent_error parent (SecureFsError.other text) = map_secure_error (SecureFsError.other text)

unfoldable pub canonical_sid : Text → Text
unfolding strip_suffix trim
canonical_sid source_sid =
    trim (elim (strip_suffix source_sid bak_extension) [ none ↦ source_sid | some sid ↦ sid ])

module _ {S : Type 0} (P : Places S) where
  open P use {Source, Directory}

  -- A key that opens belongs to a loaded profile; only a key that is not found is offline.
  unfoldable pub offline_result :
      Text → Result RegistryError (Unit {0}) → Result MigrationError (Unit {0})
  offline_result sid (ok _) = err (source_loaded sid)
  offline_result sid (err (win32_error code)) =
      if code == error_file_not_found
      then ok tt
      else err (
          security (
            codes "failed to verify whether source profile is loaded: "
            ++ P.registry_text (win32_error code)))
  offline_result sid (err error) = err (
      security
        (codes "failed to verify whether source profile is loaded: " ++ P.registry_text error))

  unfoldable pub ensure_source_offline : Text → Program S MigrationError (Unit {0})
  unfolding canonical_sid offline_result
  ensure_source_offline source_sid = do
    let sid = canonical_sid source_sid
    raise_if (is_empty sid || any (λ c. c == b'\\') sid || any (λ c. c == b'/') sid)
        (invalid_plan (codes "source SID is invalid"))
    (λ s. let (r, t) = P.open_user_key sid s in (offline_result sid r, t))

  unfoldable pub split_target : Text → Result MigrationError (Text × Text)
  unfolding parent_and_leaf components_of join
  split_target target = elim (parent_and_leaf (components_of target)) [
    | none ↦ err (invalid_plan (codes "destination must have an existing parent"))
    | some parts ↦ ok (take 3 target ++ join (codes "\\") parts.0, parts.1)
  ]

  -- The directories of plan whose texts passed.
  unfoldable pub open_places :
      Text → Text → Program S MigrationError (ValidatedMigration Source Directory)
  unfolding map_source_root_error map_parent_error split_target validate_windows_component
      map_secure_error
  open_places source target = do
    source_directory ← with_error (map_source_root_error source) (P.open_source source)
    parts ← lift (split_target target)
    lift (validate_windows_component parts.1 (codes "destination folder name"))
    target_parent ← with_error (map_parent_error parts.0) (P.open_directory parts.0)
    raise_if (P.is_within target_parent source_directory)
        (invalid_plan (codes "destination parent is inside the source directory"))
    exists ← with_error map_secure_error (P.child_exists target_parent parts.1)
    raise_if exists (destination_exists target)
    pure (record {
      source_path = source;
      target_path = target;
      source_directory = source_directory;
      target_parent = target_parent;
      target_leaf = parts.1;
    })

  unfoldable pub validate_for_execution :
      MigrationPlan → Program S MigrationError (ValidatedMigration Source Directory)
  unfolding release_absolute_path paths_overlap ensure_source_offline open_places trim
  validate_for_execution plan = do
    raise_if (is_empty (trim plan.source_sid)) (invalid_plan (codes "source SID is empty"))
    raise_if (not plan.include_roaming_appdata && not plan.include_personal_folders)
        (invalid_plan (codes "at least one migration scope must be selected"))
    source ← lift (release_absolute_path plan.source_path (codes "source"))
    target ← lift (release_absolute_path plan.target_path (codes "destination"))
    raise_if (paths_overlap P.lower source target)
        (invalid_plan (codes "source and destination directories must not overlap"))
    ensure_source_offline plan.source_sid
    open_places source target
