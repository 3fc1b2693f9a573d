-- ===== src/Migration/Errors.antt =====
-- The errors of crates/core-profiles/src/migration.rs and of the directories that it works on.
use win_profile.Base.{Text, codes, ◌++◌}

-- `SecureFsError`; `other` is any other error, as its text.
pub data SecureFsError : Type 0 where
  not_found already_exists reparse_point other : Text → SecureFsError

-- `MigrationError`; errors of the journal keep their text.
pub data MigrationError : Type 0 where
  source_not_found : Text → MigrationError
  invalid_plan : Text → MigrationError
  reparse_point : Text → MigrationError
  destination_exists : Text → MigrationError
  cancelled : MigrationError
  source_loaded : Text → MigrationError
  internal_state : Text → MigrationError
  verification_failed : Text → MigrationError
  rollback_failed : Text → Text → MigrationError
  io_error : Text → MigrationError
  security : Text → MigrationError
  audit : Text → MigrationError

unfoldable pub map_secure_error : SecureFsError → MigrationError
map_secure_error (SecureFsError.reparse_point path) = MigrationError.reparse_point path
map_secure_error (already_exists path) = destination_exists path
map_secure_error (not_found path) = security (codes "filesystem entry was not found: " ++ path)
map_secure_error (other text) = security text
