-- ===== src/Platform/Tokens.antt =====
-- crates/platform-win32/src/tokens.rs: the launch of a console under the TrustedInstaller token.
-- Errors are here; each child has one stage.
pub mod CommandLine
pub mod Session
pub mod Service
pub mod Launch
use win_profile.Base.{ℕ, Bool, Text}

-- `TokenError`; errors of other crates keep their text.
pub data TokenError : Type 0 where
  win32_error : ℕ → TokenError
  win32_operation : Text → ℕ → TokenError
  process_not_found : Text → TokenError
  trusted_installer_service_state : ℕ → ℕ → ℕ → ℕ → TokenError
  non_interactive_request_session : ℕ → TokenError
  request_session_not_connected : ℕ → ℕ → TokenError
  invalid_session_state_data : ℕ → ℕ → TokenError
  invalid_system_directory : Text → TokenError
  system_executable_unavailable : Text → Text → TokenError
  process_wait_timeout : ℕ → TokenError
  process_wait_failed : ℕ → TokenError
  invalid_process_information_compensated : ℕ → TokenError
  invalid_process_information_compensation_failed : ℕ → Text → TokenError
  invalid_process_information_missing_process_handle : ℕ → Bool → TokenError
  operation_and_privilege_restore_failed : Text → Text → TokenError
  privilege_restore_compensated : ℕ → Text → TokenError
  privilege_restore_compensation_failed : ℕ → Text → Text → TokenError
  security_error : Text → TokenError
