-- ===== src/Platform/Tokens/Service.antt =====
-- The start of the TrustedInstaller service and the capture of its token, of
-- crates/platform-win32/src/tokens.rs.
pub mod Poll
use win_profile.Base.{
  ℕ, zero, suc, ◌+◌, Bool, true, false, not, ◌&&◌, ◌||◌, Option, none, some, Result, ok, err,
  Program, map_err, with_error, ◌>>=◌, ◌>>◌, Text, codes, ◌==◌, if◌then◌else◌,
}
use win_profile.Platform.Wide.{Wide, to_wide_null}
use win_profile.Platform.Tokens.{
  TokenError, win32_operation, trusted_installer_service_state,
  operation_and_privilege_restore_failed, security_error,
}

-- The fields of `SERVICE_STATUS_PROCESS` that are read.
pub record ServiceStatusProcess : Type 0 where
  pub current_state : ℕ
  pub win32_exit_code : ℕ
  pub service_specific_exit_code : ℕ
  pub process_id : ℕ

-- `TrustedInstallerServiceApi`: errors are codes.
pub record TrustedInstallerServiceApi (S : Type 0) : Type 1 where
  pub Handle : Type 0
  pub open_manager : ℕ → Program S ℕ Handle
  pub open_service : Handle → Wide → ℕ → Program S ℕ Handle
  pub start_service : Handle → Program S ℕ (Unit {0})
  pub query_status : Handle → Program S ℕ ServiceStatusProcess
  pub wait : S → S

-- `TrustedInstallerCaptureApi`
pub record TrustedInstallerCaptureApi (S : Type 0) : Type 1 where
  pub Handle : Type 0
  pub open_process : ℕ → ℕ → Program S ℕ Handle
  pub open_process_token : Handle → ℕ → Program S ℕ Handle
  pub duplicate_primary_token : Handle → ℕ → Program S ℕ Handle

abbrev pub service_running : ℕ
service_running = 4

-- `SERVICE_START_PENDING` and `SERVICE_CONTINUE_PENDING`
abbrev pub is_transitional : ℕ → Bool
is_transitional state = state == 2 || state == 5

abbrev pub error_service_already_running : ℕ
error_service_already_running = 1056

abbrev pub service_start_poll_attempts : ℕ
service_start_poll_attempts = 20

unfoldable pub service_state_error : ServiceStatusProcess → TokenError
service_state_error status =
    trusted_installer_service_state status.current_state status.win32_exit_code
      status.service_specific_exit_code status.process_id

abbrev pub is_ready : ServiceStatusProcess → Bool
is_ready status = status.current_state == service_running && not (status.process_id == 0)

-- What a round of the loop returns, if it returns, with the rounds that are left.
unfoldable pub after_query : ℕ → Result ℕ ServiceStatusProcess → Option (Result TokenError ℕ)
unfolding service_state_error
after_query rounds (err code) =
    some (err (win32_operation (codes "QueryServiceStatusEx for TrustedInstaller") code))
after_query rounds (ok status) =
    if is_ready status
    then some (ok status.process_id)
    else if not (is_transitional status.current_state) || rounds == 0
    then some (err (service_state_error status))
    else none

module _ {S : Type 0} (api : TrustedInstallerServiceApi S) where
  -- The rounds of the loop that are left; `none` is its `unreachable!`.
  unfoldable pub poll : ℕ → api.Handle → S → Option (Result TokenError ℕ × S)
  unfolding after_query
  poll zero service s = none
  poll (suc rounds) service s =
      let (r, t) = api.query_status service s in
      elim (after_query rounds r) [
        | some result ↦ some (result, t)
        | none ↦ poll rounds service (api.wait t)
      ]

  -- A service that runs already is no failure.
  unfoldable pub started : Result ℕ (Unit {0}) → Result TokenError (Unit {0})
  started (ok _) = ok tt
  started (err code) =
      if code == error_service_already_running
      then ok tt
      else err (win32_operation (codes "StartServiceW for TrustedInstaller") code)

  unfoldable pub open_and_start : Program S TokenError api.Handle
  unfolding started to_wide_null
  open_and_start = do
    manager ←
        with_error (win32_operation (codes "OpenSCManagerW for TrustedInstaller"))
          (api.open_manager 1)
    service ←
        with_error (win32_operation (codes "OpenServiceW for TrustedInstaller"))
          (api.open_service manager (to_wide_null (codes "TrustedInstaller")) 0x14)
    (λ s. let (r, t) = api.start_service service s in (started r, t))
    (λ s. (ok service, s))

  unfoldable pub ensure_trustedinstaller_service_running_with_api :
      S → Option (Result TokenError ℕ × S)
  unfolding open_and_start poll
  ensure_trustedinstaller_service_running_with_api s =
      let (r, t) = open_and_start s in
      elim r [ err e ↦ some (err e, t) | ok service ↦ poll service_start_poll_attempts service t ]

unfoldable pub capture_trustedinstaller_token_with_api :
    {S : Type 0} → (api : TrustedInstallerCaptureApi S) → ℕ → Program S TokenError api.Handle
capture_trustedinstaller_token_with_api api pid = do
  process ←
      with_error (win32_operation (codes "OpenProcess for TrustedInstaller"))
        (api.open_process pid 0x1000)
  source_token ←
      with_error (win32_operation (codes "OpenProcessToken for TrustedInstaller"))
        (api.open_process_token process 2)
  with_error (win32_operation (codes "DuplicateTokenEx for TrustedInstaller"))
      (api.duplicate_primary_token source_token 0xb)

-- `token_text` is `TokenError::to_string`.
unfoldable pub restore_after_operation :
    {T : Type 0}
    → (TokenError → Text)
    → Result TokenError T
    → Result Text (Unit {0})
    → Result TokenError T
restore_after_operation token_text (ok value) (ok _) = ok value
restore_after_operation token_text (err operation_error) (ok _) = err operation_error
restore_after_operation token_text (ok _) (err restore_error) = err (security_error restore_error)
restore_after_operation token_text (err operation_error) (err restore_error) =
    err (operation_and_privilege_restore_failed (token_text operation_error) restore_error)
