-- ===== src/Platform/Tokens/Launch.antt =====
-- The creation of a process with a token, and its compensation, of
-- crates/platform-win32/src/tokens.rs.
pub mod Accounted
use win_profile.Base.{
  ℕ, Bool, true, false, List, [], ◌∷◌, ◌++◌, Option, none, some, Result, ok, err, Program,
  with_error, ◌>>=◌, Text, codes, join, ◌==◌, if◌then◌else◌,
}
use win_profile.Platform.Wide.{Wide}
use win_profile.Platform.Tokens.{
  TokenError, win32_operation, invalid_process_information_compensated,
  invalid_process_information_compensation_failed,
  invalid_process_information_missing_process_handle, operation_and_privilege_restore_failed,
  privilege_restore_compensated, privilege_restore_compensation_failed,
}
use win_profile.Platform.Tokens.CommandLine.{build_windows_command_line}

-- `ProcessLaunchSpec`, in the units of its paths.
pub record ProcessLaunchSpec : Type 0 where
  pub application_path : Wide
  pub working_directory : Wide
  pub arguments : List Wide

-- `PROCESS_INFORMATION`: a handle that is null is absent.
pub record ProcessInformation (P : Type 0) : Type 0 where
  pub process : Option P
  pub has_thread : Bool
  pub process_id : ℕ

-- `ProcessCreationApi`, `CompensatableProcess`, the environment block and the texts of errors.
-- `create_process` gives the error code of a call that fails.
pub record Processes (S : Type 0) : Type 1 where
  pub Token : Type 0
  pub Environment : Type 0
  pub Process : Type 0
  pub token_text : TokenError → Text
  pub create_environment_block : Token → Program S ℕ Environment
  pub destroy_environment_block : Environment → S → S
  pub create_process :
      Token → Wide → Wide → Environment → Wide → Program S ℕ (ProcessInformation Process)
  pub close_thread : S → S
  pub process_id : Process → ℕ
  pub terminate_for_compensation : Process → Program S TokenError (Unit {0})
  pub wait_for_compensation : Process → Program S TokenError (Unit {0})
  pub close_process : Process → S → S

unfoldable pub wide_null : Wide → Wide
wide_null value = value ++ 0 ∷ []

module _ {S : Type 0} (W : Processes S) where
  open W use {Process}

  -- `failures`: one text for each step that failed.
  unfoldable pub failures_of : Text → Result TokenError (Unit {0}) → List Text
  failures_of step (ok _) = []
  failures_of step (err error) = (step ++ W.token_text error) ∷ []

  -- Both steps are made, and the handle is closed, whatever their results.
  unfoldable pub compensate_process : Process → S → Result (ℕ × Text) ℕ × S
  unfolding failures_of join
  compensate_process process s =
      let (terminated, t) = W.terminate_for_compensation process s in
      let (waited, u) = W.wait_for_compensation process t in
      let failures =
        failures_of (codes "terminate: ") terminated ++ failures_of (codes "wait: ") waited in
      (
        elim failures [
          | [] ↦ ok (W.process_id process)
          | f ∷ fs ↦ err (W.process_id process, join (codes "; ") (f ∷ fs))
        ],
        W.close_process process u,
      )

  unfoldable pub information_error : Result (ℕ × Text) ℕ → TokenError
  information_error (ok pid) = invalid_process_information_compensated pid
  information_error (err (pid, error)) = invalid_process_information_compensation_failed pid error

  unfoldable pub validate_created_process_information :
      Option Process → Bool → ℕ → Program S TokenError Process
  unfolding compensate_process information_error
  validate_created_process_information (some process) true pid s = (ok process, s)
  validate_created_process_information (some process) false pid s =
      let (r, t) = compensate_process process s in (err (information_error r), t)
  validate_created_process_information none has_thread pid s =
      (err (invalid_process_information_missing_process_handle pid has_thread), s)

  -- `drop(thread)` closes the thread's handle, if there is one.
  unfoldable pub create_process_with_api :
      W.Token → ProcessLaunchSpec → W.Environment → Program S TokenError Process
  unfolding wide_null
  create_process_with_api token spec environment = do
    info ← with_error (win32_operation (codes "CreateProcessWithTokenW for TrustedInstaller")) (
        W.create_process token (wide_null spec.application_path)
          (build_windows_command_line spec.application_path spec.arguments) environment
          (wide_null spec.working_directory))
    (λ s.
        validate_created_process_information info.process info.has_thread info.process_id
          (if info.has_thread then W.close_thread s else s))

  unfoldable pub restore_error_of : Text → Result (ℕ × Text) ℕ → TokenError
  restore_error_of restore_error (ok pid) = privilege_restore_compensated pid restore_error
  restore_error_of restore_error (err (pid, error)) =
      privilege_restore_compensation_failed pid restore_error error

  -- `restored` is the result of restoring the privilege, which comes first.
  unfoldable pub finalize_process_privilege_restore :
      Result TokenError Process → Result Text (Unit {0}) → S → Result TokenError Process × S
  unfolding compensate_process restore_error_of
  finalize_process_privilege_restore (ok process) (ok _) s = (ok process, s)
  finalize_process_privilege_restore (err launch_error) (ok _) s = (err launch_error, s)
  finalize_process_privilege_restore (err launch_error) (err restore_error) s =
      (err (operation_and_privilege_restore_failed (W.token_text launch_error) restore_error), s)
  finalize_process_privilege_restore (ok process) (err restore_error) s =
      let (r, t) = compensate_process process s in (err (restore_error_of restore_error r), t)

  unfoldable pub launch_in_environment : W.Token → ProcessLaunchSpec → Program S TokenError Process
  launch_in_environment token spec = do
    environment ←
        with_error (win32_operation (codes "CreateEnvironmentBlock for TrustedInstaller"))
          (W.create_environment_block token)
    (λ s.
        let (r, t) = create_process_with_api token spec environment s in
        (r, W.destroy_environment_block environment t))

  -- `restore` restores the privilege that the token's owner holds.
  unfoldable pub launch_process_with_token :
      Program S Text (Unit {0}) → W.Token → ProcessLaunchSpec → Program S TokenError Process
  launch_process_with_token restore token spec s =
      let (launched, t) = launch_in_environment token spec s in
      let (restored, u) = restore t in finalize_process_privilege_restore launched restored u
