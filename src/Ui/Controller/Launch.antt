-- ===== src/Ui/Controller/Launch.antt =====
-- `execute_trustedinstaller_launch` of crates/app-ui/src/controller.rs.
pub mod Audited
use win_profile.Base.{
  ℕ, Bool, true, false, List, [], ◌∷◌, ◌++◌, Option, none, some, Result, ok, err, Program,
  with_error, ◌>>=◌, ◌>>◌, Text, codes, decimal, join,
}
use win_profile.Audit.Event.{Event, AuditStatus, success, failed}

pub data TrustedInstallerLaunchError : Type 0 where
  operation_lock : Text → TrustedInstallerLaunchError
  request_audit : Text → TrustedInstallerLaunchError
  launch : Text → TrustedInstallerLaunchError
  launch_and_failure_audit : Text → Text → TrustedInstallerLaunchError
  terminal_audit_compensated : ℕ → Text → TrustedInstallerLaunchError
  terminal_audit_compensation_failed : ℕ → Text → Text → TrustedInstallerLaunchError

abbrev pub event : Text → AuditStatus → Text → Event
event operation status details = record {
  operation = operation;
  actor = codes "WinProfile-Admin";
  target = codes "Windows system command interpreter";
  status = status;
  details = details;
}

abbrev pub request_event : Event
request_event =
    event (codes "LaunchTrustedInstallerConsoleRequested") success
      (codes "TrustedInstaller console launch request accepted")

abbrev pub failure_event : Text → Event
failure_event error = event (codes "LaunchTrustedInstallerConsole") failed error

unfoldable pub spawned_event : ℕ → ℕ → Event
unfolding decimal
spawned_event pid session_id =
    event (codes "LaunchTrustedInstallerConsole") success
      (codes "Spawned PID " ++ (decimal pid ++ (codes " in session " ++ decimal session_id)))

-- `TrustedInstallerAudit`, `TrustedInstallerOperationLock`, `ManagedTrustedInstallerProcess` and the
-- launcher that is given.
pub record Launching (S : Type 0) : Type 1 where
  pub Process : Type 0
  pub acquire_trustedinstaller_operation_guard : Program S Text (Unit {0})
  pub release_operation_guard : S → S
  pub log : Event → Program S Text (Unit {0})
  pub launcher : Program S Text (Process × ℕ)
  pub pid : Process → ℕ
  pub terminate : Process → Program S Text (Unit {0})
  pub wait_for_exit : Process → Program S Text (Unit {0})
  pub drop_process : Process → S → S

-- One text for each step that failed.
unfoldable pub failure_of : Text → Result Text (Unit {0}) → List Text
failure_of step (ok _) = []
failure_of step (err error) = (step ++ error) ∷ []

unfoldable pub compensation_error : ℕ → Text → List Text → TrustedInstallerLaunchError
unfolding join
compensation_error pid audit_error [] = terminal_audit_compensated pid audit_error
compensation_error pid audit_error (f ∷ fs) =
    terminal_audit_compensation_failed pid audit_error (join (codes "; ") (f ∷ fs))

module _ {S : Type 0} (L : Launching S) where
  open L use {Process}

  unfoldable pub after_failed_launch : Text → Result Text (Unit {0}) → TrustedInstallerLaunchError
  after_failed_launch launch_error (ok _) = launch launch_error
  after_failed_launch launch_error (err audit_error) =
      launch_and_failure_audit launch_error audit_error

  -- What follows the record of the process, by its result.
  unfoldable pub after_spawn :
      Process → Result Text (Unit {0}) → S → Result TrustedInstallerLaunchError ℕ × S
  unfolding failure_of compensation_error
  after_spawn process (ok _) s = (ok (L.pid process), L.drop_process process s)
  after_spawn process (err audit_error) s =
      let (terminated, t) = L.terminate process s in
      let (waited, u) = L.wait_for_exit process t in
      (
        err (
            compensation_error (L.pid process) audit_error
              (failure_of (codes "terminate: ") terminated ++ failure_of (codes "wait: ") waited)),
        L.drop_process process u,
      )

  unfoldable pub after_launch :
      Result Text (Process × ℕ) → S → Result TrustedInstallerLaunchError ℕ × S
  unfolding after_failed_launch after_spawn spawned_event
  after_launch (err launch_error) s =
      let (recorded, t) = L.log (failure_event launch_error) s in
      (err (after_failed_launch launch_error recorded), t)
  after_launch (ok (process, session_id)) s =
      let (recorded, t) = L.log (spawned_event (L.pid process) session_id) s in
      after_spawn process recorded t

  -- What the guard covers.
  unfoldable pub requested_launch : Program S TrustedInstallerLaunchError ℕ
  unfolding after_launch
  requested_launch = do
    with_error request_audit (L.log request_event)
    (λ s. let (launched, t) = L.launcher s in after_launch launched t)

  unfoldable pub execute_trustedinstaller_launch : Program S TrustedInstallerLaunchError ℕ
  unfolding requested_launch
  execute_trustedinstaller_launch = do
    with_error operation_lock L.acquire_trustedinstaller_operation_guard
    (λ s. let (r, t) = requested_launch s in (r, L.release_operation_guard t))
