-- ===== src/Tests/Launches.antt =====
-- Runs of the calls on tokens, processes and privileges.
use win_profile.Base.{
  ℕ, ◌+◌, ◌≡◌, ◌↔◌, refl, Bool, true, false, List, [], ◌∷◌, ◌++◌, none, some, ok, Program, Text,
  codes, ltb, ◌==◌, if◌then◌else◌,
}
use win_profile.Platform.Wide.{Wide}
use win_profile.Platform.Tokens.CommandLine.{append_quoted_argument, build_windows_command_line}
use win_profile.Platform.Tokens.CommandLine.Split.{split_arguments}
use win_profile.Platform.Tokens.CommandLine.RoundTrip.{build_windows_command_line-split}
use win_profile.Platform.Tokens.Session.{
  RequestSessionApi, get_requesting_process_session_with_api, IsInteractive,
  get_requesting_process_session_with_api-IsInteractive,
}
use win_profile.Platform.Tokens.Service.{
  TrustedInstallerServiceApi, open_and_start, started,
  ensure_trustedinstaller_service_running_with_api,
}
use win_profile.Platform.Tokens.Service.Poll.{
  Counts, Ends, ensure_trustedinstaller_service_running_with_api-Ends,
}
use win_profile.Platform.Tokens.Launch.{Processes, ProcessLaunchSpec, launch_process_with_token}
use win_profile.Platform.Tokens.Launch.Accounted.{
  Reaps, created, Accounts, launch_process_with_token-Accounts,
}
use win_profile.Platform.Security.{
  PrivilegeApi, PrivilegeGuard, new_guard, restore_guard, enable_privileges, restore_privileges,
  restore_states, first_error_of,
}
use win_profile.Platform.Security.Restored.{Adjusts, with_attributes, restore_guard-new_guard}

abbrev arguments : List Wide
arguments = codes "/k" ∷ codes "say \"hi\"\\" ∷ [] ∷ []

build_windows_command_line-split_example :
    (tail : Wide) × (build_windows_command_line (codes "cmd") arguments
      ≡ append_quoted_argument [] (codes "cmd") ++ tail)
    × (split_arguments tail 0 false none ≡ arguments)
build_windows_command_line-split_example =
    build_windows_command_line-split (codes "cmd") arguments (
      ((λ e. cc), ((λ e. cc), tt)),
      (
        (
          (λ e. cc),
          (
            (λ e. cc),
            (
              (λ e. cc),
              ((λ e. cc), ((λ e. cc), ((λ e. cc), ((λ e. cc), ((λ e. cc), ((λ e. cc), tt)))))),
            ),
          ),
        ),
        (tt, tt),
      ),
    )

abbrev sessions : RequestSessionApi ℕ
sessions = record {
  current_process_id = 5;
  process_session_id = λ pid s. (ok 2, s);
  session_connect_state = λ session s. (ok 1, s);
}

get_requesting_process_session_with_api-IsInteractive_example :
    ((get_requesting_process_session_with_api sessions 0).0 ≡ ok 2) ↔ IsInteractive sessions 2 0
get_requesting_process_session_with_api-IsInteractive_example =
    get_requesting_process_session_with_api-IsInteractive sessions 0 2

-- The state counts the waits: the service starts during the third.
unfoldable services : TrustedInstallerServiceApi ℕ
services = record {
  Handle = ℕ;
  open_manager = λ access s. (ok 1, s);
  open_service = λ manager name access s. (ok 2, s);
  start_service = λ service s. (ok tt, s);
  query_status = λ service s. (
    ok record {
      current_state = if ltb s 3 then 2 else 4;
      win32_exit_code = 0;
      service_specific_exit_code = 0;
      process_id = if ltb s 3 then 0 else 77;
    },
    s,
  );
  wait = λ s. s + 1;
}

services-Counts : Counts services (λ s. s)
unfolding services open_and_start started
services-Counts = record { opened = λ s. refl; queried = λ service s. refl; waited = λ s. refl }

ensure_trustedinstaller_service_running_with_api-Ends_example :
    Ends services (λ s. s) 19 (ensure_trustedinstaller_service_running_with_api services 0) 0
ensure_trustedinstaller_service_running_with_api-Ends_example =
    ensure_trustedinstaller_service_running_with_api-Ends services (λ s. s) services-Counts 0

-- The state says whether the process runs; it comes without a thread.
unfoldable processes : Processes Bool
processes = record {
  Token = Unit {0};
  Environment = Unit {0};
  Process = ℕ;
  token_text = λ e. codes "error";
  create_environment_block = λ token s. (ok tt, s);
  destroy_environment_block = λ environment s. s;
  create_process = λ token application line environment directory s.
      (ok record { process = some 9; has_thread = false; process_id = 9 }, true);
  close_thread = λ s. s;
  process_id = λ p. p;
  terminate_for_compensation = λ p s. (ok tt, false);
  wait_for_compensation = λ p s. (ok tt, s);
  close_process = λ p s. s;
}

abbrev restored : Program Bool Text (Unit {0})
restored s = (ok tt, s)

processes-Reaps : Reaps processes restored (λ p s. s ≡ false)
unfolding processes
processes-Reaps = record {
  reaped = λ p s terminated waited. refl;
  closed = λ p q s gone. gone;
  destroyed = λ p e s gone. gone;
  restored = λ p s gone. gone;
}

unfoldable token : processes.Token
unfolding processes
token = tt

abbrev console : ProcessLaunchSpec
console = record {
  application_path = codes "cmd.exe";
  working_directory = codes "C:\\";
  arguments = arguments;
}

launch_process_with_token-Accounts_example :
    Accounts processes restored
      (λ p s. s ≡ false)
      (created processes restored (λ p s. s ≡ false) token console false)
      (launch_process_with_token processes restored token console false)
launch_process_with_token-Accounts_example =
    launch_process_with_token-Accounts processes restored (λ p s. s ≡ false) processes-Reaps token
      console false

-- The state is the attributes of every privilege.
unfoldable privileges : PrivilegeApi (ℕ → ℕ)
privileges = record {
  Token = ℕ;
  open_process_token = λ s. (ok 1, s);
  lookup_privilege_value = λ name. some 20;
  adjust_token_privileges = λ token p s. (
    record {
      succeeded = true;
      last_error = 0;
      previous =
          if s p.luid == p.attributes
          then none
          else some record { luid = p.luid; attributes = s p.luid };
    },
    with_attributes s p,
  );
}

abbrev attributes : ℕ → ℕ
attributes luid = 0

privileges-Adjusts : Adjusts privileges (λ s. s)
unfolding privileges
privileges-Adjusts = record {
  opened = λ s. refl;
  done = λ token p s succeeded assigned. (refl, refl);
  failed = λ token p s h. cc;
}

abbrev names : List Text
names = codes "SeDebugPrivilege" ∷ []

unfoldable guard : PrivilegeGuard privileges.Token
unfolding privileges
guard = record { token = 1; previous_states = record { luid = 20; attributes = 0 } ∷ [] }

guard_new : (new_guard privileges names attributes).0 ≡ ok guard
unfolding privileges guard new_guard enable_privileges
guard_new = refl

guard_restored :
    (restore_guard privileges guard (new_guard privileges names attributes).1).0 ≡ ok tt
unfolding privileges guard new_guard enable_privileges restore_guard restore_privileges
    restore_states first_error_of
guard_restored = refl

restore_guard-new_guard_example :
    (restore_guard privileges guard (new_guard privileges names attributes).1).1 ≡ attributes
restore_guard-new_guard_example =
    restore_guard-new_guard privileges (λ s. s) privileges-Adjusts names guard attributes tt
      guard_new guard_restored
