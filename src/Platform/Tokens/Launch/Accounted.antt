-- ===== src/Platform/Tokens/Launch/Accounted.antt =====
-- The launch of a process, by the process that it leaves.
use win_profile.Base.{
  ℕ, ◌≡◌, ◌⊎◌, inl, inr, refl, sym, ◌∙◌, subst, Bool, true, false, [], ◌++◌, Option, none, some,
  Result, ok, err, Result-cases, Program, Text, codes, arith, if◌then◌else◌,
}
use win_profile.Platform.Tokens.{
  TokenError, invalid_process_information_compensation_failed,
  invalid_process_information_missing_process_handle, operation_and_privilege_restore_failed,
  privilege_restore_compensation_failed,
}
use win_profile.Platform.Tokens.Launch.{
  ProcessLaunchSpec, ProcessInformation, Processes, failures_of, compensate_process,
  information_error, validate_created_process_information, create_process_with_api,
  restore_error_of, finalize_process_privilege_restore, launch_in_environment,
  launch_process_with_token, wide_null,
}
use win_profile.Platform.Tokens.CommandLine.{build_windows_command_line}

module _ {S : Type 0} (W : Processes S) (restore : Program S Text (Unit {0}))
    (IsGone : W.Process → S → Type 0) where
  -- A process that was terminated and waited for is gone, and stays so.
  pub record Reaps : Type 0 where
    pub reaped :
        (p : W.Process) (s : S)
        → (W.terminate_for_compensation p s).0 ≡ ok tt
        → (W.wait_for_compensation p (W.terminate_for_compensation p s).1).0 ≡ ok tt
        → IsGone p (W.wait_for_compensation p (W.terminate_for_compensation p s).1).1
    pub closed : (p q : W.Process) (s : S) → IsGone p s → IsGone p (W.close_process q s)
    pub destroyed :
        (p : W.Process) (e : W.Environment) (s : S)
        → IsGone p s
        → IsGone p (W.destroy_environment_block e s)
    pub restored : (p : W.Process) (s : S) → IsGone p s → IsGone p (restore s).1

  -- The process that the calls of a launch hand out.
  abbrev pub created : W.Token → ProcessLaunchSpec → S → Option W.Process
  created token spec s = elim (W.create_environment_block token s).0 [
    | err _ ↦ none
    | ok environment ↦
        elim (W.create_process token (wide_null spec.application_path)
          (build_windows_command_line spec.application_path spec.arguments) environment
          (wide_null spec.working_directory) (W.create_environment_block token s).1).0 [
            | err _ ↦ none
            | ok info ↦ info.process
          ]
  ]

  -- An error that says that a process may still run.
  pub data IsReported : TokenError → Type 0 where
    uncompensated :
        (pid : ℕ) (error : Text)
        → IsReported (invalid_process_information_compensation_failed pid error)
    unreachable_process :
        (pid : ℕ) (has_thread : Bool)
        → IsReported (invalid_process_information_missing_process_handle pid has_thread)
    unrestored :
        (pid : ℕ) (restore_error error : Text)
        → IsReported (privilege_restore_compensation_failed pid restore_error error)
    wrapped :
        (inner : TokenError) (error : Text)
        → IsReported inner
        → IsReported (operation_and_privilege_restore_failed (W.token_text inner) error)

  -- A result is the process that was handed out, or an error that reports it, or the process is gone.
  abbrev pub Accounts : Option W.Process → Result TokenError W.Process × S → Type 0
  Accounts o (ok q, s) = o ≡ some q
  Accounts o (err e, s) = IsReported e ⊎ ((p : W.Process) → o ≡ some p → IsGone p s)

  failures_of-append :
      (r r' : Result TokenError (Unit {0})) (step step' : Text)
      → (failures_of W step r ++ failures_of W step' r') ≡ []
      → (r ≡ ok tt) × (r' ≡ ok tt)
  unfolding failures_of
  failures_of-append (ok u) (ok v) step step' h = (refl, refl)
  failures_of-append (ok u) (err e) step step' h = cc
  failures_of-append (err e) r' step step' h = cc

  compensate_process-IsGone :
      Reaps
      → (p : W.Process) (s : S) (pid : ℕ) → (compensate_process W p s).0 ≡ ok pid
      → IsGone p (compensate_process W p s).1
  unfolding compensate_process
  compensate_process-IsGone reaps p s pid h =
      let t = (W.terminate_for_compensation p s).1 in
      let none_failed : (failures_of W (codes "terminate: ") (W.terminate_for_compensation p s).0
            ++ failures_of W (codes "wait: ") (W.wait_for_compensation p t).0)
          ≡ [] =
        ground arith in
      let (terminated, waited) =
        failures_of-append _ _ (codes "terminate: ") (codes "wait: ") none_failed in
      reaps.closed p p _ (reaps.reaped p s terminated waited)

  information_error-IsReported :
      (r : Result (ℕ × Text) ℕ) → ((pid : ℕ) × (r ≡ ok pid)) ⊎ IsReported (information_error W r)
  unfolding information_error
  information_error-IsReported (ok pid) = inl (pid, refl)
  information_error-IsReported (err (pid, error)) = inr (uncompensated pid error)

  restore_error_of-IsReported :
      (restore_error : Text) (r : Result (ℕ × Text) ℕ)
      → ((pid : ℕ) × (r ≡ ok pid)) ⊎ IsReported (restore_error_of W restore_error r)
  unfolding restore_error_of
  restore_error_of-IsReported restore_error (ok pid) = inl (pid, refl)
  restore_error_of-IsReported restore_error (err (pid, error)) =
      inr (unrestored pid restore_error error)

  some-IsGone : (p q : W.Process) (s : S) → IsGone p s → some p ≡ some q → IsGone q s
  some-IsGone p q s gone e = subst (λ r. IsGone r s) (ground arith) gone

  validate-Accounts :
      Reaps
      → (o : Option W.Process) (has_thread : Bool) (pid : ℕ) (s : S)
      → Accounts o (validate_created_process_information W o has_thread pid s)
  unfolding validate_created_process_information
  validate-Accounts reaps (some p) true pid s = refl
  validate-Accounts reaps (some p) false pid s =
      elim (information_error-IsReported (compensate_process W p s).0) [
        | inl (n, done) ↦
            inr (λ q e. some-IsGone p q _ (compensate_process-IsGone reaps p s n done) e)
        | inr reported ↦ inl reported
      ]
  validate-Accounts reaps none has_thread pid s = inl (unreachable_process pid has_thread)

  finalize-Accounts :
      Reaps
      → (o : Option W.Process) (r : Result TokenError W.Process) (restored : Result Text (Unit {0}))
        (s : S)
      → Accounts o (r, s)
      → Accounts o (finalize_process_privilege_restore W r restored s)
  unfolding finalize_process_privilege_restore
  finalize-Accounts reaps o (ok p) (ok u) s h = h
  finalize-Accounts reaps o (err e) (ok u) s h = h
  finalize-Accounts reaps o (err e) (err f) s (inl reported) = inl (wrapped e f reported)
  finalize-Accounts reaps o (err e) (err f) s (inr gone) = inr gone
  finalize-Accounts reaps o (ok p) (err f) s h =
      elim (restore_error_of-IsReported f (compensate_process W p s).0) [
        | inl (n, done) ↦
            inr (λ q e. some-IsGone p q _ (compensate_process-IsGone reaps p s n done) (sym h ∙ e))
        | inr reported ↦ inl reported
      ]

  Accounts-step :
      (o : Option W.Process) (r : Result TokenError W.Process) (s t : S)
      → ((p : W.Process) → IsGone p s → IsGone p t)
      → Accounts o (r, s)
      → Accounts o (r, t)
  Accounts-step o (ok q) s t keep h = h
  Accounts-step o (err e) s t keep (inl reported) = inl reported
  Accounts-step o (err e) s t keep (inr gone) = inr (λ p h. keep p (gone p h))

  created-info :
      (token : W.Token) (spec : ProcessLaunchSpec) (s : S) (environment : W.Environment)
      (info : ProcessInformation W.Process)
      → (W.create_environment_block token s).0 ≡ ok environment
      → (W.create_process token
          (wide_null spec.application_path)
          (build_windows_command_line spec.application_path spec.arguments)
          environment
          (wide_null spec.working_directory)
          (W.create_environment_block token s).1).0
        ≡ ok info
      → created token spec s ≡ info.process
  created-info token spec s environment info opened made = ground (arith, opened, made)

  launch_in_environment-Accounts :
      Reaps
      → (token : W.Token) (spec : ProcessLaunchSpec) (s : S)
      → Accounts (created token spec s) (launch_in_environment W token spec s)
  unfolding launch_in_environment create_process_with_api
  launch_in_environment-Accounts reaps token spec s =
      elim (Result-cases (W.create_environment_block token s).0) [
        | inr (code, failed) ↦ rw failed (inr (λ p e. cc))
        | inl (environment, opened) ↦
            let call =
              W.create_process token (wide_null spec.application_path)
                (build_windows_command_line spec.application_path spec.arguments) environment
                (wide_null spec.working_directory) (W.create_environment_block token s).1 in
            elim (Result-cases call.0) [
              | inr (code, failed) ↦ rw opened (rw failed (inr (λ p e. cc)))
              | inl (info, made) ↦
                  subst (λ o. Accounts o (launch_in_environment W token spec s))
                    (sym (created-info token spec s environment info opened made))
                    (rw opened (
                      rw made (
                        let t = if info.has_thread then W.close_thread call.1 else call.1 in
                        let result =
                          validate_created_process_information W info.process info.has_thread
                            info.process_id t in
                        Accounts-step info.process result.0 result.1
                          (W.destroy_environment_block environment result.1)
                          (λ p gone. reaps.destroyed p environment result.1 gone)
                          (validate-Accounts reaps info.process info.has_thread info.process_id
                            t))))
            ]
      ]

  -- A launch returns the process that its calls handed out, or an error that says that a process
  -- may still run, or the process that was handed out, if there is one, is gone: if a process that
  -- was terminated and waited for is gone, and stays so under the launch's later calls.
  pub launch_process_with_token-Accounts :
      Reaps
      → (token : W.Token) (spec : ProcessLaunchSpec) (s : S)
      → Accounts (created token spec s) (launch_process_with_token W restore token spec s)
  unfolding launch_process_with_token
  launch_process_with_token-Accounts reaps token spec s =
      let (r, t) = launch_in_environment W token spec s in
      finalize-Accounts reaps (created token spec s) r (restore t).0 (restore t).1 (
        Accounts-step (created token spec s) r t (restore t).1 (λ p gone. reaps.restored p t gone)
          (launch_in_environment-Accounts reaps token spec s))
