-- ===== src/Platform/Tokens/Session.antt =====
-- The session of the requesting process, and the search for a process by its image name, of
-- crates/platform-win32/src/tokens.rs.
use win_profile.Base.{
  ℕ, ◌≡◌, ◌≢◌, ◌⊎◌, ◌↔◌, inl, inr, ap, subst, ◌∙◌, not, ◌&&◌, List, [], ◌∷◌, Result, ok, err,
  Result-cases, Program, pure, ◌>>=◌, ◌>>◌, raise_if, Text, eq_ignore_ascii_case, ◌==◌,
  if◌then◌else◌, arith,
}
use win_profile.Platform.Tokens.{
  TokenError, win32_error, non_interactive_request_session, request_session_not_connected,
  process_not_found,
}

-- `RequestSessionApi`
pub record RequestSessionApi (S : Type 0) : Type 0 where
  pub current_process_id : ℕ
  pub process_session_id : ℕ → Program S TokenError ℕ
  pub session_connect_state : ℕ → Program S TokenError ℕ

abbrev pub wts_active : ℕ
wts_active = 0

abbrev pub wts_connected : ℕ
wts_connected = 1

module _ {S : Type 0} (api : RequestSessionApi S) where
  unfoldable pub get_requesting_process_session_with_api : Program S TokenError ℕ
  get_requesting_process_session_with_api = do
    session_id ← api.process_session_id api.current_process_id
    raise_if (session_id == 0) (non_interactive_request_session session_id)
    state ← api.session_connect_state session_id
    raise_if (not (state == wts_active) && not (state == wts_connected))
        (request_session_not_connected session_id state)
    pure session_id

  -- What a session that is accepted has.
  pub record IsInteractive (session_id : ℕ) (s : S) : Type 0 where
    pub owned : (api.process_session_id api.current_process_id s).0 ≡ ok session_id
    pub nonzero : session_id ≢ 0
    pub state : ℕ
    pub queried :
        (api.session_connect_state session_id (api.process_session_id api.current_process_id s).1).0
        ≡ ok state
    pub reachable : (state ≡ wts_active) ⊎ (state ≡ wts_connected)

  IsInteractive-accepted :
      (s : S) (session_id : ℕ)
      → IsInteractive session_id s
      → (get_requesting_process_session_with_api s).0 ≡ ok session_id
  unfolding get_requesting_process_session_with_api
  IsInteractive-accepted s session_id i = ground (arith, i.owned, i.queried, i.nonzero, i.reachable)

  accepted-IsInteractive :
      (s : S) (session_id : ℕ)
      → (get_requesting_process_session_with_api s).0 ≡ ok session_id
      → IsInteractive session_id s
  unfolding get_requesting_process_session_with_api
  accepted-IsInteractive s session_id h =
      elim (Result-cases (api.process_session_id api.current_process_id s).0) [
        | inr (e, failed) ↦ absurd (ground (arith, failed))
        | inl (id, owned) ↦
            let t = (api.process_session_id api.current_process_id s).1 in
            elim (Result-cases (api.session_connect_state id t).0) [
              | inr (e, failed) ↦ absurd (ground (arith, owned, failed))
              | inl (state, queried) ↦
                  let same : id ≡ session_id = ground (arith, owned, queried) in
                  record {
                    owned = owned ∙ ap ok same;
                    nonzero = ground (arith, owned, queried);
                    state = state;
                    queried =
                        subst (λ n. (api.session_connect_state n t).0 ≡ ok state) same queried;
                    reachable = ground (arith, owned, queried);
                  }
            ]
      ]

  -- A session is accepted exactly if it is that of the requesting process, is not session zero,
  -- and is active or connected.
  pub get_requesting_process_session_with_api-IsInteractive :
      (s : S) (session_id : ℕ)
      → ((get_requesting_process_session_with_api s).0 ≡ ok session_id) ↔ IsInteractive session_id s
  get_requesting_process_session_with_api-IsInteractive s session_id =
      (accepted-IsInteractive s session_id, IsInteractive-accepted s session_id)

-- The names of the processes that a snapshot lists, with their identifiers.
unfoldable pub find_in_processes : Text → List (Text × ℕ) → Result TokenError ℕ
unfolding eq_ignore_ascii_case
find_in_processes image_name [] = err (process_not_found image_name)
find_in_processes image_name ((name, pid) ∷ processes) =
    if eq_ignore_ascii_case name image_name then ok pid else find_in_processes image_name processes

-- `snapshot` is what `CreateToolhelp32Snapshot` gives, read to its end.
unfoldable pub find_process_id_by_name : Result ℕ (List (Text × ℕ)) → Text → Result TokenError ℕ
unfolding find_in_processes
find_process_id_by_name (err code) image_name = err (win32_error code)
find_process_id_by_name (ok processes) image_name = find_in_processes image_name processes
