-- ===== src/Platform/Security.antt =====
-- `PrivilegeGuard` of crates/platform-win32/src/security.rs.
pub mod Restored
use win_profile.Base.{
  ℕ, Bool, true, false, not, ◌||◌, ◌&&◌, List, [], ◌∷◌, ◌++◌, reverse, Option, none, some, Result,
  ok, err, Program, with_error, ◌>>=◌, Text, ◌==◌, if◌then◌else◌,
}

pub data SecurityError : Type 0 where
  win32_error : ℕ → SecurityError
  privilege_not_assigned : Text → SecurityError

-- A privilege's attributes, as `TOKEN_PRIVILEGES` has them for one privilege.
pub record PrivilegeState : Type 0 where
  pub luid : ℕ
  pub attributes : ℕ

-- What `AdjustTokenPrivileges` gives; the previous state is absent if its count is zero.
pub record Adjustment : Type 0 where
  pub succeeded : Bool
  pub last_error : ℕ
  pub previous : Option PrivilegeState

pub record PrivilegeApi (S : Type 0) : Type 1 where
  pub Token : Type 0
  pub open_process_token : Program S ℕ Token
  pub lookup_privilege_value : Text → Option ℕ
  pub adjust_token_privileges : Token → PrivilegeState → S → Adjustment × S

abbrev pub se_privilege_enabled : ℕ
se_privilege_enabled = 2

abbrev pub error_not_all_assigned : ℕ
error_not_all_assigned = 1300

-- `PrivilegeGuard`; the state that was changed last stands last.
pub record PrivilegeGuard (T : Type 0) : Type 0 where
  pub token : T
  pub previous_states : List PrivilegeState

unfoldable pub first_error_of : Option SecurityError → Adjustment → Option SecurityError
first_error_of (some e) a = some e
first_error_of none a =
    if not a.succeeded || a.last_error == error_not_all_assigned
    then some (win32_error a.last_error)
    else none

abbrev pub push_previous : List PrivilegeState → Option PrivilegeState → List PrivilegeState
push_previous states none = states
push_previous states (some p) = states ++ p ∷ []

abbrev pub to_result : Option SecurityError → Result SecurityError (Unit {0})
to_result none = ok tt
to_result (some e) = err e

module _ {S : Type 0} (api : PrivilegeApi S) where
  open api use {Token}

  -- The loop over the states, the last one first, with the first error.
  unfoldable pub restore_states :
      Token → List PrivilegeState → Option SecurityError → S → Option SecurityError × S
  unfolding first_error_of
  restore_states token [] first_error s = (first_error, s)
  restore_states token (p ∷ states) first_error s =
      let (a, t) = api.adjust_token_privileges token p s in
      restore_states token states (first_error_of first_error a) t

  unfoldable pub restore_privileges :
      Token → List PrivilegeState → Program S SecurityError (Unit {0})
  unfolding restore_states
  restore_privileges token states s =
      let (e, t) = restore_states token (reverse states) none s in (to_result e, t)

  -- `restore_privileges(..)?` and then the error.
  unfoldable pub give_up :
      Token → List PrivilegeState → SecurityError → Program S SecurityError (List PrivilegeState)
  unfolding restore_privileges
  give_up token previous_states error = do
    restored ← restore_privileges token previous_states
    (λ s. (err error, s))

  unfoldable pub enable_privileges :
      Token → List Text → List PrivilegeState → Program S SecurityError (List PrivilegeState)
  unfolding give_up
  enable_privileges token [] previous_states s = (ok previous_states, s)
  enable_privileges token (name ∷ names) previous_states s =
      elim (api.lookup_privilege_value name) [
        | none ↦ give_up token previous_states (privilege_not_assigned name) s
        | some luid ↦
            let (a, t) =
              api.adjust_token_privileges token
                (record { luid = luid; attributes = se_privilege_enabled }) s in
            let rest = enable_privileges token names (push_previous previous_states a.previous) t in
            if not a.succeeded
            then give_up token previous_states (win32_error a.last_error) t
            else if a.last_error == error_not_all_assigned
            then give_up token previous_states (privilege_not_assigned name) t
            else rest
      ]

  -- `PrivilegeGuard::new`
  unfoldable pub new_guard : List Text → Program S SecurityError (PrivilegeGuard Token)
  unfolding enable_privileges
  new_guard names = do
    token ← with_error win32_error api.open_process_token
    previous_states ← enable_privileges token names []
    (λ s. (ok record { token = token; previous_states = previous_states }, s))

  -- `PrivilegeGuard::restore`, with the `Drop` of the guard that it takes: an error leaves the
  -- states, which are restored once more without a report; after a success there is none left.
  unfoldable pub restore_guard : PrivilegeGuard Token → Program S SecurityError (Unit {0})
  unfolding restore_privileges
  restore_guard guard s =
      let (r, t) = restore_privileges guard.token guard.previous_states s in
      let dropped = (restore_privileges guard.token guard.previous_states t).1 in
      elim r [ ok u ↦ (ok u, t) | err e ↦ (err e, dropped) ]
