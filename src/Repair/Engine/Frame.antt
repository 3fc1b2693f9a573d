-- ===== src/Repair/Engine/Frame.antt =====
-- What the checks of a repair leave alone.
use win_profile.Base.{
  ◌≡◌, Bool, true, false, Result, ok, err, Bool-cases, Result-cases, bind_err, ◌⊎◌, inl, inr, Text,
}
use win_profile.Audit.Event.{Event}
use win_profile.Platform.Registry.Api.{users, Win32Registry, key_read}
use win_profile.Profiles.Models.{RepairPlan}
use win_profile.Repair.Env.{RepairError, Services}
use win_profile.Repair.Checks.{
  validate_selected_actions, validate_lock_contract, validate_keys, validate_bak_key,
  validate_canonical_key, session_is_live, validate_session, validate_plan,
}
use win_profile.Repair.Steps.{verify, verify_names, verify_path, verify_reset}
use win_profile.Repair.Engine.{preflight, log, held, run_plan, execute_plan}
use win_profile.Repair.Engine.Keeps.{Keeps, IsFrame, reads, Keeps-seq, Keeps-open_key}

module _ (R : Win32Registry) (V : Services R.State) (Same : R.State → R.State → Type 0)
    (F : IsFrame R V Same) where
  open R use {State, Hkey}

  Keeps-validate_lock_contract : (plan : RepairPlan) → Keeps Same (validate_lock_contract R V plan)
  unfolding validate_lock_contract
  Keeps-validate_lock_contract plan = search reads

  Keeps-validate_bak_key :
      (plan : RepairPlan) (parent : Hkey) → Keeps Same (validate_bak_key R V plan parent)
  unfolding validate_bak_key
  Keeps-validate_bak_key plan parent = search reads depth 12

  Keeps-validate_canonical_key :
      (plan : RepairPlan) (parent : Hkey) → Keeps Same (validate_canonical_key R V plan parent)
  unfolding validate_canonical_key
  Keeps-validate_canonical_key plan parent = search reads

  ruleset key_rules = (reads, Keeps-validate_bak_key, Keeps-validate_canonical_key)

  Keeps-validate_keys :
      (plan : RepairPlan) (parent : Hkey) → Keeps Same (validate_keys R V plan parent)
  unfolding validate_keys
  Keeps-validate_keys plan parent = search key_rules

  Keeps-session_is_live : (plan : RepairPlan) → Keeps Same (session_is_live R V plan)
  unfolding session_is_live
  Keeps-session_is_live plan = record {
    from = (Keeps-open_key R V Same F users plan.canonical_sid key_read).from;
  }

  Keeps-validate_session :
      (plan : RepairPlan) (is_loaded : Bool) → Keeps Same (validate_session R V plan is_loaded)
  unfolding validate_session
  Keeps-validate_session plan is_loaded = search (reads, Keeps-session_is_live) depth 8

  Keeps-validate_selected_actions :
      (plan : RepairPlan) → Keeps Same (validate_selected_actions {S = State} plan)
  unfolding validate_selected_actions
  Keeps-validate_selected_actions plan = search reads

  ruleset plan_rules =
      (reads, Keeps-validate_selected_actions, Keeps-validate_session, Keeps-validate_keys)

  Keeps-validate_plan :
      (plan : RepairPlan) (is_loaded : Bool) → Keeps Same (validate_plan R V plan is_loaded)
  unfolding validate_plan
  Keeps-validate_plan plan is_loaded = search plan_rules depth 20 fits 20000

  pub Keeps-preflight :
      (plan : RepairPlan) (is_loaded : Bool) → Keeps Same (preflight R V plan is_loaded)
  unfolding preflight
  Keeps-preflight plan is_loaded =
      search
        (reads, Keeps-validate_selected_actions, Keeps-validate_lock_contract, Keeps-validate_plan)
        depth 10

  pub Keeps-verify_names :
      (plan : RepairPlan) (parent : Hkey) → Keeps Same (verify_names R V plan parent)
  unfolding verify_names
  Keeps-verify_names plan parent = search reads depth 12 fits 20000

  pub Keeps-verify_path : (o : Hkey) → Keeps Same (verify_path R V o)
  unfolding verify_path
  Keeps-verify_path o = search reads depth 12 fits 20000

  Keeps-verify_reset : (plan : RepairPlan) (o : Hkey) → Keeps Same (verify_reset R V plan o)
  unfolding verify_reset
  Keeps-verify_reset plan o = search reads depth 12 fits 20000

  pub Keeps-verify : (plan : RepairPlan) (parent : Hkey) → Keeps Same (verify R V plan parent)
  unfolding verify
  Keeps-verify plan parent =
      search (reads, Keeps-verify_names, Keeps-verify_path, Keeps-verify_reset) depth 12 fits 20000

  pub Keeps-log : (e : Event) → Keeps Same (log R V e)
  Keeps-log e = record { from = F.on_log e }

  -- A dry run keeps the relation, whatever it finds.
  Keeps-dry_run :
      (plan : RepairPlan) (is_loaded : Bool)
      → plan.dry_run ≡ true
      → Keeps Same (execute_plan R V plan is_loaded)
  unfolding execute_plan
  Keeps-dry_run plan is_loaded dry = rw dry (search (Keeps-seq, Keeps-preflight, Keeps-log))

  run_plan-refused :
      (plan : RepairPlan) (is_loaded : Bool) (s : State) (e : RepairError)
      → (preflight R V plan is_loaded s).0 ≡ err e
      → run_plan R V plan is_loaded s ≡ (err e, (preflight R V plan is_loaded s).1)
  unfolding run_plan
  run_plan-refused plan is_loaded s e failed = bind_err (preflight R V plan is_loaded) _ s e failed

  -- A plan that is refused behind the guard, or by it, keeps the relation.
  held-refused :
      (plan : RepairPlan) (is_loaded : Bool) (r : Result Text (Unit {0}) × State) (s : State)
      (e : RepairError)
      → ((w : State) → Same w (V.release_operation_guard w))
      → Same s r.1
      → (preflight R V plan is_loaded r.1).0 ≡ err e
      → Same s (held R V r (run_plan R V plan is_loaded)).1
  unfolding held
  held-refused plan is_loaded (err x, t) s e releases h failed = h
  held-refused plan is_loaded (ok x, t) s e releases h failed =
      rw (run_plan-refused plan is_loaded t e failed) (
        F.same_trans s t _ h
          (F.same_trans t _ _ ((Keeps-preflight plan is_loaded).from t) (releases _)))

  pub execute_plan-real :
      (plan : RepairPlan) (is_loaded : Bool) (s : State)
      → plan.dry_run ≡ false
      → execute_plan R V plan is_loaded s
        ≡ held R V (V.acquire_operation_guard s) (run_plan R V plan is_loaded)
  unfolding execute_plan
  execute_plan-real plan is_loaded s real = (simp real)

  -- A plan changes what the relation fixes only if it is not dry and passed every check behind
  -- the guard: otherwise the state at the end stands in the relation to the state at the start.
  pub execute_plan-frame :
      (plan : RepairPlan) (is_loaded : Bool) (s : State)
      → ((w : State) → Same w (V.acquire_operation_guard w).1)
      → ((w : State) → Same w (V.release_operation_guard w))
      → Same s (execute_plan R V plan is_loaded s).1
        ⊎ ((plan.dry_run ≡ false)
            × ((note : Text) × ((preflight R V plan is_loaded (V.acquire_operation_guard s).1).0
                  ≡ ok note)))
  execute_plan-frame plan is_loaded s acquires releases = elim (Bool-cases plan.dry_run) [
    | inl dry ↦ inl ((Keeps-dry_run plan is_loaded dry).from s)
    | inr real ↦
        elim (Result-cases (preflight R V plan is_loaded (V.acquire_operation_guard s).1).0) [
          | inl passed ↦ inr (real, passed)
          | inr (e, failed) ↦ inl (
              rw (execute_plan-real plan is_loaded s real)
                (held-refused plan is_loaded _ s e releases (acquires s) failed))
        ]
  ]
