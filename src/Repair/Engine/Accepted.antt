-- ===== src/Repair/Engine/Accepted.antt =====
-- Which plans pass the checks of a repair.
use win_profile.Base.{◌≡◌, ◌⊎◌, Bool, true, false, ◌||◌, ok, Text, text_eq_iff, arith}
use win_profile.Platform.Registry.Api.{Win32Registry}
use win_profile.Profiles.Models.{RepairPlan}
use win_profile.Repair.Env.{Services}
use win_profile.Repair.Checks.{
  bak_name, is_valid_sid, validate_selected_actions, validate_lock_contract, validate_session,
  validate_plan,
}
use win_profile.Repair.Engine.{preflight}

-- What the checks find of a plan itself.
pub record IsAccepted (plan : RepairPlan) (is_loaded : Bool) : Type 0 where
  pub no_unlock : plan.unlock_hive ≡ false
  pub has_action : (plan.fix_bak || plan.reset_state) ≡ true
  pub not_loaded : is_loaded ≡ false
  pub valid_sid : is_valid_sid plan.canonical_sid ≡ true
  pub same_profile : (plan.sid ≡ plan.canonical_sid) ⊎ (plan.sid ≡ bak_name plan)

module _ (R : Win32Registry) (V : Services R.State) where
  validate_session-ok :
      (plan : RepairPlan) (is_loaded : Bool) (s : R.State) (u : Unit {0})
      → (validate_session R V plan is_loaded s).0 ≡ ok u
      → (is_valid_sid plan.canonical_sid ≡ true)
        × (((plan.sid ≡ plan.canonical_sid) ⊎ (plan.sid ≡ bak_name plan)) × (is_loaded ≡ false))
  unfolding validate_session
  validate_session-ok plan is_loaded s u h =
      ground (arith, text_eq_iff plan.sid plan.canonical_sid, text_eq_iff plan.sid (bak_name plan))

  validate_plan-ok :
      (plan : RepairPlan) (is_loaded : Bool) (s : R.State) (note : Text)
      → (validate_plan R V plan is_loaded s).0 ≡ ok note
      → (validate_session R V plan is_loaded s).0 ≡ ok tt
  unfolding validate_plan validate_selected_actions
  validate_plan-ok plan is_loaded s note h = ground arith

  -- Every plan that passes the checks asks for no process shutdown, selects an action, belongs to
  -- a session that the caller reports as not loaded, has a well-formed SID, and names that SID's
  -- key or its `.bak` key.
  pub preflight-IsAccepted :
      (plan : RepairPlan) (is_loaded : Bool) (s : R.State) (note : Text)
      → (preflight R V plan is_loaded s).0 ≡ ok note
      → IsAccepted plan is_loaded
  unfolding preflight validate_selected_actions
  preflight-IsAccepted plan is_loaded s note h = ground (
    arith,
    validate_plan-ok plan is_loaded (validate_lock_contract R V plan s).1 note,
    validate_session-ok plan is_loaded (validate_lock_contract R V plan s).1 tt,
  )
